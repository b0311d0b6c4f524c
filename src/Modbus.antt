-- ===== src/Modbus.antt =====
-- modbus: configuration, packing of points into requests, and decoding of what is read.
pub mod Config
pub mod Group
pub mod Reader
pub mod Service
