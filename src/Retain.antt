-- ===== src/Retain.antt =====
-- The retained values of the retain service.
pub mod Store
pub mod Server
mod Examples
