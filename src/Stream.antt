-- ===== src/Stream.antt =====
-- stream: the client of the shared bus.
pub mod Values
pub mod Registry
pub mod Subjects
pub mod Client
pub mod Subscribe
pub mod Interest
mod Examples
