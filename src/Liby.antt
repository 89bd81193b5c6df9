-- ===== src/Liby.antt =====
-- The event library liby/src.
pub mod Client
pub mod Init
pub mod Links
pub mod Loop
mod Samples
pub mod State
pub mod Tasks
mod Tests
