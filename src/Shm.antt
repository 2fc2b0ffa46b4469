-- ===== src/Shm.antt =====
-- crates/ratatosk-shm: the shared-memory transport.
pub mod Ring
mod Tests
