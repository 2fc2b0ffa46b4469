-- ===== src/Command.antt =====
-- Command handlers, crates/ratatosk-engine/src/command.
mod Tests
pub mod Scan
pub mod Reply
pub mod Expiry
pub mod Key
pub mod Ttl
pub mod Delete
