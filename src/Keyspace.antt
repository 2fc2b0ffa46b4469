-- ===== src/Keyspace.antt =====
-- The databases, crates/ratatosk-engine/src/keyspace.rs.
mod Tests
mod SetTests
mod ServerTests
pub mod Value
pub mod Watchers
pub mod Whole
pub mod Steps
pub mod Load
pub mod Swap
pub mod Server
pub mod Touch
pub mod Move
pub mod Renamed
pub mod SetValue
pub mod Intset
pub mod SetLaws
pub mod SetMembers
pub mod SetOf
pub mod Memory
pub mod Shard
pub mod Versions
pub mod Guard
pub mod Agrees
pub mod State
pub mod Purge
pub mod Untouched
pub mod Marks
pub mod Recount
pub mod Drift
pub mod Exchange
pub mod Swapped
pub mod Registered
pub mod Session
pub mod Synced
pub mod Writes
pub mod Rename
pub mod Mutate
pub mod Reach
