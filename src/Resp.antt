-- ===== src/Resp.antt =====
-- The RESP2/RESP3 codec, crates/ratatosk-resp.
pub mod Crates
pub mod Frame
pub mod Encode
pub mod Length
pub mod Line
pub mod Inline
pub mod Parse
pub mod Segments
mod Tests
