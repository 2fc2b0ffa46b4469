-- ===== src/Lib.antt =====
-- Ratatosk: a model of the server's own logic and proofs about it.
--
-- The program is a Redis-compatible server in Rust. A client's bytes are parsed into a frame
-- (crates/ratatosk-resp/src/parse.rs), a command handler answers with a frame, and the answer is
-- encoded for the client's protocol version (crates/ratatosk-resp/src/encode.rs). A client on the
-- same machine may speak through a pair of byte rings in shared memory
-- (crates/ratatosk-shm/src/ring.rs) instead of a socket. Published messages go through the
-- subscription indexes (crates/ratatosk-engine/src/pubsub.rs), and two limiters bound failed logins
-- and new connections by address.
--
-- Files and what they model:
--   Prelude       native numbers, Boolean tests, lists, integers and decimal text
--   Resp/Frame    RespFrame; an absent bulk string is `bulk_string none`
--   Resp/Encode   encode, encode_for_version and what they call; output is a list of bytes and an
--                 appending routine takes and returns it
--   Resp/Length   encoded_len and encoded_len_for_version, with their saturating additions
--   Resp/Segments ReplySegments, one round of the loop of `next` at a time; 4 rounds for each part of
--                 the frame are enough
--   Resp/Line     find_crlf, parse_line_offsets, ensure_plain_line
--   Resp/Inline   the inline command splitter, one step per loop round
--   Resp/Parse    describe_* and materialize
--   Shm/Ring      RingView, Producer, Consumer; control words are fields of a record
--
--   PubSub        pubsub.rs of crates/ratatosk-engine/src: subscriptions both ways, delivery
--   Object        object.rs of crates/ratatosk-engine/src: integers and index ranges of arguments
--   Keyspace      keyspace.rs and the memory estimate of eviction.rs of crates/ratatosk-engine/src:
--                 Value and Memory for stored values, SetValue for sets, Shard, Guard (DbWriteGuard),
--                 State (DataState). The write guard also lends its map out (`DerefMut`), and handlers
--                 edit values in place: `edit_in_place`, a function on the value. No memory counter
--                 follows such an edit; `recompute_memory_estimates` counts again
--   Command       command/cmd_key.rs and expiry.rs of crates/ratatosk-engine/src; a reply is an integer,
--                 OK or an error, which stands for its text
--   Slot          slot.rs of crates/ratatosk-engine/src
--   RateLimit     auth_rate_limiter.rs of crates/ratatosk-engine/src and rate_limiter.rs of
--                 crates/ratatosk-server/src
--
-- Hash maps are association lists with one entry for each key and hash sets are lists; an iteration
-- runs in the order of the list. The sender of a client of PubSub with its queue, and the glob match,
-- are parameters.
-- The memchr crate and the standard library's number formatting are fields of Resp.Crates.Crates,
-- with what the code relies on as laws; `plain_crates` is an instance. Numbers are natural numbers:
-- additions of u64 in the ring are written modulo 2^64, saturating ones are cut off at 2^64 - 1.
-- The recursion of the parser is on MAX_NESTING_DEPTH - depth, which the source bounds by its check;
-- loops over a buffer take the buffer's length as fuel.
--
-- A database's lock is held for a whole call, so a call of the write guard is one step on the shard,
-- its memory counter and the shared counter of key versions; a score is the bits of its f64.
--
-- Not modelled: the sharing of buffers (Bytes), atomic memory orders, sockets, threads and files.
pub mod Prelude
pub mod Resp
pub mod Shm
pub mod PubSub
pub mod RateLimit
pub mod Object
pub mod Keyspace
pub mod Command
pub mod Slot
