-- ===== src/Shm/Ring.antt =====
-- The single-producer, single-consumer byte ring, crates/ratatosk-shm/src/ring.rs. The control words
-- and the storage are a record; `tail` of a producer and `head` of a consumer are their private
-- copies. Additions of `u64` wrap.
pub mod Mask
pub mod Window
pub mod Refine
pub mod Queue
pub mod Run
pub mod Hostile
pub mod InRange
use mathlib.Core.Option.{map}
use Prim.Native.Nat.{bit_and}
use ratatosk.Prelude.{
  ℕ, zero, suc, ◌+◌, ◌-◌, ◌%◌, ◌^◌, min, Bool, true, false, List, [], ◌∷◌, if◌then◌else◌, ltb, ◌==◌,
  length, set, get_or, Option, none, some,
}

abbrev pub u64_mod : ℕ
u64_mod = 2 ^ 64

abbrev pub wrapping_add : ℕ → ℕ → ℕ
wrapping_add a b = (a + b) % u64_mod

abbrev pub wrapping_sub : ℕ → ℕ → ℕ
wrapping_sub a b = (a + u64_mod - b) % u64_mod

-- `Result<A, Corrupt>`
pub data Checked (A : Type 0) : Type 0 where
  ok : A → Checked A
  corrupt : Checked A

pub data Park : Type 0 where
  proceed sleep : Park

-- `RingView`
pub record RingView : Type 0 where
  pub tail : ℕ
  pub head : ℕ
  pub consumer_parked : ℕ
  pub producer_parked : ℕ
  pub bytes : List ℕ

abbrev pub capacity : RingView → ℕ
capacity v = length v.bytes

abbrev pub mask : RingView → ℕ
mask v = capacity v - 1

pub record Producer : Type 0 where
  pub tail : ℕ

pub record Consumer : Type 0 where
  pub head : ℕ

-- `Producer::used` and `Consumer::available`: the distance of the indices, if the capacity allows it.
unfoldable pub used : Producer → RingView → ℕ → Checked ℕ
used p v head = let n = wrapping_sub p.tail head in if ltb (capacity v) n then corrupt else ok n

unfoldable pub available : Consumer → RingView → ℕ → Checked ℕ
available c v tail =
    let n = wrapping_sub tail c.head in if ltb (capacity v) n then corrupt else ok n

-- The loop of `push` over `src[..n]`, from its byte `i` on. The storage keeps its length, so the
-- mask is that of the whole loop.
unfoldable pub store_bytes : ℕ → ℕ → ℕ → ℕ → List ℕ → List ℕ → List ℕ
store_bytes m tail i zero src bytes = bytes
store_bytes m tail i (suc n) [] bytes = bytes
store_bytes m tail i (suc n) (b ∷ src) bytes =
    store_bytes m tail (i + 1) n src (set bytes (bit_and (wrapping_add tail i) m) b)

-- The bytes that the loop of `pop` copies out, from byte `i` on.
unfoldable pub load_bytes : ℕ → ℕ → ℕ → ℕ → List ℕ → List ℕ
load_bytes m head i zero bytes = []
load_bytes m head i (suc n) bytes =
    get_or bytes (bit_and (wrapping_add head i) m) 0 ∷ load_bytes m head (i + 1) n bytes

unfoldable pub push : Producer → RingView → List ℕ → Checked ℕ × Producer × RingView
unfolding used store_bytes
push p v src = elim (used p v v.head) [
  | corrupt ↦ (corrupt, p, v)
  | ok u ↦
      let n = min (capacity v - u) (length src) in
      let tail = wrapping_add p.tail n in
      if n == 0 then (ok 0, p, v) else (
        ok n,
        record { tail = tail },
        record v { bytes = store_bytes (mask v) p.tail 0 n src v.bytes; tail = tail },
      )
]

-- `room` is `dst.len()`; the bytes are those that it is filled with.
unfoldable pub pop : Consumer → RingView → ℕ → Checked (List ℕ) × Consumer × RingView
unfolding available load_bytes
pop c v room = elim (available c v v.tail) [
  | corrupt ↦ (corrupt, c, v)
  | ok a ↦
      let n = min a room in
      let head = wrapping_add c.head n in
      if n == 0 then (ok [], c, v) else (
        ok (load_bytes (mask v) c.head 0 n v.bytes),
        record { head = head },
        record v { head = head },
      )
]

-- The same loops and calls with the panics of the source, `none`: an index outside of the storage or a
-- slice of `src` that is too long.
unfoldable pub store_checked : ℕ → ℕ → ℕ → ℕ → List ℕ → List ℕ → Option (List ℕ)
store_checked m tail i zero src bytes = some bytes
store_checked m tail i (suc n) [] bytes = none
store_checked m tail i (suc n) (b ∷ src) bytes =
    let idx = bit_and (wrapping_add tail i) m in
    if ltb idx (length bytes) then store_checked m tail (i + 1) n src (set bytes idx b) else none

unfoldable pub load_checked : ℕ → ℕ → ℕ → ℕ → List ℕ → Option (List ℕ)
load_checked m head i zero bytes = some []
load_checked m head i (suc n) bytes =
    let idx = bit_and (wrapping_add head i) m in
    if ltb idx (length bytes)
    then map (λ (rest : List ℕ). get_or bytes idx 0 ∷ rest) (load_checked m head (i + 1) n bytes)
    else none

unfoldable pub push_checked :
    Producer → RingView → List ℕ → Option (Checked ℕ × Producer × RingView)
unfolding used store_checked
push_checked p v src = elim (used p v v.head) [
  | corrupt ↦ some (corrupt, p, v)
  | ok u ↦
      let n = min (capacity v - u) (length src) in
      let tail = wrapping_add p.tail n in
      if n == 0
      then some (ok 0, p, v)
      else (map
          (λ (bytes : List ℕ).
            (ok n, record { tail = tail }, record v { bytes = bytes; tail = tail }))
          (store_checked (mask v) p.tail 0 n src v.bytes))
]

unfoldable pub pop_checked :
    Consumer → RingView → ℕ → Option (Checked (List ℕ) × Consumer × RingView)
unfolding available load_checked
pop_checked c v room = elim (available c v v.tail) [
  | corrupt ↦ some (corrupt, c, v)
  | ok a ↦
      let n = min a room in
      let head = wrapping_add c.head n in
      if n == 0
      then some (ok [], c, v)
      else (map (λ (bytes : List ℕ). (ok bytes, record { head = head }, record v { head = head }))
          (load_checked (mask v) c.head 0 n v.bytes))
]

-- `should_ring` of the producer and of the consumer.
abbrev pub consumer_waits : RingView → Bool
consumer_waits v = v.consumer_parked == 1

abbrev pub producer_waits : RingView → Bool
producer_waits v = v.producer_parked == 1

-- A corrupt index leaves the flag armed.
unfoldable pub park_for_space : Producer → RingView → Checked Park × RingView
unfolding used
park_for_space p v = elim (used p v v.head) [
  | corrupt ↦ (corrupt, record v { producer_parked = 1 })
  | ok u ↦
      if ltb u (capacity v)
      then (ok proceed, record v { producer_parked = 0 })
      else (ok sleep, record v { producer_parked = 1 })
]

unfoldable pub park_for_data : Consumer → RingView → Checked Park × RingView
unfolding available
park_for_data c v = elim (available c v v.tail) [
  | corrupt ↦ (corrupt, record v { consumer_parked = 1 })
  | ok a ↦
      if ltb 0 a
      then (ok proceed, record v { consumer_parked = 0 })
      else (ok sleep, record v { consumer_parked = 1 })
]

unfoldable pub producer_unpark : RingView → RingView
producer_unpark v = record v { producer_parked = 0 }

unfoldable pub consumer_unpark : RingView → RingView
consumer_unpark v = record v { consumer_parked = 0 }

abbrev pub checked_lt : Checked ℕ → ℕ → Checked Bool
checked_lt corrupt n = corrupt
checked_lt (ok u) n = ok (ltb u n)

abbrev pub checked_pos : Checked ℕ → Checked Bool
checked_pos corrupt = corrupt
checked_pos (ok u) = ok (ltb 0 u)

unfoldable pub has_space : Producer → RingView → Checked Bool
unfolding used
has_space p v = checked_lt (used p v v.head) (capacity v)

unfoldable pub has_data : Consumer → RingView → Checked Bool
unfolding available
has_data c v = checked_pos (available c v v.tail)
