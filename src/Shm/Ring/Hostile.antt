-- ===== src/Shm/Ring/Hostile.antt =====
-- The ring of ring.rs when the peer writes arbitrary control words.
use mathlib.Core.Path.{subst}
use Prim.Native.Nat.{bit_and}
use ratatosk.Prelude.{
  ℕ, zero, suc, ◌+◌, ◌≤◌, ◌<◌, ◌≡◌, refl, sym, ◌∙◌, List, [], ◌∷◌, lt→ltb, arith, dec_lt,
  ℕ_discrete, length, length-set,
}
use ratatosk.Shm.Ring.{
  wrapping_add, wrapping_sub, Checked, ok, corrupt, RingView, capacity, mask, Producer, Consumer,
  used, available, store_bytes, load_bytes, push, pop,
}
use ratatosk.Shm.Ring.Queue.{
  length-load_bytes, used_within, available_within, push_ok, pop_ok, push_branch, pop_branch,
  if_zero, if_pos,
}

-- What a call of the producer may do to a ring with any control words.
abbrev pub PushIsSafe : Producer → RingView → List ℕ → Checked ℕ × Producer × RingView → Type 0
PushIsSafe p v src (corrupt, p', v') =
    (capacity v < wrapping_sub p.tail v.head) × (p' ≡ p) × (v' ≡ v)
PushIsSafe p v src (ok n, p', v') =
    (wrapping_sub p.tail v.head + n ≤ capacity v)
    × (n ≤ length src)
    × (capacity v' ≡ capacity v)
    × (v'.head ≡ v.head)

abbrev pub PopIsSafe : Consumer → RingView → ℕ → Checked (List ℕ) × Consumer × RingView → Type 0
PopIsSafe c v room (corrupt, c', v') =
    (capacity v < wrapping_sub v.tail c.head) × (c' ≡ c) × (v' ≡ v)
PopIsSafe c v room (ok bytes, c', v') =
    (length bytes ≤ wrapping_sub v.tail c.head)
    × (length bytes ≤ capacity v)
    × (length bytes ≤ room)
    × (v'.bytes ≡ v.bytes)
    × (v'.tail ≡ v.tail)

length-store_bytes :
    (m t i n : ℕ) (src bytes : List ℕ) → length (store_bytes m t i n src bytes) ≡ length bytes
unfolding store_bytes
length-store_bytes m t i zero src bytes = refl
length-store_bytes m t i (suc n) [] bytes = refl
length-store_bytes m t i (suc n) (b ∷ src) bytes =
    length-store_bytes m t (i + 1) n src _ ∙ length-set bytes (bit_and (wrapping_add t i) m) b

push_corrupt :
    (p : Producer) (v : RingView) (src : List ℕ)
    → capacity v < wrapping_sub p.tail v.head
    → push p v src ≡ (corrupt, p, v)
unfolding push used store_bytes
push_corrupt p v src h = rw (lt→ltb (capacity v) (wrapping_sub p.tail v.head) h, push, used) refl

pop_corrupt :
    (c : Consumer) (v : RingView) (room : ℕ)
    → capacity v < wrapping_sub v.tail c.head
    → pop c v room ≡ (corrupt, c, v)
unfolding pop available load_bytes
pop_corrupt c v room h =
    rw (lt→ltb (capacity v) (wrapping_sub v.tail c.head) h, pop, available) refl

push_branch_safe :
    (p : Producer) (v : RingView) (src : List ℕ) (n : ℕ)
    → wrapping_sub p.tail v.head + n ≤ capacity v
    → n ≤ length src
    → PushIsSafe p v src (push_branch p v src n)
push_branch_safe p v src n fits le = elim (ℕ_discrete n 0) [
  | yes z ↦
      subst (PushIsSafe p v src) (sym (if_zero n _ _ z)) (omega arith, omega arith, refl, refl)
  | no nz ↦
      subst (PushIsSafe p v src) (sym (if_pos n _ _ nz))
        (fits, le, length-store_bytes (mask v) p.tail 0 n src v.bytes, refl)
]

pop_branch_safe :
    (c : Consumer) (v : RingView) (room n : ℕ)
    → n ≤ wrapping_sub v.tail c.head
    → n ≤ capacity v
    → n ≤ room
    → PopIsSafe c v room (pop_branch c v n)
pop_branch_safe c v room n a b d = elim (ℕ_discrete n 0) [
  | yes z ↦
      subst (PopIsSafe c v room) (sym (if_zero n _ _ z))
        (omega arith, omega arith, omega arith, refl, refl)
  | no nz ↦
      subst (PopIsSafe c v room) (sym (if_pos n _ _ nz))
        (omega (arith, len), omega (arith, len), omega (arith, len), refl, refl)
]
  where
    len : length (load_bytes (mask v) c.head 0 n v.bytes) ≡ n
    len = length-load_bytes (mask v) c.head 0 n v.bytes

-- Whatever the consumer stored, `push` either reports corruption, which is when the distance of the
-- indices is above the capacity, and changes nothing; or it takes no more than the free bytes and
-- leaves the storage's size and the consumer's index alone.
pub push-PushIsSafe :
    (p : Producer) (v : RingView) (src : List ℕ) → PushIsSafe p v src (push p v src)
push-PushIsSafe p v src = elim (dec_lt (capacity v) (wrapping_sub p.tail v.head)) [
  | yes h ↦ subst (PushIsSafe p v src) (sym (push_corrupt p v src h)) (h, refl, refl)
  | no h ↦
      subst (PushIsSafe p v src)
        (sym (push_ok p v src (wrapping_sub p.tail v.head) (used_within p v v.head (omega arith))))
        (push_branch_safe p v src _ (omega arith) (omega arith))
]

-- Whatever the producer stored, `pop` either reports corruption and changes nothing, or it gives no
-- more bytes than the indices claim, the storage holds and the caller has room for, and it changes
-- neither the storage nor the producer's index.
pub pop-PopIsSafe : (c : Consumer) (v : RingView) (room : ℕ) → PopIsSafe c v room (pop c v room)
pop-PopIsSafe c v room = elim (dec_lt (capacity v) (wrapping_sub v.tail c.head)) [
  | yes h ↦ subst (PopIsSafe c v room) (sym (pop_corrupt c v room h)) (h, refl, refl)
  | no h ↦
      subst (PopIsSafe c v room)
        (sym (
          pop_ok c v room (wrapping_sub v.tail c.head) (available_within c v v.tail (omega arith))))
        (pop_branch_safe c v room _ (omega arith) (omega arith) (omega arith))
]
