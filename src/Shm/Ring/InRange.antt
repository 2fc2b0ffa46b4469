-- ===== src/Shm/Ring/InRange.antt =====
-- The calls of ring.rs do not panic, whatever the peer writes: no index leaves the storage.
use native.Mathlib.Nat.{mod-lt, one-le-pow}
use Prim.Native.Nat.{bit_and}
use ratatosk.Prelude.{
  ℕ, zero, suc, ◌+◌, ◌-◌, ◌^◌, ◌≤◌, ◌≡◌, refl, ap, ◌∙◌, some, true, List, [], ◌∷◌, inl, inr,
  Bool-cases, arith, length, length-set, min, set, ◌==◌, ltb, lt→ltb,
}
use ratatosk.Shm.Ring.{
  wrapping_add, wrapping_sub, RingView, capacity, Producer, used, store_bytes, store_checked, push,
  push_checked,
}
use ratatosk.Shm.Ring.Mask.{bit_and-mask}

masked_within :
    (k : ℕ) (bytes : List ℕ) (x : ℕ)
    → length bytes ≡ 2 ^ k
    → ltb (bit_and x (2 ^ k - 1)) (length bytes) ≡ true
masked_within k bytes x e =
    lt→ltb (bit_and x (2 ^ k - 1)) (length bytes)
      (rw (e, bit_and-mask k x) (mod-lt x {m = 2 ^ k} (one-le-pow k 2 (omega arith))))

store_checked-store_bytes :
    (k tail i n : ℕ) (src bytes : List ℕ)
    → length bytes ≡ 2 ^ k
    → n ≤ length src
    → store_checked (2 ^ k - 1) tail i n src bytes
      ≡ some (store_bytes (2 ^ k - 1) tail i n src bytes)
unfolding store_checked store_bytes
store_checked-store_bytes k tail i zero src bytes e le = refl
store_checked-store_bytes k tail i (suc n) [] bytes e le = absurd (omega arith)
store_checked-store_bytes k tail i (suc n) (b ∷ src) bytes e le =
    let idx = bit_and (wrapping_add tail i) (2 ^ k - 1) in
    rw (masked_within k bytes (wrapping_add tail i) e) (
      store_checked-store_bytes k tail (i + 1) n src (set bytes idx b) (length-set bytes idx b ∙ e)
        (omega arith))

-- Whatever stands in the control words, `push` on a storage whose size is a power of two does not panic:
-- with every index and slice checked it does what `push` does.
pub push_checked-push :
    (k : ℕ) (p : Producer) (v : RingView) (src : List ℕ)
    → capacity v ≡ 2 ^ k
    → push_checked p v src ≡ some (push p v src)
unfolding push_checked push used
push_checked-push k p v src e = elim (Bool-cases (ltb (capacity v) (wrapping_sub p.tail v.head))) [
  | inl h ↦ rw (h, push_checked, push, used) refl
  | inr h ↦
      let n = min (capacity v - wrapping_sub p.tail v.head) (length src) in
      rw (h, push_checked, push, used)
        (elim (Bool-cases (n == 0)) [
          | inl z ↦ rw z refl
          | inr z ↦
              rw
                (
                  z,
                  ap (λ t. t - 1) e,
                  store_checked-store_bytes k p.tail 0 n src v.bytes e (omega arith),
                )
                refl
        ])
]
