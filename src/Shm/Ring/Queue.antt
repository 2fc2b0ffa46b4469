-- ===== src/Shm/Ring/Queue.antt =====
-- The ring of ring.rs against its specification, a bounded queue of bytes: single calls and runs.
use mathlib.Core.Path.{subst}
use ratatosk.Prelude.{
  ℕ, zero, suc, ◌+◌, ◌-◌, ◌^◌, ◌≤◌, ◌≡◌, ◌≢◌, refl, sym, ap, ◌∙◌, List, [], ◌∷◌, ◌++◌, false,
  if◌then◌else◌, ltb, ◌==◌, arith, length, append-nil, take, drop, min, length-append, ℕ_discrete,
}
use ratatosk.Shm.Ring.{
  wrapping_add, wrapping_sub, Checked, ok, corrupt, RingView, capacity, mask, Producer, Consumer,
  used, available, store_bytes, load_bytes, push, pop,
}
use ratatosk.Shm.Ring.Window.{length-window}
use ratatosk.Shm.Ring.Refine.{
  IsRing, contents, filled, pushed-IsRing, pushed_contents, popped-IsRing, popped_contents,
}

-- The specification. A queue of at most `cap` bytes takes what fits and gives what is asked for.
abbrev pub accepted : ℕ → List ℕ → List ℕ → ℕ
accepted cap q src = min (cap - length q) (length src)

abbrev pub enqueue : ℕ → List ℕ → List ℕ → List ℕ
enqueue cap q src = q ++ take (accepted cap q src) src

-- The call returns how much it took, and the ring is one that holds the new queue.
abbrev pub Pushes : ℕ → Consumer → List ℕ → List ℕ → Checked ℕ × Producer × RingView → Type 0
Pushes k c q src (o, p, v) =
    (o ≡ ok (accepted (2 ^ k) q src)) × IsRing k p c v × (contents p c v ≡ enqueue (2 ^ k) q src)

abbrev pub Pops : ℕ → Producer → List ℕ → ℕ → Checked (List ℕ) × Consumer × RingView → Type 0
Pops k p q room (o, c, v) = (o ≡ ok (take room q)) × IsRing k p c v × (contents p c v ≡ drop room q)

ltb-false : (a b : ℕ) → b ≤ a → ltb a b ≡ false
ltb-false a b h = ground arith

pub used_within :
    (p : Producer) (v : RingView) (h : ℕ)
    → wrapping_sub p.tail h ≤ capacity v
    → used p v h ≡ ok (wrapping_sub p.tail h)
unfolding used
used_within p v h le =
    ap (λ b. if b then corrupt else ok (wrapping_sub p.tail h))
      (ltb-false (capacity v) (wrapping_sub p.tail h) le)

pub available_within :
    (c : Consumer) (v : RingView) (t : ℕ)
    → wrapping_sub t c.head ≤ capacity v
    → available c v t ≡ ok (wrapping_sub t c.head)
unfolding available
available_within c v t le =
    ap (λ b. if b then corrupt else ok (wrapping_sub t c.head))
      (ltb-false (capacity v) (wrapping_sub t c.head) le)

-- The branches of the two calls behind their guard.
abbrev pub push_branch : Producer → RingView → List ℕ → ℕ → Checked ℕ × Producer × RingView
push_branch p v src n = if n == 0 then (ok 0, p, v) else (
  ok n,
  record { tail = wrapping_add p.tail n },
  record v { bytes = store_bytes (mask v) p.tail 0 n src v.bytes; tail = wrapping_add p.tail n },
)

pub push_ok :
    (p : Producer) (v : RingView) (src : List ℕ) (u : ℕ)
    → used p v v.head ≡ ok u
    → push p v src ≡ push_branch p v src (min (capacity v - u) (length src))
unfolding push store_bytes
push_ok p v src u e = rw (e, push) refl

abbrev pub pop_branch : Consumer → RingView → ℕ → Checked (List ℕ) × Consumer × RingView
pop_branch c v n = if n == 0 then (ok [], c, v) else (
  ok (load_bytes (mask v) c.head 0 n v.bytes),
  record { head = wrapping_add c.head n },
  record v { head = wrapping_add c.head n },
)

pub pop_ok :
    (c : Consumer) (v : RingView) (room a : ℕ)
    → available c v v.tail ≡ ok a
    → pop c v room ≡ pop_branch c v (min a room)
unfolding pop load_bytes
pop_ok c v room a e = rw (e, pop) refl

pub if_zero : {A : Type 0} (n : ℕ) (x y : A) → n ≡ 0 → (if n == 0 then x else y) ≡ x
if_zero n x y e = ground arith

pub if_pos : {A : Type 0} (n : ℕ) (x y : A) → n ≢ 0 → (if n == 0 then x else y) ≡ y
if_pos n x y e = ground arith

-- The first part of a list is what `take` gives, as long as it is all that was asked for or all there is.
take_front :
    (room : ℕ) (a b : List ℕ) → length a ≡ min (length a + length b) room → take room (a ++ b) ≡ a
take_front zero [] b e = refl
take_front (suc room) [] [] e = refl
take_front (suc room) [] (y ∷ b) e = absurd (omega arith)
take_front zero (x ∷ a) b e = absurd (omega arith)
take_front (suc room) (x ∷ a) b e = ap (λ t. x ∷ t) (take_front room a b (omega arith))

drop_front :
    (room : ℕ) (a b : List ℕ) → length a ≡ min (length a + length b) room → drop room (a ++ b) ≡ b
drop_front zero [] b e = refl
drop_front (suc room) [] [] e = refl
drop_front (suc room) [] (y ∷ b) e = absurd (omega arith)
drop_front zero (x ∷ a) b e = absurd (omega arith)
drop_front (suc room) (x ∷ a) b e = drop_front room a b (omega arith)

pub length-load_bytes : (m h i n : ℕ) (bytes : List ℕ) → length (load_bytes m h i n bytes) ≡ n
unfolding load_bytes
length-load_bytes m h i zero bytes = refl
length-load_bytes m h i (suc n) bytes = ap suc (length-load_bytes m h (i + 1) n bytes)

module _ {k : ℕ} {p : Producer} {c : Consumer} {v : RingView} (r : IsRing k p c v) where
  used_lem : used p v v.head ≡ ok (filled p c)
  used_lem =
      ap (used p v) r.head_published ∙ used_within p v c.head (omega (arith, r.fits, r.storage))

  available_lem : available c v v.tail ≡ ok (filled p c)
  available_lem =
      ap (available c v) r.tail_published
      ∙ available_within c v p.tail (omega (arith, r.fits, r.storage))

  length-contents : length (contents p c v) ≡ filled p c
  length-contents = length-window (capacity v) v.bytes c.head (filled p c)

  pushed :
      (src : List ℕ) (n : ℕ)
      → n ≡ accepted (2 ^ k) (contents p c v) src
      → Pushes k c (contents p c v) src (push_branch p v src n)
  pushed src n e = elim (ℕ_discrete n 0) [
    | yes z ↦ subst (Pushes k c (contents p c v) src) (sym (if_zero n _ _ z)) (
      ap ok (sym z ∙ e),
      r,
      sym (append-nil (contents p c v)) ∙ ap (λ m. contents p c v ++ take m src) (sym z ∙ e),
    )
    | no nz ↦ subst (Pushes k c (contents p c v) src) (sym (if_pos n _ _ nz)) (
      ap ok e,
      pushed-IsRing r n src (omega arith) (omega (arith, length-contents, r.fits)),
      pushed_contents r n src (omega arith) (omega (arith, length-contents, r.fits))
          ∙ ap (λ m. contents p c v ++ take m src) e,
    )
  ]

  -- A push to an uncorrupted ring takes as many bytes as fit, in order, behind those that wait,
  -- returns their number and leaves an uncorrupted ring.
  pub push-enqueue : (src : List ℕ) → Pushes k c (contents p c v) src (push p v src)
  push-enqueue src =
      subst (Pushes k c (contents p c v) src) (sym (push_ok p v src (filled p c) used_lem))
        (pushed src _ (omega (arith, length-contents, r.storage)))

  -- What stands in the ring, when `n` bytes of it are taken off.
  taken : (n : ℕ) → List ℕ
  taken n = load_bytes (mask v) c.head 0 n v.bytes

  left : (n : ℕ) → List ℕ
  left n =
      contents p (record { head = wrapping_add c.head n })
        (record v { head = wrapping_add c.head n })

  taken_lem :
      (room n : ℕ)
      → n ≡ min (filled p c) room
      → length (taken n) ≡ min (length (taken n) + length (left n)) room
  unfolding taken left
  taken_lem room n e = omega (
    arith,
    length-load_bytes (mask v) c.head 0 n v.bytes,
    length-append (taken n) (left n),
    ap length (popped_contents r n (omega arith)),
    length-contents,
  )

  popped :
      (room n : ℕ) → n ≡ min (filled p c) room → Pops k p (contents p c v) room (pop_branch c v n)
  unfolding taken left
  popped room n e = elim (ℕ_discrete n 0) [
    | yes z ↦ subst (Pops k p (contents p c v) room) (sym (if_zero n _ _ z)) (
      ap ok (sym (take_front room [] (contents p c v) (omega (arith, length-contents)))),
      r,
      sym (drop_front room [] (contents p c v) (omega (arith, length-contents))),
    )
    | no nz ↦ subst (Pops k p (contents p c v) room) (sym (if_pos n _ _ nz)) (
      ap ok (
          sym (take_front room (taken n) (left n) (taken_lem room n e))
          ∙ ap (take room) (popped_contents r n (omega arith))),
      popped-IsRing r n (omega arith),
      sym (drop_front room (taken n) (left n) (taken_lem room n e))
          ∙ ap (drop room) (popped_contents r n (omega arith)),
    )
  ]

  -- A pop from an uncorrupted ring gives the oldest bytes in order, as many as wait and the caller has
  -- room for, and leaves an uncorrupted ring that holds the others.
  pub pop-dequeue : (room : ℕ) → Pops k p (contents p c v) room (pop c v room)
  pop-dequeue room =
      subst (Pops k p (contents p c v) room) (sym (pop_ok c v room (filled p c) available_lem))
        (popped room _ refl)
