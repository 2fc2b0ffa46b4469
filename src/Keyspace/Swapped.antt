-- ===== src/Keyspace/Swapped.antt =====
-- `swap_dbs` of keyspace.rs, database by database.
use mathlib.Core.Option.{some_inj}
use ratatosk.Prelude.{
  ℕ, zero, suc, ◌≡◌, ◌≢◌, refl, sym, ◌∙◌, false, Option, none, some, List, [], ◌∷◌, set, get_elem?,
  get_elem?-set_ne, arith, ◌==◌,
}
use ratatosk.Keyspace.Shard.{DbShard}
use ratatosk.Keyspace.Guard.{DbWriteGuard}
use ratatosk.Keyspace.Exchange.{took_left, took_right}
use ratatosk.Keyspace.Swap.{TookOver, swap_shards-TookOver}
use ratatosk.Keyspace.State.{DataState, db_mut, guard_of, swap_shards, swapped, swap_dbs}

-- The two databases took each other's values, deadlines and memory counters and kept their
-- registrations; each is what one swap event of a watching client makes of it; the others stayed.
pub record Swapped (left right : ℕ) (g h : DbWriteGuard) (s t : DataState) : Type 0 where
  pub first : db_mut left t ≡ some (took_left h g)
  pub second : db_mut right t ≡ some (took_right g h)
  pub first_took : TookOver (took_left h g).shard g.shard h.shard
  pub second_took : TookOver (took_right g h).shard h.shard g.shard
  pub shards : (i : ℕ) → i ≢ left → i ≢ right → get_elem? t.shards i ≡ get_elem? s.shards i
  pub memory :
      (i : ℕ) → i ≢ left → i ≢ right → get_elem? t.db_memory_bytes i ≡ get_elem? s.db_memory_bytes i
  pub watched : t.watched_keys ≡ s.watched_keys

abbrev pub IsSwap : ℕ → ℕ → DbWriteGuard → DbWriteGuard → DataState → Option DataState → Type 0
IsSwap left right g h s none = ⊥
IsSwap left right g h s (some t) = Swapped left right g h s t

set_there :
    {A : Type 0} (xs : List A) (i : ℕ) (x v : A)
    → get_elem? xs i ≡ some x
    → get_elem? (set xs i v) i ≡ some v
set_there [] i x v h = absurd (ground (arith, h))
set_there (y ∷ xs) zero x v h = refl
set_there (y ∷ xs) (suc i) x v h = set_there xs i x v h

-- Writes of two entries, seen from each side.
set_two :
    {A : Type 0} (xs : List A) (i j : ℕ) (x y v w : A)
    → i ≢ j
    → get_elem? xs i ≡ some x
    → get_elem? xs j ≡ some y
    → (get_elem? (set (set xs i v) j w) i ≡ some v) × (get_elem? (set (set xs i v) j w) j ≡ some w)
set_two xs i j x y v w apart at_i at_j = (
  get_elem?-set_ne (set xs i v) w (λ e. apart (sym e)) ∙ set_there xs i x v at_i,
  set_there (set xs i v) j y w (get_elem?-set_ne xs v apart ∙ at_j),
)

set_others :
    {A : Type 0} (xs : List A) (i j k : ℕ) (v w : A)
    → k ≢ i
    → k ≢ j
    → get_elem? (set (set xs i v) j w) k ≡ get_elem? xs k
set_others xs i j k v w not_i not_j =
    get_elem?-set_ne (set xs i v) w (λ e. not_j (sym e))
    ∙ get_elem?-set_ne xs v (λ e. not_i (sym e))

IsSwap-found :
    (left right : ℕ) (s : DataState) (dl dr : DbShard) (bl br : ℕ)
    → left ≢ right
    → get_elem? s.shards left ≡ some dl
    → get_elem? s.shards right ≡ some dr
    → get_elem? s.db_memory_bytes left ≡ some bl
    → get_elem? s.db_memory_bytes right ≡ some br
    → IsSwap left right
        (record { shard = dl; memory = bl; next_key_version = s.next_key_version })
        (record { shard = dr; memory = br; next_key_version = s.next_key_version })
        s
        (swapped left right s
          (guard_of s.next_key_version (some dl) (some bl))
          (guard_of s.next_key_version (some dr) (some br)))
unfolding db_mut
IsSwap-found left right s dl dr bl br apart at_l at_r mem_l mem_r =
    let r = swap_shards s.next_key_version dl dr in
    let d = set_two s.shards left right dl dr r.1 r.2 apart at_l at_r in
    let m = set_two s.db_memory_bytes left right bl br br bl apart mem_l mem_r in
    record {
      first = rw (d.0, m.0) refl;
      second = rw (d.1, m.1) refl;
      first_took = (swap_shards-TookOver s.next_key_version dl dr).0;
      second_took = (swap_shards-TookOver s.next_key_version dl dr).1;
      shards =
          λ (i : ℕ) (a : i ≢ left) (b : i ≢ right). set_others s.shards left right i r.1 r.2 a b;
      memory = λ (i : ℕ) (a : i ≢ left) (b : i ≢ right).
          set_others s.db_memory_bytes left right i br bl a b;
      watched = refl;
    }

IsSwap-at :
    (left right : ℕ) (g h : DbWriteGuard) (s : DataState) (ol or : Option DbShard)
    (ml mr : Option ℕ)
    → left ≢ right
    → get_elem? s.shards left ≡ ol
    → get_elem? s.shards right ≡ or
    → get_elem? s.db_memory_bytes left ≡ ml
    → get_elem? s.db_memory_bytes right ≡ mr
    → guard_of s.next_key_version ol ml ≡ some g
    → guard_of s.next_key_version or mr ≡ some h
    → IsSwap left right g h s (
        swapped left right s
          (guard_of s.next_key_version ol ml)
          (guard_of s.next_key_version or mr))
IsSwap-at left right g h s none or ml mr apart a b c d is_g is_h = absurd (ground (arith, is_g))
IsSwap-at left right g h s (some dl) or none mr apart a b c d is_g is_h =
    absurd (ground (arith, is_g))
IsSwap-at left right g h s (some dl) none (some bl) mr apart a b c d is_g is_h =
    absurd (ground (arith, is_h))
IsSwap-at left right g h s (some dl) (some dr) (some bl) none apart a b c d is_g is_h =
    absurd (ground (arith, is_h))
IsSwap-at left right g h s (some dl) (some dr) (some bl) (some br) apart a b c d is_g is_h =
    rw (sym (some_inj.0 is_g), sym (some_inj.0 is_h))
      (IsSwap-found left right s dl dr bl br apart a b c d)

-- Of two different databases that exist, `swap_dbs` gives each the values, deadlines and memory counter
-- of the other, and leaves each its registrations; what it makes of each, with its versions, is the
-- swap event that a watching client sees. Other databases and `watched_keys` stay.
pub swap_dbs-IsSwap :
    (left right : ℕ) (g h : DbWriteGuard) (s : DataState)
    → left ≢ right
    → db_mut left s ≡ some g
    → db_mut right s ≡ some h
    → IsSwap left right g h s (swap_dbs left right s)
unfolding swap_dbs db_mut
swap_dbs-IsSwap left right g h s apart is_g is_h =
    let other : (left == right) ≡ false = ground (arith, apart) in
    rw other (
      IsSwap-at left right g h s (get_elem? s.shards left) (get_elem? s.shards right)
        (get_elem? s.db_memory_bytes left) (get_elem? s.db_memory_bytes right) apart refl refl refl
        refl is_g is_h)
