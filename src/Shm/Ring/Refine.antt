-- ===== src/Shm/Ring/Refine.antt =====
-- The ring of crates/ratatosk-shm/src/ring.rs behaves as a bounded queue of bytes.
use Prim.Native.Nat.{bit_and, ◌∣◌}
use native.Mathlib.Nat.{
  mod-eq_of_lt, mod-add-mod, mod-mod_of_dvd, pow-suc, pow-le-pow_right, dvd-mul_right, mul-one,
}
use mathlib.Core.Path.{subst}
use ratatosk.Prelude.{
  ℕ, zero, suc, ◌+◌, ◌-◌, ◌*◌, ◌%◌, ◌^◌, ◌≤◌, ◌<◌, ◌≡◌, refl, sym, ap, ap₂, ◌∙◌, List, [], ◌∷◌,
  ◌++◌, arith, length, set, get_or, take, length-take,
}
use ratatosk.Shm.Ring.{
  u64_mod, wrapping_add, wrapping_sub, RingView, capacity, mask, Producer, Consumer, store_bytes,
  load_bytes,
}
use ratatosk.Shm.Ring.Mask.{bit_and-mask}
use ratatosk.Shm.Ring.Window.{window, put, window-put, window-split, length-put, window_round}

pow_split : (k d : ℕ) → 2 ^ (k + d) ≡ 2 ^ k * 2 ^ d
pow_split k zero = ap (λ n. 2 ^ n) (omega arith) ∙ sym (mul-one (2 ^ k))
pow_split k (suc d) =
    ap (λ n. 2 ^ n) (omega arith)
    ∙ pow-suc 2 (k + d)
    ∙ omega (arith, ap (λ (t : ℕ). t * 2) (pow_split k d), ap (λ (t : ℕ). 2 ^ k * t) (pow-suc 2 d))

pow_dvd : (k : ℕ) → k ≤ 64 → 2 ^ k ∣ u64_mod
pow_dvd k h =
    let e : 2 ^ k * 2 ^ (64 - k) ≡ u64_mod =
      sym (pow_split k (64 - k)) ∙ ap (λ n. 2 ^ n) {y = 64} (omega arith) in
    subst (λ t. 2 ^ k ∣ t) e (dvd-mul_right (2 ^ k) (2 ^ (64 - k)))

-- A masked, wrapped index is the unbounded one round the capacity.
masked :
    (k h t i : ℕ)
    → k ≤ 64
    → t ≡ h % u64_mod
    → bit_and (wrapping_add t i) (2 ^ k - 1) ≡ (h + i) % 2 ^ k
masked k h t i le e =
    bit_and-mask k (wrapping_add t i)
    ∙ ap (λ x. (x + i) % u64_mod % 2 ^ k) e
    ∙ ap (λ x. x % 2 ^ k) (mod-add-mod h u64_mod i)
    ∙ mod-mod_of_dvd (2 ^ k) (h + i) (pow_dvd k le)

module _ (k : ℕ) (small : k ≤ 64) where
  load_bytes-window :
      (h t i n : ℕ) (bytes : List ℕ)
      → t ≡ h % u64_mod
      → load_bytes (2 ^ k - 1) t i n bytes ≡ window (2 ^ k) bytes (h + i) n
  unfolding load_bytes window
  load_bytes-window h t i zero bytes e = refl
  load_bytes-window h t i (suc n) bytes e =
      ap₂ ◌∷◌ (ap (λ j. get_or bytes j 0) (masked k h t i small e))
        (load_bytes-window h t (i + 1) n bytes e ∙ ap (λ j. window (2 ^ k) bytes j n) (omega arith))

  store_bytes-put :
      (h t i n : ℕ) (src bytes : List ℕ)
      → t ≡ h % u64_mod
      → store_bytes (2 ^ k - 1) t i n src bytes ≡ put (2 ^ k) bytes (h + i) (take n src)
  unfolding store_bytes put
  store_bytes-put h t i zero src bytes e = refl
  store_bytes-put h t i (suc n) [] bytes e = refl
  store_bytes-put h t i (suc n) (b ∷ src) bytes e =
      store_bytes-put h t (i + 1) n src _ e
      ∙ ap₂ (λ j s. put (2 ^ k) (set bytes j b) s (take n src)) (masked k h t i small e)
          (omega arith)

-- The ring between calls, with capacity `2 ^ k`: the published indices are the private ones, and no
-- more bytes stand between them than fit.
pub record IsRing (k : ℕ) (p : Producer) (c : Consumer) (v : RingView) : Type 0 where
  pub small : k ≤ 63
  pub storage : length v.bytes ≡ 2 ^ k
  pub tail_in : p.tail < u64_mod
  pub head_in : c.head < u64_mod
  pub tail_published : v.tail ≡ p.tail
  pub head_published : v.head ≡ c.head
  pub fits : wrapping_sub p.tail c.head ≤ 2 ^ k

abbrev pub filled : Producer → Consumer → ℕ
filled p c = wrapping_sub p.tail c.head

-- The bytes that are in the ring, oldest first.
abbrev pub contents : Producer → Consumer → RingView → List ℕ
contents p c v = window (capacity v) v.bytes c.head (filled p c)

tail_lem : (t h : ℕ) → t < u64_mod → h < u64_mod → t ≡ (h + wrapping_sub t h) % u64_mod
tail_lem t h ht hh = omega arith

pow_bound : (k : ℕ) → k ≤ 63 → 2 ^ k ≤ 2 ^ 63
pow_bound k h = pow-le-pow_right {n = 2} (omega arith) h

module _ {k : ℕ} {p : Producer} {c : Consumer} {v : RingView} (r : IsRing k p c v) where
  private_small : k ≤ 64
  private_small = omega (arith, r.small)

  below_half : 2 ^ k ≤ 2 ^ 63
  below_half = pow_bound k r.small

  module _ (n : ℕ) (src : List ℕ) (le : n ≤ length src) (fits : filled p c + n ≤ 2 ^ k) where
    abbrev pub stored : List ℕ
    stored = store_bytes (mask v) p.tail 0 n src v.bytes

    stored_lem : stored ≡ put (2 ^ k) v.bytes (c.head + filled p c) (take n src)
    stored_lem =
        ap (λ l. store_bytes (l - 1) p.tail 0 n src v.bytes) r.storage
        ∙ store_bytes-put k private_small (c.head + filled p c) p.tail 0 n src v.bytes
            (tail_lem p.tail c.head r.tail_in r.head_in)
        ∙ ap (λ j. put (2 ^ k) v.bytes j (take n src)) (omega arith)

    storage_kept : length stored ≡ 2 ^ k
    storage_kept = ap length stored_lem ∙ length-put (2 ^ k) v.bytes _ (take n src) ∙ r.storage

    filled_lem : wrapping_sub (wrapping_add p.tail n) c.head ≡ filled p c + n
    filled_lem = omega (arith, r.tail_in, r.head_in, fits, below_half)

    pub pushed-IsRing :
        IsRing k
          (record { tail = wrapping_add p.tail n })
          c
          (record v { bytes = stored; tail = wrapping_add p.tail n })
    pushed-IsRing = record {
      small = r.small;
      storage = storage_kept;
      tail_in = omega arith;
      head_in = r.head_in;
      tail_published = refl;
      head_published = r.head_published;
      fits = rw filled_lem fits;
    }

    pub pushed_contents :
        contents
          (record { tail = wrapping_add p.tail n })
          c
          (record v { bytes = stored; tail = wrapping_add p.tail n })
        ≡ contents p c v ++ take n src
    pushed_contents =
        ap₂ (λ l f. window l stored c.head f) storage_kept filled_lem
        ∙ ap₂ (λ b m. window (2 ^ k) b c.head (filled p c + m)) stored_lem
            (omega (arith, length-take n src))
        ∙ window-put (2 ^ k) (take n src) v.bytes c.head (filled p c) r.storage
            (omega (arith, length-take n src))
        ∙ ap (λ l. window l v.bytes c.head (filled p c) ++ take n src) (sym r.storage)

  module _ (n : ℕ) (le : n ≤ filled p c) where
    left_lem : wrapping_sub p.tail (wrapping_add c.head n) ≡ filled p c - n
    left_lem = omega (arith, r.tail_in, r.head_in, r.fits, below_half)

    pub popped-IsRing :
        IsRing k p
          (record { head = wrapping_add c.head n })
          (record v { head = wrapping_add c.head n })
    popped-IsRing = record {
      small = r.small;
      storage = r.storage;
      tail_in = r.tail_in;
      head_in = omega arith;
      tail_published = r.tail_published;
      head_published = refl;
      fits = rw left_lem (omega (arith, r.fits));
    }

    loaded : load_bytes (mask v) c.head 0 n v.bytes ≡ window (2 ^ k) v.bytes c.head n
    loaded =
        ap (λ l. load_bytes (l - 1) c.head 0 n v.bytes) r.storage
        ∙ load_bytes-window k private_small c.head c.head 0 n v.bytes (sym (mod-eq_of_lt r.head_in))
        ∙ ap (λ j. window (2 ^ k) v.bytes j n) (omega arith)

    window_wrap :
        (m : ℕ)
        → window (2 ^ k) v.bytes (wrapping_add c.head n) m ≡ window (2 ^ k) v.bytes (c.head + n) m
    window_wrap m =
        window_round (2 ^ k) v.bytes (wrapping_add c.head n) (c.head + n) m
          (mod-mod_of_dvd (2 ^ k) (c.head + n) (pow_dvd k private_small))

    pub popped_contents :
        load_bytes (mask v) c.head 0 n v.bytes
          ++ contents p
              (record { head = wrapping_add c.head n })
              (record v { head = wrapping_add c.head n })
        ≡ contents p c v
    popped_contents =
        ap₂ (λ a b. a ++ b) loaded
          (ap₂ (λ l f. window l v.bytes (wrapping_add c.head n) f) r.storage left_lem
            ∙ window_wrap (filled p c - n))
        ∙ sym (window-split (2 ^ k) v.bytes c.head n (filled p c - n))
        ∙ ap₂ (λ l f. window l v.bytes c.head f) (sym r.storage) (omega arith)
