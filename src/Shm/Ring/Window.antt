-- ===== src/Shm/Ring/Window.antt =====
-- The storage of ring.rs seen from an unbounded index: `window` reads round it, `put` writes round it.
use native.Mathlib.Nat.{mod-lt, mod-eq_of_lt, mod-add-mod, mod-eq-sub-mod}
use ratatosk.Prelude.{
  ℕ, zero, suc, ◌+◌, ◌-◌, ◌%◌, ◌≤◌, ◌<◌, ◌≡◌, ◌≢◌, refl, sym, ap, ap₂, ◌∙◌, List, [], ◌∷◌, ◌++◌,
  arith, length, set, get_or, length-set, dec_lt, append_assoc, append-nil,
}

-- Reads and writes of single bytes.
get_or-set_self : (xs : List ℕ) (i v : ℕ) → i < length xs → get_or (set xs i v) i 0 ≡ v
get_or-set_self [] i v h = elim h [ ]
get_or-set_self (x ∷ xs) zero v h = refl
get_or-set_self (x ∷ xs) (suc i) v h = get_or-set_self xs i v (omega arith)

get_or-set_ne : (xs : List ℕ) (i j v : ℕ) → i ≢ j → get_or (set xs i v) j 0 ≡ get_or xs j 0
get_or-set_ne [] i j v h = refl
get_or-set_ne (x ∷ xs) zero zero v h = absurd (h refl)
get_or-set_ne (x ∷ xs) zero (suc j) v h = refl
get_or-set_ne (x ∷ xs) (suc i) zero v h = refl
get_or-set_ne (x ∷ xs) (suc i) (suc j) v h = get_or-set_ne xs i j v (λ e. h (ap suc e))

-- Fewer than `cap` steps round the storage do not come back.
round_ne : (cap x d : ℕ) → 0 < d → d < cap → (x + d) % cap ≢ x % cap
round_ne cap x d pos small = elim (dec_lt (x % cap + d) cap) [
  | yes p ↦ omega (arith, mod-add-mod x cap d, mod-eq_of_lt p)
  | no p ↦ omega (
    arith,
    mod-add-mod x cap d,
    mod-lt x {m = cap} (omega arith),
    mod-eq-sub-mod {n = x % cap + d} {m = cap} (omega arith),
    mod-eq_of_lt {n = x % cap + d - cap} {m = cap}
        (omega (arith, mod-lt x {m = cap} (omega arith))),
  )
]

module _ (cap : ℕ) where
  unfoldable pub window : List ℕ → ℕ → ℕ → List ℕ
  window bytes h zero = []
  window bytes h (suc n) = get_or bytes (h % cap) 0 ∷ window bytes (h + 1) n

  unfoldable pub put : List ℕ → ℕ → List ℕ → List ℕ
  put bytes s [] = bytes
  put bytes s (b ∷ src) = put (set bytes (s % cap) b) (s + 1) src

  window-snoc :
      (bytes : List ℕ) (h n : ℕ)
      → window bytes h (suc n) ≡ window bytes h n ++ (get_or bytes ((h + n) % cap) 0 ∷ [])
  unfolding window
  window-snoc bytes h zero = ap (λ k. get_or bytes (k % cap) 0 ∷ []) (omega arith)
  window-snoc bytes h (suc n) =
      ap (λ t. get_or bytes (h % cap) 0 ∷ t)
        (window-snoc bytes (h + 1) n
          ∙ ap (λ k. window bytes (h + 1) n ++ (get_or bytes (k % cap) 0 ∷ [])) (omega arith))

  -- A write that the window does not reach.
  window-set_out :
      (bytes : List ℕ) (b h d n : ℕ)
      → n ≤ d
      → d < cap
      → window (set bytes ((h + d) % cap) b) h n ≡ window bytes h n
  unfolding window
  window-set_out bytes b h d zero le lt = refl
  window-set_out bytes b h zero (suc n) le lt = absurd (omega arith)
  window-set_out bytes b h (suc d) (suc n) le lt =
      ap₂ ◌∷◌
        (get_or-set_ne bytes ((h + suc d) % cap) (h % cap) b
          (round_ne cap h (suc d) (omega arith) lt))
        (ap (λ k. window (set bytes (k % cap) b) (h + 1) n) (omega arith)
          ∙ window-set_out bytes b (h + 1) d n (omega arith) (omega arith))

  pub length-put : (bytes : List ℕ) (s : ℕ) (src : List ℕ) → length (put bytes s src) ≡ length bytes
  unfolding put
  length-put bytes s [] = refl
  length-put bytes s (b ∷ src) =
      length-put (set bytes (s % cap) b) (s + 1) src ∙ length-set bytes (s % cap) b

  -- Writing behind a window of `u` bytes extends it by what is written.
  pub window-put :
      (src bytes : List ℕ) (h u : ℕ)
      → length bytes ≡ cap
      → u + length src ≤ cap
      → window (put bytes (h + u) src) h (u + length src) ≡ window bytes h u ++ src
  unfolding put
  window-put [] bytes h u hl fits =
      ap (window bytes h) (omega arith) ∙ sym (append-nil (window bytes h u))
  window-put (b ∷ src) bytes h u hl fits =
      ap₂ (λ s n. window (put written s src) h n) (omega arith) (omega arith)
      ∙ window-put src written h (suc u) (length-set bytes ((h + u) % cap) b ∙ hl) (omega arith)
      ∙ ap (λ t. t ++ src) extended
      ∙ append_assoc (window bytes h u) (b ∷ []) src
    where
      written : List ℕ
      written = set bytes ((h + u) % cap) b

      extended : window written h (suc u) ≡ window bytes h u ++ (b ∷ [])
      extended =
          window-snoc written h u
          ∙ ap₂ (λ w x. w ++ (x ∷ [])) (window-set_out bytes b h u u (omega arith) (omega arith))
              (get_or-set_self bytes ((h + u) % cap) b
                (omega (arith, mod-lt (h + u) {m = cap} (omega arith))))

  pub window-split :
      (bytes : List ℕ) (h n m : ℕ)
      → window bytes h (n + m) ≡ window bytes h n ++ window bytes (h + n) m
  unfolding window
  window-split bytes h zero m = ap₂ (window bytes) (omega arith) (omega arith)
  window-split bytes h (suc n) m =
      ap (window bytes h) {y = suc (n + m)} (omega arith)
      ∙ ap (λ t. get_or bytes (h % cap) 0 ∷ t)
          (window-split bytes (h + 1) n m
            ∙ ap (λ k. window bytes (h + 1) n ++ window bytes k m) (omega arith))

  pub length-window : (bytes : List ℕ) (h n : ℕ) → length (window bytes h n) ≡ n
  unfolding window
  length-window bytes h zero = refl
  length-window bytes h (suc n) = ap suc (length-window bytes (h + 1) n)

  -- Only the place of the start in the storage matters.
  pub window_round :
      (bytes : List ℕ) (h h' m : ℕ) → h % cap ≡ h' % cap → window bytes h m ≡ window bytes h' m
  unfolding window
  window_round bytes h h' zero e = refl
  window_round bytes h h' (suc m) e = ap₂ ◌∷◌ (ap (λ j. get_or bytes j 0) e) (
      window_round bytes (h + 1) (h' + 1) m
        (sym (mod-add-mod h cap 1) ∙ ap (λ r. (r + 1) % cap) e ∙ mod-add-mod h' cap 1))
