-- ===== src/Resp/Crates.antt =====
-- What the codec takes from the crates `memchr` and `itoa`: byte searches, and decimal formatting.
-- Their documented results are the fields that end in `_lem`.
use ratatosk.Prelude.{
  ℕ, suc, ◌≡◌, refl, Bool, ◌||◌, Option, none, some, List, [], ◌∷◌, if◌then◌else◌, ◌==◌,
}
use ratatosk.Prelude.Int.{ℤ}
use ratatosk.Prelude.Decimal.{decimal_ℤ}

abbrev pub next : Option ℕ → Option ℕ
next none = none
next (some i) = some (suc i)

-- `Iterator::position`
unfoldable pub position : (ℕ → Bool) → List ℕ → Option ℕ
position p [] = none
position p (x ∷ xs) = if p x then some 0 else next (position p xs)

pub record Crates : Type 0 where
  pub memchr : ℕ → List ℕ → Option ℕ
  pub memchr2 : ℕ → ℕ → List ℕ → Option ℕ
  pub format : ℤ → List ℕ
  pub memchr_lem : (c : ℕ) (xs : List ℕ) → memchr c xs ≡ position (λ b. b == c) xs
  pub memchr2_lem : (c d : ℕ) (xs : List ℕ) → memchr2 c d xs ≡ position (λ b. b == c || b == d) xs
  pub format_lem : (z : ℤ) → format z ≡ decimal_ℤ z

-- Functions that do what the crates document.
unfoldable pub plain_crates : Crates
unfolding position decimal_ℤ
plain_crates = record {
  memchr = λ c. position (λ b. b == c);
  memchr2 = λ c d. position (λ b. b == c || b == d);
  format = decimal_ℤ;
  memchr_lem = λ c xs. refl;
  memchr2_lem = λ c d xs. refl;
  format_lem = λ z. refl;
}
