-- ===== src/Prelude/Decimal.antt =====
-- Decimal text: what Rust's `to_string` writes for an integer, and what `str::parse::<i64>` reads.
use ratatosk.Prelude.{
  ℕ, zero, suc, ◌+◌, ◌-◌, ◌*◌, ◌/◌, ◌%◌, ◌^◌, ◌≤◌, ◌<◌, ◌≡◌, ◌∙◌, ap, Bool, true, ◌&&◌, Option,
  none, some, List, [], ◌∷◌, ◌++◌, arith, ltb, leb, if◌then◌else◌, length, length-append,
  Bool-cases, inl, inr, ◌==◌,
}
use ratatosk.Prelude.Int.{ℤ, pos, negsuc}

-- The digits of `n`, at least one; `fuel` beyond `n` is enough.
unfoldable pub decimal_fuel : ℕ → ℕ → List ℕ
decimal_fuel zero n = []
decimal_fuel (suc fuel) n =
    let rest = decimal_fuel fuel (n / 10) in
    if ltb n 10 then (n + 48) ∷ [] else rest ++ ((n % 10 + 48) ∷ [])

unfoldable pub decimal : ℕ → List ℕ
unfolding decimal_fuel
decimal n = decimal_fuel (suc n) n

unfoldable pub decimal_ℤ : ℤ → List ℕ
unfolding decimal
decimal_ℤ (pos n) = decimal n
decimal_ℤ (negsuc n) = b'-' ∷ decimal (suc n)

abbrev pub is_digit : ℕ → Bool
is_digit c = leb 48 c && leb c 57

abbrev pub negate : ℕ → ℤ
negate zero = pos 0
negate (suc n) = negsuc n

abbrev pub IsI64 : ℤ → Type 0
IsI64 (pos n) = n < 2 ^ 63
IsI64 (negsuc n) = n < 2 ^ 63

unfoldable pub digits_value : ℕ → List ℕ → Option ℕ
digits_value acc [] = some acc
digits_value acc (c ∷ cs) =
    let rest = digits_value (acc * 10 + (c - 48)) cs in if is_digit c then rest else none

abbrev pub at_least_one : List ℕ → Option ℕ
at_least_one [] = none
at_least_one (c ∷ cs) = digits_value 0 (c ∷ cs)

abbrev pub positive : Option ℕ → Option ℤ
positive none = none
positive (some n) = if ltb n (2 ^ 63) then some (pos n) else none

abbrev pub negative : Option ℕ → Option ℤ
negative none = none
negative (some n) = if leb n (2 ^ 63) then some (negate n) else none

-- An optional sign, one digit or more, and a value in the range of an `i64`.
unfoldable pub i64_from_str : List ℕ → Option ℤ
unfolding digits_value
i64_from_str [] = none
i64_from_str (c ∷ cs) =
    if c == b'-'
    then negative (at_least_one cs)
    else if c == b'+'
    then positive (at_least_one cs)
    else positive (digits_value 0 (c ∷ cs))

digits_value-snoc :
    (xs : List ℕ) (acc c v : ℕ)
    → digits_value acc xs ≡ some v
    → is_digit c ≡ true
    → digits_value acc (xs ++ (c ∷ [])) ≡ some (v * 10 + (c - 48))
unfolding digits_value
digits_value-snoc [] acc c v h d = ground arith
digits_value-snoc (x ∷ xs) acc c v h d =
    ground (arith, digits_value-snoc xs (acc * 10 + (x - 48)) c v)

digits_value-decimal_fuel : (fuel n : ℕ) → n < fuel → digits_value 0 (decimal_fuel fuel n) ≡ some n
unfolding decimal_fuel
digits_value-decimal_fuel zero n h = elim h [ ]
digits_value-decimal_fuel (suc fuel) n h = elim (Bool-cases (ltb n 10)) [
  | inl small ↦ rw small (unfold digits_value in ground arith)
  | inr big ↦ rw big (
      digits_value-snoc (decimal_fuel fuel (n / 10)) 0 (n % 10 + 48) (n / 10)
        (digits_value-decimal_fuel fuel (n / 10) (ground arith)) (ground arith)
      ∙ ap some (omega arith))
]

pub digits_value-decimal : (n : ℕ) → digits_value 0 (decimal n) ≡ some n
unfolding decimal
digits_value-decimal n = digits_value-decimal_fuel (suc n) n (omega arith)

abbrev pub AllDigits : List ℕ → Type 0
AllDigits [] = Unit
AllDigits (c ∷ cs) = (48 ≤ c) × (c ≤ 57) × AllDigits cs

AllDigits-snoc : (xs : List ℕ) (c : ℕ) → AllDigits xs → 48 ≤ c → c ≤ 57 → AllDigits (xs ++ (c ∷ []))
AllDigits-snoc [] c h lo hi = (lo, hi, tt)
AllDigits-snoc (x ∷ xs) c h lo hi = (h.0, h.1, AllDigits-snoc xs c h.2 lo hi)

decimal_fuel-AllDigits : (fuel n : ℕ) → AllDigits (decimal_fuel fuel n)
unfolding decimal_fuel
decimal_fuel-AllDigits zero n = tt
decimal_fuel-AllDigits (suc fuel) n = elim (Bool-cases (ltb n 10)) [
  | inl small ↦ rw small (ground arith, ground arith, tt)
  | inr big ↦ rw big (
      AllDigits-snoc (decimal_fuel fuel (n / 10)) (n % 10 + 48)
        (decimal_fuel-AllDigits fuel (n / 10)) (omega arith) (omega arith))
]

pub decimal-AllDigits : (n : ℕ) → AllDigits (decimal n)
unfolding decimal
decimal-AllDigits n = decimal_fuel-AllDigits (suc n) n

pub decimal_fuel-ne-nil : (fuel n : ℕ) → 0 < length (decimal_fuel (suc fuel) n)
unfolding decimal_fuel
decimal_fuel-ne-nil fuel n =
    ground (arith, length-append (decimal_fuel fuel (n / 10)) ((n % 10 + 48) ∷ []))

pub decimal-ne-nil : (n : ℕ) → 0 < length (decimal n)
unfolding decimal
decimal-ne-nil n = decimal_fuel-ne-nil n n

-- A text of digits alone is read without its sign branches.
digits_first :
    (xs : List ℕ) {n : ℕ}
    → AllDigits xs
    → 0 < length xs
    → digits_value 0 xs ≡ some n
    → (i64_from_str xs ≡ positive (some n)) × (i64_from_str (b'-' ∷ xs) ≡ negative (some n))
unfolding i64_from_str
digits_first [] d p h = absurd (omega arith)
digits_first (x ∷ xs) {n} d p h = (plain ∙ ap positive h, ap negative h)
  where
    plain : i64_from_str (x ∷ xs) ≡ positive (digits_value 0 (x ∷ xs))
    plain = ground arith

-- `parse::<i64>` reads back what `to_string` wrote for an `i64`.
pub i64_from_str-decimal_ℤ : (z : ℤ) → IsI64 z → i64_from_str (decimal_ℤ z) ≡ some z
unfolding decimal_ℤ
i64_from_str-decimal_ℤ (pos n) h =
    (digits_first (decimal n) (decimal-AllDigits n) (decimal-ne-nil n) (digits_value-decimal n)).0
    ∙ ground arith
i64_from_str-decimal_ℤ (negsuc n) h =
    (digits_first (decimal (suc n)) (decimal-AllDigits (suc n)) (decimal-ne-nil (suc n))
      (digits_value-decimal (suc n))).1
    ∙ ground arith

positive-IsI64 : (o : Option ℕ) (z : ℤ) → positive o ≡ some z → IsI64 z
positive-IsI64 none z h = absurd (ground (arith, h))
positive-IsI64 (some n) (pos m) h = ground (arith, h)
positive-IsI64 (some n) (negsuc m) h = ground (arith, h)

negative-IsI64 : (o : Option ℕ) (z : ℤ) → negative o ≡ some z → IsI64 z
negative-IsI64 none z h = absurd (ground (arith, h))
negative-IsI64 (some zero) (pos m) h = ground (arith, h)
negative-IsI64 (some zero) (negsuc m) h = ground (arith, h)
negative-IsI64 (some (suc n)) (pos m) h = ground (arith, h)
negative-IsI64 (some (suc n)) (negsuc m) h = ground (arith, h)

-- What is read is a number of 64 bits.
pub i64_from_str-IsI64 : (xs : List ℕ) (z : ℤ) → i64_from_str xs ≡ some z → IsI64 z
unfolding i64_from_str
i64_from_str-IsI64 [] z = λ (h : none ≡ some z). absurd (ground (arith, h))
i64_from_str-IsI64 (c ∷ cs) z = elim (Bool-cases (c == b'-')) [
  | inl m ↦ rw m (negative-IsI64 (at_least_one cs) z)
  | inr m ↦ rw m (elim (Bool-cases (c == b'+')) [
    | inl p ↦ rw p (positive-IsI64 (at_least_one cs) z)
    | inr p ↦ rw p (positive-IsI64 (digits_value 0 (c ∷ cs)) z)
  ])
]
