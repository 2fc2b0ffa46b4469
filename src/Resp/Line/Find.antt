-- ===== src/Resp/Line/Find.antt =====
-- `find_crlf` of crates/ratatosk-resp/src/parse.rs finds the first CRLF from an index on.
use ratatosk.Prelude.{
  nil_of_length, ℕ, zero, suc, ◌+◌, ◌-◌, ◌<◌, ◌≡◌, refl, sym, ap, ◌∙◌, Bool, true, false, Option,
  none, some, List, [], ◌∷◌, if◌then◌else◌, leb, ◌==◌, length, drop, get_or, arith, Bool-cases,
  Option-cases, inl, inr, length-drop, drop-drop, get_or-drop,
}
use ratatosk.Resp.Crates.{Crates, position, next}
use ratatosk.Resp.Encode.{cr, lf}
use ratatosk.Resp.Line.{find_crlf_loop, find_crlf}

abbrev starts_lf : List ℕ → Bool
starts_lf [] = false
starts_lf (b ∷ bs) = b == lf

-- Where the first CR that an LF follows stands.
unfoldable pub crlf_position : List ℕ → Option ℕ
crlf_position [] = none
crlf_position (b ∷ bs) =
    if b == cr
    then (if starts_lf bs then some 0 else next (crlf_position bs))
    else next (crlf_position bs)

abbrev pub shift : ℕ → Option ℕ → Option ℕ
shift n none = none
shift n (some i) = some (n + i)

no_cr : (xs : List ℕ) → position (λ b. b == cr) xs ≡ none → crlf_position xs ≡ none
unfolding position crlf_position
no_cr [] h = refl
no_cr (b ∷ bs) h = ground (arith, no_cr bs)

next-shift : (n : ℕ) (o : Option ℕ) → next (shift n o) ≡ shift (suc n) o
next-shift n none = refl
next-shift n (some i) = ap some (omega arith)

next-shift_one : (o : Option ℕ) → next o ≡ shift 1 o
next-shift_one none = refl
next-shift_one (some i) = ap some (omega arith)

shift-shift : (n m : ℕ) (o : Option ℕ) → shift n (shift m o) ≡ shift (n + m) o
shift-shift n m none = refl
shift-shift n m (some i) = ap some (omega arith)

-- A CR stands at `rel`, and the search for the pair goes on behind it.
abbrev AtCr : List ℕ → ℕ → Type 0
AtCr xs rel =
    (rel < length xs)
    × (crlf_position xs ≡ (
        if starts_lf (drop (suc rel) xs)
        then some rel
        else shift (suc rel) (crlf_position (drop (suc rel) xs))))

next-if :
    (t : Bool) (n : ℕ) (o : Option ℕ)
    → next (if t then some n else shift (suc n) o)
      ≡ (if t then some (suc n) else shift (suc (suc n)) o)
next-if true n o = refl
next-if false n o = next-shift (suc n) o

at_later_cr :
    (b : ℕ) (bs : List ℕ) (rel : ℕ) → (b == cr) ≡ false → AtCr bs rel → AtCr (b ∷ bs) (suc rel)
unfolding crlf_position
at_later_cr b bs rel e (lt, h) =
    (omega (arith, lt), rw (e, h) (next-if (starts_lf (drop (suc rel) bs)) rel _))

-- The first CR is at `rel`: either an LF follows it, or the search goes on behind it.
at_cr : (xs : List ℕ) (rel : ℕ) → position (λ b. b == cr) xs ≡ some rel → AtCr xs rel
unfolding position crlf_position
at_cr [] rel h = cc
at_cr (b ∷ bs) zero h = elim (Bool-cases (b == cr)) [
  | inl e ↦ (omega arith, rw (e, next-shift_one) refl)
  | inr e ↦ absurd (elim (Option-cases (position (λ x. x == cr) bs)) [
    | inl o ↦ ground arith
    | inr (i, o) ↦ ground arith
  ])
]
at_cr (b ∷ bs) (suc rel) h = elim (Bool-cases (b == cr)) [
  | inl e ↦ absurd (ground arith)
  | inr e ↦ at_later_cr b bs rel e (at_cr bs rel (ground arith))
]

-- What a round does behind a CR at `rel`, where `u` is the input from there on.
round_lem :
    (input u : List ℕ) (s rel : ℕ) (loop : Option ℕ)
    → length u ≡ length input - (s + rel + 1)
    → get_or input (s + rel + 1) 0 ≡ get_or u 0 0
    → loop ≡ shift (s + rel + 1) (crlf_position u)
    → (if leb (length input) (s + rel + 1)
        then none
        else if get_or input (s + rel + 1) 0 == lf
        then some (s + rel)
        else loop)
      ≡ shift s (if starts_lf u then some rel else shift (suc rel) (crlf_position u))
unfolding crlf_position
round_lem input [] s rel loop hl hg h = ground arith
round_lem input (x ∷ xs) s rel loop hl hg h = elim (Bool-cases (x == lf)) [
  | inl e ↦ rw (hg, e) (ground arith)
  | inr e ↦ rw (hg, e, h, shift-shift) (ground (arith, add_one_right s rel))
]
  where
    add_one_right : (a b : ℕ) → a + suc b ≡ a + b + 1
    add_one_right a b = omega arith

module _ (c : Crates) where
  find_crlf_loop_lem :
      (fuel : ℕ) (input : List ℕ) (s : ℕ)
      → length input < s + fuel
      → find_crlf_loop c fuel input s ≡ shift s (crlf_position (drop s input))
  unfolding find_crlf_loop
  find_crlf_loop_lem zero input s h =
      rw (nil_of_length (drop s input) (omega (arith, length-drop s input)))
        (unfold crlf_position in refl)
  find_crlf_loop_lem (suc fuel) input s h = elim (Option-cases (c.memchr cr (drop s input))) [
    | inl e ↦
        rw (e, find_crlf_loop, no_cr (drop s input) (sym (c.memchr_lem cr (drop s input)) ∙ e)) refl
    | inr (rel, e) ↦
        let there : drop (suc rel) (drop s input) ≡ drop (s + rel + 1) input =
          drop-drop s (suc rel) input ∙ ap (λ k. drop k input) (omega arith) in
        let found = at_cr (drop s input) rel (sym (c.memchr_lem cr (drop s input)) ∙ e) in
        rw (e, find_crlf_loop, found.1, there)
          (round_lem input (drop (s + rel + 1) input) s rel _ (length-drop (s + rel + 1) input)
            (ap (λ k. get_or input k 0) (omega arith) ∙ get_or-drop (s + rel + 1) 0 input 0)
            (find_crlf_loop_lem fuel input (s + rel + 1) (omega arith)))
  ]

  -- `find_crlf` returns the index of the first CR from `idx` on that an LF follows, and nothing where
  -- there is none; its loop never runs out of rounds.
  pub find_crlf_lem :
      (input : List ℕ) (idx : ℕ)
      → find_crlf c input idx ≡ shift idx (crlf_position (drop idx input))
  unfolding find_crlf
  find_crlf_lem input idx = elim (Bool-cases (leb (length input) idx)) [
    | inl e ↦
        rw (e, nil_of_length (drop idx input) (ground (arith, length-drop idx input)))
          (unfold crlf_position in refl)
    | inr e ↦ rw e (find_crlf_loop_lem (suc (length input)) input idx (omega arith))
  ]
