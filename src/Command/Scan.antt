-- ===== src/Command/Scan.antt =====
-- The cursor of SCAN and its kin, `scan_collect_indexes` of command/cmd_key.rs, and a whole iteration.
use ratatosk.Prelude.{
  ℕ, zero, suc, ◌+◌, ◌≤◌, ◌<◌, min, ◌≡◌, refl, sym, ap, ◌∙◌, Bool, false, Option, none, some, List,
  [], ◌∷◌, ◌++◌, length, drop, drop-drop, length-drop, nil_of_length, append-nil, inl, inr,
  Bool-cases, arith, if◌then◌else◌, leb, ◌==◌,
}

not_zero : (n : ℕ) → 0 < n → (n == 0) ≡ false
not_zero n p = ground arith

module _ {T : Type 0} (is_match : T → Bool) where
  -- The loop from index `idx` on, where `rest` stands; `rounds` is `count - scanned`.
  unfoldable pub scan_loop : ℕ → ℕ → List T → ℕ × List ℕ
  scan_loop zero idx rest = (idx, [])
  scan_loop (suc rounds) idx [] = (idx, [])
  scan_loop (suc rounds) idx (x ∷ rest) =
      let r = scan_loop rounds (suc idx) rest in (r.0, if is_match x then idx ∷ r.1 else r.1)

  abbrev next_cursor : List T → ℕ → ℕ
  next_cursor items idx = if leb (length items) idx then 0 else idx

  -- An empty list ends the loop at once, as the early return does.
  unfoldable pub scan_collect_indexes : List T → ℕ → ℕ → ℕ × List ℕ
  unfolding scan_loop
  scan_collect_indexes items cursor count =
      let idx = min cursor (length items) in
      let r = scan_loop count idx (drop idx items) in (next_cursor items r.0, r.1)

  abbrev prepend : List ℕ → Option (List ℕ) → Option (List ℕ)
  prepend xs none = none
  prepend xs (some ys) = some (xs ++ ys)

  -- A client that calls with each cursor it is given, until that is 0; `none` where it is not done
  -- after `calls` calls.
  abbrev pub iterate : ℕ → List T → ℕ → ℕ → Option (List ℕ)
  iterate zero items count cursor = none
  iterate (suc calls) items count cursor =
      let r = scan_collect_indexes items cursor count in
      let later = prepend r.1 (iterate calls items count r.0) in
      if r.0 == 0 then some r.1 else later

  -- The indices of the matches from `idx` on.
  abbrev pub matches : ℕ → List T → List ℕ
  matches idx [] = []
  matches idx (x ∷ rest) =
      let later = matches (suc idx) rest in if is_match x then idx ∷ later else later

  -- How many items a call sees.
  abbrev seen : ℕ → List T → ℕ
  seen zero rest = 0
  seen (suc rounds) [] = 0
  seen (suc rounds) (x ∷ rest) = suc (seen rounds rest)

  next-scan_loop :
      (rounds idx : ℕ) (rest : List T) → (scan_loop rounds idx rest).0 ≡ idx + seen rounds rest
  unfolding scan_loop
  next-scan_loop zero idx rest = omega arith
  next-scan_loop (suc rounds) idx [] = omega arith
  next-scan_loop (suc rounds) idx (x ∷ rest) = omega (arith, next-scan_loop rounds (suc idx) rest)

  seen-bound : (rounds : ℕ) (rest : List T) → seen rounds rest ≤ length rest
  seen-bound zero rest = omega arith
  seen-bound (suc rounds) [] = omega arith
  seen-bound (suc rounds) (x ∷ rest) = omega (arith, seen-bound rounds rest)

  progress : (rounds : ℕ) (rest : List T) → 0 < rounds → 0 < length rest → 0 < seen rounds rest
  progress zero rest p q = p
  progress (suc rounds) [] p q = q
  progress (suc rounds) (x ∷ rest) p q = omega arith

  -- The matches of a call, and those behind it, are all matches.
  scan_loop-matches :
      (rounds idx : ℕ) (rest : List T)
      → (scan_loop rounds idx rest).1
          ++ matches (idx + seen rounds rest) (drop (seen rounds rest) rest)
        ≡ matches idx rest
  unfolding scan_loop
  scan_loop-matches zero idx rest = ap (λ (i : ℕ). matches i rest) (omega arith)
  scan_loop-matches (suc rounds) idx [] = refl
  scan_loop-matches (suc rounds) idx (x ∷ rest) =
      let shift : idx + suc (seen rounds rest) ≡ suc idx + seen rounds rest = omega arith in
      let ih =
        ap
          (λ (i : ℕ).
            (scan_loop rounds (suc idx) rest).1 ++ matches i (drop (seen rounds rest) rest))
          shift
        ∙ scan_loop-matches rounds (suc idx) rest in
      elim (Bool-cases (is_match x)) [
        | inl h ↦ rw h (ap (λ (t : List ℕ). idx ∷ t) ih)
        | inr h ↦ rw h ih
      ]

  step : List T → ℕ → ℕ → ℕ × List ℕ
  step items cursor count =
      let rest = drop cursor items in
      (next_cursor items (cursor + seen count rest), (scan_loop count cursor rest).1)

  collect-step :
      (items : List T) (cursor count : ℕ)
      → cursor ≤ length items
      → scan_collect_indexes items cursor count ≡ step items cursor count
  unfolding scan_collect_indexes step
  collect-step items cursor count q =
      ap
        (λ (i : ℕ). (
          next_cursor items (scan_loop count i (drop i items)).0,
          (scan_loop count i (drop i items)).1,
        ))
        (omega (arith, q))
      ∙ ap (λ (n : ℕ). (next_cursor items n, (scan_loop count cursor (drop cursor items)).1))
          (next-scan_loop count cursor (drop cursor items))

  -- The last call, and a call with others behind it.
  last-found :
      (items : List T) (cursor count : ℕ)
      → cursor ≤ length items
      → length items ≤ cursor + seen count (drop cursor items)
      → (scan_loop count cursor (drop cursor items)).1 ≡ matches cursor (drop cursor items)
  last-found items cursor count q far =
      let rest = drop cursor items in
      let none_left =
        nil_of_length (drop (seen count rest) rest)
          (omega (arith, far, q, length-drop (seen count rest) rest, length-drop cursor items)) in
      sym (append-nil (scan_loop count cursor rest).1)
      ∙ ap (λ (t : List T). (scan_loop count cursor rest).1 ++ matches (cursor + seen count rest) t)
          (sym none_left)
      ∙ scan_loop-matches count cursor rest

  later-found :
      (items : List T) (cursor count : ℕ)
      → (scan_loop count cursor (drop cursor items)).1
          ++ matches
              (cursor + seen count (drop cursor items))
              (drop (cursor + seen count (drop cursor items)) items)
        ≡ matches cursor (drop cursor items)
  later-found items cursor count =
      let rest = drop cursor items in
      ap (λ (t : List T). (scan_loop count cursor rest).1 ++ matches (cursor + seen count rest) t)
        (sym (drop-drop cursor (seen count rest) items))
      ∙ scan_loop-matches count cursor rest

  iterate-from :
      (calls : ℕ) (items : List T) (count cursor : ℕ)
      → 0 < count
      → cursor ≤ length items
      → length items < cursor + calls
      → iterate calls items count cursor ≡ some (matches cursor (drop cursor items))
  unfolding step
  iterate-from zero items count cursor p q enough = absurd (omega arith)
  iterate-from (suc calls) items count cursor p q enough =
      let rest = drop cursor items in
      let n = cursor + seen count rest in
      rw (collect-step items cursor count q) (elim (Bool-cases (leb (length items) n)) [
        | inl far ↦ rw far (ap some (last-found items cursor count q (ground (arith, far))))
        | inr near ↦
            let left : n < length items = ground (arith, near) in
            let more = progress count rest p (omega (arith, left, length-drop cursor items)) in
            let ih =
              iterate-from calls items count n p (omega (arith, left))
                (omega (arith, more, enough)) in
            rw near (
              rw ih
                (rw (not_zero n (omega (arith, more))) (ap some (later-found items cursor count))))
      ])

  -- A client that follows the cursors with a count of at least one, over items that stay the same, is
  -- done within one call more than there are items, and has been given the index of each match exactly
  -- once, in order.
  pub iterate-matches :
      (items : List T) (count : ℕ)
      → 0 < count
      → iterate (suc (length items)) items count 0 ≡ some (matches 0 items)
  iterate-matches items count p =
      iterate-from (suc (length items)) items count 0 p (omega arith) (omega arith)
