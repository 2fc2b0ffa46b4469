-- ===== src/Slot/Tag.antt =====
-- The hash tag of a key.
use ratatosk.Prelude.{
  ℕ, suc, ◌+◌, ◌<◌, ◌≡◌, refl, ap, ◌∙◌, false, none, some, [], ◌∷◌, ◌++◌, drop, take, length, arith,
  drop-append_self, take-append_self, drop_after,
}
use ratatosk.Prelude.Eq.{nat_eq}
use ratatosk.Prelude.Sets.{contains}
use ratatosk.Prelude.Words.{Bytes}
use ratatosk.Slot.{position, tag_until, tag_from, extract_hash_tag}

position-missing :
    (byte : ℕ) (bytes : Bytes) → contains byte bytes ≡ false → position byte bytes ≡ none
unfolding position contains
position-missing byte [] h = refl
position-missing byte (b ∷ bytes) h = ground (arith, h, position-missing byte bytes)

position-first :
    (byte : ℕ) (front back : Bytes)
    → contains byte front ≡ false
    → position byte (front ++ (byte ∷ back)) ≡ some (length front)
unfolding position contains
position-first byte [] back h = ground arith
position-first byte (b ∷ front) back h = ground (arith, h, position-first byte front back)

drop-tag : (front rest : Bytes) (c : ℕ) → drop (length front + 1) (front ++ (c ∷ rest)) ≡ rest
drop-tag front rest c =
    drop_after (front ++ (c ∷ rest)) (length front) (c ∷ []) rest
      (drop-append_self front (c ∷ rest))

-- What stands behind the first opening brace.
tag_from-brace :
    (front rest : Bytes)
    → contains b'{' front ≡ false
    → extract_hash_tag (front ++ (b'{' ∷ rest))
      ≡ tag_until (front ++ (b'{' ∷ rest)) (length front) (position b'}' rest)
unfolding extract_hash_tag
tag_from-brace front rest h =
    ap (tag_from (front ++ (b'{' ∷ rest))) (position-first b'{' front rest h)
    ∙ ap (λ (t : Bytes). tag_until (front ++ (b'{' ∷ rest)) (length front) (position b'}' t))
        (drop-tag front rest b'{')

tag_until-tag :
    (front tag back : Bytes)
    → 0 < length tag
    → tag_until (front ++ (b'{' ∷ (tag ++ (b'}' ∷ back)))) (length front) (some (length tag)) ≡ tag
tag_until-tag front [] back p = absurd (omega (arith, p))
tag_until-tag front (c ∷ tag) back p =
    ap (take (suc (length tag))) (drop-tag front (c ∷ tag ++ (b'}' ∷ back)) b'{')
    ∙ take-append_self (c ∷ tag) (b'}' ∷ back)

-- The four forms that a key can have.
pub data Form : Type 0 where
  no_brace : Bytes → Form
  unclosed : Bytes → Bytes → Form
  empty_braces : Bytes → Bytes → Form
  tagged : Bytes → Bytes → Bytes → Form

-- The parts in front of the first braces hold none of them.
abbrev pub IsForm : Form → Type 0
IsForm (no_brace key) = contains b'{' key ≡ false
IsForm (unclosed front rest) = (contains b'{' front ≡ false) × (contains b'}' rest ≡ false)
IsForm (empty_braces front back) = contains b'{' front ≡ false
IsForm (tagged front tag back) =
    (contains b'{' front ≡ false) × (contains b'}' tag ≡ false) × (0 < length tag)

abbrev pub key_of : Form → Bytes
key_of (no_brace key) = key
key_of (unclosed front rest) = front ++ (b'{' ∷ rest)
key_of (empty_braces front back) = front ++ (b'{' ∷ b'}' ∷ back)
key_of (tagged front tag back) = front ++ (b'{' ∷ (tag ++ (b'}' ∷ back)))

abbrev pub tag_of : Form → Bytes
tag_of (tagged front tag back) = tag
tag_of form = key_of form

-- The hash tag of a key is what stands between its first opening brace and the next closing one, if that
-- is not empty; of a key with no opening brace, with no closing one behind the first opening one, or
-- with nothing between the two, it is the key itself.
pub extract_hash_tag-tag_of :
    (form : Form) → IsForm form → extract_hash_tag (key_of form) ≡ tag_of form
unfolding extract_hash_tag position
extract_hash_tag-tag_of (no_brace key) h = ap (tag_from key) (position-missing b'{' key h)
extract_hash_tag-tag_of (unclosed front rest) (h, k) =
    tag_from-brace front rest h
    ∙ ap (tag_until (front ++ (b'{' ∷ rest)) (length front)) (position-missing b'}' rest k)
extract_hash_tag-tag_of (empty_braces front back) h = tag_from-brace front (b'}' ∷ back) h
extract_hash_tag-tag_of (tagged front tag back) (h, k, p) =
    tag_from-brace front (tag ++ (b'}' ∷ back)) h
    ∙ ap (tag_until (front ++ (b'{' ∷ (tag ++ (b'}' ∷ back)))) (length front))
        (position-first b'}' tag back k)
    ∙ tag_until-tag front tag back p
