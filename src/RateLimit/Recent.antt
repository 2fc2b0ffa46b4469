-- ===== src/RateLimit/Recent.antt =====
-- Recent times in the limiters' maps: what a cleanup, an insert and a removal do to them.
use ratatosk.Prelude.{
  ℕ, ◌-◌, ◌≤◌, ◌<◌, ◌≡◌, refl, sym, ap, ◌∙◌, arith, Option, none, some, List, [], ◌∷◌, ◌++◌, length,
  if◌then◌else◌, ltb, lt→ltb, Bool-cases, inl, inr,
}
use ratatosk.Prelude.Maps.{
  Map, lookup, insert, remove, retain, kept, IsUnique, lookup-insert, lookup-remove, lookup-retain,
}
use ratatosk.RateLimit.{
  IpAddr, ip_beq, ip_beq_iff, ip_eq, retain_recent, unless_empty, keep_recent, entry_or_default,
}

-- The times of an address that are inside the window.
abbrev pub recents : ℕ → ℕ → IpAddr → Map IpAddr (List ℕ) → List ℕ
recents now window addr m = retain_recent (entry_or_default (lookup addr m)) now window

pub length-retain_recent :
    (es : List ℕ) (now window : ℕ) → length (retain_recent es now window) ≤ length es
unfolding retain_recent
length-retain_recent [] now window = omega arith
length-retain_recent (t ∷ es) now window = ground (arith, length-retain_recent es now window)

pub retain_recent_twice :
    (es : List ℕ) (now window : ℕ)
    → retain_recent (retain_recent es now window) now window ≡ retain_recent es now window
unfolding retain_recent
retain_recent_twice [] now window = refl
retain_recent_twice (t ∷ es) now window = elim (Bool-cases (ltb (now - t) window)) [
  | inl h ↦ rw (h, retain_recent) (rw h (ap (λ r. t ∷ r) (retain_recent_twice es now window)))
  | inr h ↦ rw h (retain_recent_twice es now window)
]

pub retain_recent-append :
    (es : List ℕ) (now window : ℕ)
    → 0 < window
    → retain_recent (es ++ (now ∷ [])) now window ≡ retain_recent es now window ++ (now ∷ [])
unfolding retain_recent
retain_recent-append [] now window h = rw (lt→ltb (now - now) window (omega arith)) refl
retain_recent-append (t ∷ es) now window h = ground (arith, retain_recent-append es now window h)

entry_unless : (r : List ℕ) → entry_or_default (unless_empty r) ≡ r
entry_unless [] = refl
entry_unless (t ∷ r) = refl

entry_kept :
    (now window : ℕ) (o : Option (List ℕ))
    → entry_or_default (kept (keep_recent now window) o)
      ≡ retain_recent (entry_or_default o) now window
unfolding retain_recent
entry_kept now window none = refl
entry_kept now window (some es) = entry_unless (retain_recent es now window)

-- A cleanup leaves the entry of each address with its recent times.
pub entry-retain :
    (now window : ℕ) (a : IpAddr) (m : Map IpAddr (List ℕ))
    → IsUnique m
    → entry_or_default (lookup a (retain (keep_recent now window) m)) ≡ recents now window a m
entry-retain now window a m u =
    ap entry_or_default (lookup-retain (keep_recent now window) a m u)
    ∙ entry_kept now window (lookup a m)

pub recents-retain :
    (now window : ℕ) (a : IpAddr) (m : Map IpAddr (List ℕ))
    → IsUnique m
    → recents now window a (retain (keep_recent now window) m) ≡ recents now window a m
recents-retain now window a m u =
    ap (λ es. retain_recent es now window) (entry-retain now window a m u)
    ∙ retain_recent_twice (entry_or_default (lookup a m)) now window

pub recents-insert :
    (now window : ℕ) (a b : IpAddr) (es : List ℕ) (m : Map IpAddr (List ℕ))
    → recents now window b (insert a es m)
      ≡ (if ip_beq a b then retain_recent es now window else recents now window b m)
recents-insert now window a b es m = elim (Bool-cases (ip_beq a b)) [
  | inl h ↦ rw (lookup-insert a b es m, h) refl
  | inr h ↦ rw (lookup-insert a b es m, h) refl
]

-- A removal of an address without recent times.
pub recents-remove :
    (now window : ℕ) (a b : IpAddr) (m : Map IpAddr (List ℕ))
    → recents now window a m ≡ []
    → recents now window b (remove a m) ≡ recents now window b m
unfolding retain_recent
recents-remove now window a b m h = elim (Bool-cases (ip_beq a b)) [
  | inl e ↦
      rw (lookup-remove a b m, e)
        (sym (ap (λ x. recents now window x m) (sym ((ip_beq_iff a b).0 e)) ∙ h))
  | inr e ↦ rw (lookup-remove a b m, e) refl
]

-- What is recent at a later instant was recent before.
pub retain_recent_later :
    (es : List ℕ) (t now window : ℕ)
    → t ≤ now
    → retain_recent (retain_recent es t window) now window ≡ retain_recent es now window
unfolding retain_recent
retain_recent_later [] t now window h = refl
retain_recent_later (x ∷ es) t now window h = elim (Bool-cases (ltb (t - x) window)) [
  | inl e ↦ rw (e, retain_recent) (ground (arith, retain_recent_later es t now window h))
  | inr e ↦ rw e (ground (arith, retain_recent_later es t now window h))
]
