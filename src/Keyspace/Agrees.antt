-- ===== src/Keyspace/Agrees.antt =====
-- The deadlines of a database stand in its values and in the map `expires` too: the operations of
-- keyspace.rs that keep the two together.
use ratatosk.Prelude.{◌≡◌, refl, [], Option, none, some, inl, inr, if◌then◌else◌, Bool-cases, arith}
use ratatosk.Prelude.Int.{ℤ}
use ratatosk.Prelude.Eq.{list_eq, bytes_eq, bytes_eq_iff}
use ratatosk.Prelude.Maps.{
  Map, lookup, insert, remove, lookup-insert, lookup-remove, IsUnique, insert-IsUnique,
  remove-IsUnique,
}
use ratatosk.Prelude.Words.{Bytes}
use ratatosk.Keyspace.Value.{StoredValue, is_positive, expire_at_ms, set_expire_at_ms}
use ratatosk.Keyspace.Shard.{sync_by}

-- The deadline of a key: that of its value.
abbrev pub deadline_of : Option StoredValue → Option ℤ
deadline_of none = none
deadline_of (some value) = expire_at_ms value

pub record Agrees (stored : Map Bytes StoredValue) (expires : Map Bytes ℤ) : Type 0 where
  pub stored_unique : IsUnique stored
  pub expires_unique : IsUnique expires
  pub same_deadline : (k : Bytes) → lookup k expires ≡ deadline_of (lookup k stored)

sync_by-IsUnique :
    (key : Bytes) (expire : Option ℤ) (m : Map Bytes ℤ)
    → IsUnique m
    → IsUnique (sync_by key expire m)
sync_by-IsUnique key none m u = remove-IsUnique key m u
sync_by-IsUnique key (some ms) m u = elim (Bool-cases (is_positive ms)) [
  | inl h ↦ rw h (insert-IsUnique key ms m u)
  | inr h ↦ rw h (remove-IsUnique key m u)
]

lookup-sync_by :
    (key k : Bytes) (expire : Option ℤ) (value : StoredValue) (m : Map Bytes ℤ)
    → lookup k (sync_by key expire m)
      ≡ (if bytes_eq key k then expire_at_ms (set_expire_at_ms expire value) else lookup k m)
unfolding expire_at_ms set_expire_at_ms
lookup-sync_by key k none value m = ground (arith, lookup-remove key k m)
lookup-sync_by key k (some ms) value m =
    ground (arith, lookup-remove key k m, lookup-insert key k ms m)

-- Overwriting a value and its deadline, in both maps.
pub set-Agrees :
    {stored : Map Bytes StoredValue} {expires : Map Bytes ℤ} (key : Bytes) (expire : Option ℤ)
    (value : StoredValue)
    → Agrees stored expires
    → Agrees (insert key (set_expire_at_ms expire value) stored) (sync_by key expire expires)
set-Agrees {stored} {expires} key expire value a = record {
  stored_unique = insert-IsUnique key (set_expire_at_ms expire value) stored a.stored_unique;
  expires_unique = sync_by-IsUnique key expire expires a.expires_unique;
  same_deadline = λ (k : Bytes). ground (
    arith,
    lookup-sync_by key k expire value expires,
    lookup-insert key k (set_expire_at_ms expire value) stored,
    a.same_deadline k,
  );
}

lookup-sync_own :
    (key k : Bytes) (value : StoredValue) (m : Map Bytes ℤ)
    → lookup k (sync_by key (expire_at_ms value) m)
      ≡ (if bytes_eq key k then expire_at_ms value else lookup k m)
unfolding expire_at_ms
lookup-sync_own key k value m =
    ground (arith, lookup-remove key k m, lookup-insert key k value.deadline m)

pub store-Agrees :
    {stored : Map Bytes StoredValue} {expires : Map Bytes ℤ} (key : Bytes) (value : StoredValue)
    → Agrees stored expires
    → Agrees (insert key value stored) (sync_by key (expire_at_ms value) expires)
store-Agrees {stored} {expires} key value a = record {
  stored_unique = insert-IsUnique key value stored a.stored_unique;
  expires_unique = sync_by-IsUnique key (expire_at_ms value) expires a.expires_unique;
  same_deadline = λ (k : Bytes). ground (
    arith,
    lookup-sync_own key k value expires,
    lookup-insert key k value stored,
    a.same_deadline k,
  );
}

pub drop-Agrees :
    {stored : Map Bytes StoredValue} {expires : Map Bytes ℤ} (key : Bytes)
    → Agrees stored expires
    → Agrees (remove key stored) (remove key expires)
drop-Agrees {stored} {expires} key a = record {
  stored_unique = remove-IsUnique key stored a.stored_unique;
  expires_unique = remove-IsUnique key expires a.expires_unique;
  same_deadline = λ (k : Bytes).
      ground (arith, lookup-remove key k expires, lookup-remove key k stored, a.same_deadline k);
}

-- A value that takes the place of one with the same deadline.
pub keep-Agrees :
    {stored : Map Bytes StoredValue} {expires : Map Bytes ℤ} (key : Bytes) (old value : StoredValue)
    → Agrees stored expires
    → lookup key stored ≡ some old
    → expire_at_ms value ≡ expire_at_ms old
    → Agrees (insert key value stored) expires
keep-Agrees {stored} {expires} key old value a found same = record {
  stored_unique = insert-IsUnique key value stored a.stored_unique;
  expires_unique = a.expires_unique;
  same_deadline = λ (k : Bytes).
      ground (
        arith,
        bytes_eq_iff key k,
        lookup-insert key k value stored,
        a.same_deadline k,
        found,
        same,
      );
}

pub empty-Agrees : Agrees [] []
unfolding lookup
empty-Agrees = record {
  stored_unique = tt;
  expires_unique = tt;
  same_deadline = λ (k : Bytes). refl;
}
