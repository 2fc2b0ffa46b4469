-- ===== src/Keyspace/Shard.antt =====
-- One database, `DbShard` of keyspace.rs. Its field `data` is `stored` here. The counter of key
-- versions, which all databases share, is passed in and out; `fetch_add` wraps.
use ratatosk.Prelude.{ℕ, ◌+◌, Option, none, some, List, [], ◌∷◌, length, if◌then◌else◌}
use ratatosk.Prelude.Int.{ℤ}
use ratatosk.Prelude.Eq.{list_eq}
use ratatosk.Prelude.Maps.{Map, insert, remove, contains_key}
use ratatosk.Prelude.Words.{Bytes, wrap64}
use ratatosk.Keyspace.Value.{StoredValue, is_positive}

pub record DbShard : Type 0 where
  pub stored : Map Bytes StoredValue
  pub key_versions : Map Bytes ℕ
  pub watch_refs : Map Bytes ℕ
  pub expires : Map Bytes ℤ

abbrev pub empty_shard : DbShard
empty_shard = record { stored = []; key_versions = []; watch_refs = []; expires = [] }

-- The assignment of the next version to a key.
abbrev pub give_version : Bytes → ℕ × DbShard → ℕ × DbShard
give_version key (next, shard) =
    (wrap64 (next + 1), record shard { key_versions = insert key next shard.key_versions })

unfoldable pub record_modification : Bytes → ℕ × DbShard → ℕ × DbShard
record_modification key s = if contains_key key s.1.watch_refs then give_version key s else s

-- The watched keys that exist.
abbrev pub existing : Map Bytes ℕ → Map Bytes StoredValue → List Bytes
existing [] stored = []
existing ((key, refs) ∷ watched) stored =
    let rest = existing watched stored in if contains_key key stored then key ∷ rest else rest

abbrev pub give_versions : List Bytes → ℕ × DbShard → ℕ × DbShard
give_versions [] s = s
give_versions (key ∷ keys) s = give_versions keys (give_version key s)

-- The early return for a database that nobody watches is the loop over no key.
unfoldable pub record_watched_existing : ℕ × DbShard → ℕ × DbShard
record_watched_existing s = give_versions (existing s.1.watch_refs s.1.stored) s

abbrev pub sync_by : Bytes → Option ℤ → Map Bytes ℤ → Map Bytes ℤ
sync_by key none m = remove key m
sync_by key (some ms) m = if is_positive ms then insert key ms m else remove key m

unfoldable pub sync_expires : Bytes → Option ℤ → DbShard → DbShard
sync_expires key expire shard = record shard { expires = sync_by key expire shard.expires }

unfoldable pub volatile_count : DbShard → ℕ
volatile_count shard = length shard.expires
