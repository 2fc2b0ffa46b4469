-- ===== src/Keyspace/Renamed.antt =====
-- What `rename` of keyspace.rs does to the keys.
use ratatosk.Prelude.{◌≡◌, refl, ap, ◌∙◌, Option, none, some, arith, if◌then◌else◌, length}
use ratatosk.Prelude.Eq.{list_eq, bytes_eq}
use ratatosk.Prelude.Maps.{Map, lookup, contains_key, lookup-insert, lookup-remove}
use ratatosk.Prelude.Maps
use ratatosk.Prelude.Words.{Bytes}
use ratatosk.Keyspace.Value.{StoredValue}
use ratatosk.Keyspace.Shard.{DbShard, sync_expires}
use ratatosk.Keyspace.Synced.{shard-move}
use ratatosk.Keyspace.Purge.{stored-remove}
use ratatosk.Keyspace.Guard.{DbWriteGuard, remove, drop_key, rename, rename_found}

-- What stands under `k` when the value of `source`, if there is one, has become that of `target`.
abbrev pub renamed_at : Bytes → Bytes → Bytes → Map Bytes StoredValue → Option StoredValue
renamed_at source target k stored =
    if contains_key source stored
    then if bytes_eq target k
      then lookup source stored
      else if bytes_eq source k
      then none
      else lookup k stored
    else lookup k stored

stored-renamed :
    (source target : Bytes) (value : StoredValue) (g : DbWriteGuard)
    → (rename_found source target g (some value)).1.shard.stored
      ≡ Maps.insert target value (Maps.remove target (Maps.remove source g.shard.stored))
unfolding sync_expires
stored-renamed source target value g =
    let left = (remove target (drop_key source g)).1 in
    ap (Maps.insert target value) (
      ap (λ (d : DbShard). d.stored) (shard-move (length source) (length target) left)
      ∙ stored-remove target (drop_key source g))

lookup-renamed :
    (source target k : Bytes) (old : Option StoredValue) (g : DbWriteGuard)
    → lookup source g.shard.stored ≡ old
    → lookup k (rename_found source target g old).1.shard.stored
      ≡ renamed_at source target k g.shard.stored
lookup-renamed source target k none g found = ground (arith, found)
lookup-renamed source target k (some value) g found =
    let after = Maps.remove target (Maps.remove source g.shard.stored) in
    ap (lookup k) (stored-renamed source target value g)
    ∙ ground (
      arith,
      found,
      lookup-insert target k value after,
      lookup-remove target k (Maps.remove source g.shard.stored),
      lookup-remove source k g.shard.stored,
    )

answer-renamed :
    (source target : Bytes) (old : Option StoredValue) (g : DbWriteGuard)
    → (rename_found source target g old).0 ≡ Maps.is_some old
answer-renamed source target none g = refl
answer-renamed source target (some value) g = refl

-- `rename` answers whether the source exists; if so, its value stands under the target, whatever was
-- there, the source is gone unless it is the target, and all other keys stay; if not, all keys stay.
pub rename-renamed_at :
    (source target k : Bytes) (g : DbWriteGuard)
    → ((rename source target g).0 ≡ contains_key source g.shard.stored)
      × (lookup k (rename source target g).1.shard.stored
          ≡ renamed_at source target k g.shard.stored)
unfolding rename
rename-renamed_at source target k g = (
  answer-renamed source target (lookup source g.shard.stored) g,
  lookup-renamed source target k (lookup source g.shard.stored) g refl,
)
