-- ===== src/Command/Tests.antt =====
-- Concrete commands on a database of two keys, one with a deadline.
use ratatosk.Prelude.{ℕ, ◌≡◌, refl, Bool, none, some, [], ◌∷◌, arith, if◌then◌else◌, ltb}
use ratatosk.Prelude.Int.{pos, ◌+ℤ◌, ◌*ℤ◌}
use ratatosk.Prelude.Eq.{list_eq, bytes_eq}
use ratatosk.Prelude.Maps.{lookup}
use ratatosk.Prelude.Sets.{contains}
use ratatosk.Prelude.Words.{Bytes}
use ratatosk.Object.{parse_i64, parse_digits}
use ratatosk.Keyspace.Value.{StoredValue, string, expire_at_ms}
use ratatosk.Keyspace.Guard.{DbWriteGuard}
use ratatosk.Command.Reply.{integer}
use ratatosk.Command.Expiry.{relative_seconds, to_expire_target_ms, saturating_add, saturating_mul}
use ratatosk.Command.Key.{cmd_expire_with_mode, cmd_delete_like}
use ratatosk.Command.Scan.{iterate, iterate-matches}
use ratatosk.Command.Ttl.{Expiring, cmd_expire-ttl}
use ratatosk.Command.Delete.{live_among, cmd_delete_like-Deleted}

abbrev small_enough : ℕ → Bool
small_enough n = ltb n 5

iterate-matches_example : iterate small_enough 5 (3 ∷ 9 ∷ 4 ∷ 1 ∷ []) 2 0 ≡ some (0 ∷ 2 ∷ 3 ∷ [])
iterate-matches_example = iterate-matches small_enough (3 ∷ 9 ∷ 4 ∷ 1 ∷ []) 2 (omega arith)

abbrev key_a : Bytes
key_a = b'a' ∷ []

abbrev key_b : Bytes
key_b = b'b' ∷ []

abbrev plain : StoredValue
plain = record { payload = string key_a; deadline = pos 0; encoding_and_lru = 0 }

abbrev old : StoredValue
old = record { payload = string key_b; deadline = pos 50; encoding_and_lru = 0 }

abbrev two_keys : DbWriteGuard
two_keys = record {
  shard = record {
    stored = (key_a, plain) ∷ (key_b, old) ∷ [];
    key_versions = [];
    watch_refs = [];
    expires = (key_b, pos 50) ∷ [];
  };
  memory = 180;
  next_key_version = 1;
}

cmd_expire-ttl_example :
    Expiring key_a
      (to_expire_target_ms (pos 7) relative_seconds (pos 100))
      (pos 6000)
      (cmd_expire_with_mode (key_a ∷ (b'7' ∷ []) ∷ []) relative_seconds (pos 100) two_keys)
unfolding lookup bytes_eq parse_i64 parse_digits expire_at_ms to_expire_target_ms saturating_add
    saturating_mul ◌+ℤ◌ ◌*ℤ◌
cmd_expire-ttl_example =
    cmd_expire-ttl key_a (b'7' ∷ []) (pos 7) (pos 100) (pos 6000) relative_seconds two_keys plain
      refl refl refl refl (omega arith) refl refl

cmd_delete_like-Deleted_example :
    ((cmd_delete_like (key_b ∷ key_a ∷ key_a ∷ []) (pos 60) two_keys).0
      ≡ integer (pos (live_among (pos 60) (key_b ∷ key_a ∷ key_a ∷ []) two_keys.shard.stored)))
    × ((k : Bytes)
        → lookup k (cmd_delete_like (key_b ∷ key_a ∷ key_a ∷ []) (pos 60) two_keys).1.shard.stored
          ≡ (if contains k (key_b ∷ key_a ∷ key_a ∷ [])
              then none
              else lookup k two_keys.shard.stored))
unfolding lookup bytes_eq
cmd_delete_like-Deleted_example =
    cmd_delete_like-Deleted key_b (key_a ∷ key_a ∷ []) (pos 60) two_keys (refl, (refl, tt))
