-- ===== src/Command/Key.antt =====
-- The key commands of command/cmd_key.rs on the client's selected database. The audit line of a
-- deletion and the counters of hits are left out.
use ratatosk.Prelude.{
  ℕ, ◌+◌, ◌/◌, Bool, true, false, not, ◌&&◌, Option, none, some, List, [], ◌∷◌, if◌then◌else◌,
}
use ratatosk.Prelude.Int.{ℤ, pos, negsuc, ltb_ℤ}
use ratatosk.Prelude.Eq.{list_eq, bytes_eq}
use ratatosk.Prelude.Maps.{lookup, contains_key, is_some}
use ratatosk.Prelude.Words.{Bytes}
use ratatosk.Object.{parse_i64}
use ratatosk.Keyspace.Value.{StoredValue, expire_at_ms}
use ratatosk.Keyspace.Guard.{DbWriteGuard, remove, rename, set_key_expiry, purge_expired_key}
use ratatosk.Command.Reply.{
  Reply, integer, ok, err, wrong_arity, no_such_key, not_an_integer, syntax_error,
}
use ratatosk.Command.Expiry.{
  ExpireCondition, always, ExpireMode, TtlMode, seconds, milliseconds, parse_expire_condition,
  to_expire_target_ms, expire_condition_matches, saturating_sub,
}

-- After the purge of a key that is due.
abbrev pub purged : Bytes → ℤ → DbWriteGuard → DbWriteGuard
purged key now_ms g = (purge_expired_key key now_ms g).1

abbrev pub has_key : Bytes → DbWriteGuard → Bool
has_key key g = contains_key key g.shard.stored

abbrev pub one_if : Bool → ℕ
one_if true = 1
one_if false = 0

-- The loop of DEL and UNLINK, with the keys removed so far.
unfoldable pub delete_each : List Bytes → ℤ → ℕ → DbWriteGuard → ℕ × DbWriteGuard
unfolding purge_expired_key remove
delete_each [] now_ms removed g = (removed, g)
delete_each (key ∷ keys) now_ms removed g =
    let r = remove key (purged key now_ms g) in
    delete_each keys now_ms (removed + one_if (is_some r.0)) r.1

unfoldable pub cmd_delete_like : List Bytes → ℤ → DbWriteGuard → Reply × DbWriteGuard
unfolding delete_each
cmd_delete_like [] now_ms g = (err wrong_arity, g)
cmd_delete_like (key ∷ keys) now_ms g =
    let r = delete_each (key ∷ keys) now_ms 0 g in (integer (pos r.0), r.1)

-- The loop of EXISTS and TOUCH.
unfoldable pub count_each : List Bytes → ℤ → ℕ → DbWriteGuard → ℕ × DbWriteGuard
unfolding purge_expired_key
count_each [] now_ms count g = (count, g)
count_each (key ∷ keys) now_ms count g =
    let h = purged key now_ms g in count_each keys now_ms (count + one_if (has_key key h)) h

unfoldable pub cmd_touch : List Bytes → ℤ → DbWriteGuard → Reply × DbWriteGuard
unfolding count_each
cmd_touch [] now_ms g = (err wrong_arity, g)
cmd_touch (key ∷ keys) now_ms g =
    let r = count_each (key ∷ keys) now_ms 0 g in (integer (pos r.0), r.1)

abbrev pub renamed : Bool → Reply
renamed true = integer (pos 1)
renamed false = ok

abbrev pub unchanged : Bool → Reply
unchanged true = integer (pos 0)
unchanged false = ok

-- `cmd_rename_with_mode` behind the arity test
unfoldable pub rename_key : Bytes → Bytes → Bool → ℤ → DbWriteGuard → Reply × DbWriteGuard
unfolding purge_expired_key rename bytes_eq
rename_key source target only_if_missing now_ms g =
    let h = purged source now_ms g in
    let k = purged target now_ms h in
    if not (has_key source h)
    then (err no_such_key, h)
    else if bytes_eq source target
    then (unchanged only_if_missing, h)
    else if only_if_missing && has_key target k
    then (integer (pos 0), k)
    else (renamed only_if_missing, (rename source target k).1)

unfoldable pub cmd_rename_with_mode : List Bytes → Bool → ℤ → DbWriteGuard → Reply × DbWriteGuard
unfolding rename_key
cmd_rename_with_mode (source ∷ target ∷ []) only_if_missing now_ms g =
    rename_key source target only_if_missing now_ms g
cmd_rename_with_mode [] only_if_missing now_ms g = (err wrong_arity, g)
cmd_rename_with_mode (a ∷ []) only_if_missing now_ms g = (err wrong_arity, g)
cmd_rename_with_mode (a ∷ b ∷ c ∷ rest) only_if_missing now_ms g = (err wrong_arity, g)

abbrev pub has_deadline : Option StoredValue → Bool
has_deadline none = false
has_deadline (some value) = is_some (expire_at_ms value)

-- `set_key_expiry` as a reply
abbrev pub set_reply : Bool × DbWriteGuard → Bool → Reply × DbWriteGuard
set_reply (true, g) removed = (integer (pos (one_if removed)), g)
set_reply (false, g) removed = (integer (pos 0), g)

unfoldable pub persist_key : Bytes → ℤ → DbWriteGuard → Reply × DbWriteGuard
unfolding purge_expired_key set_key_expiry
persist_key key now_ms g =
    let h = purged key now_ms g in
    set_reply (set_key_expiry key none h) (has_deadline (lookup key h.shard.stored))

-- EXPIRE behind its arguments: on the value found, with the new deadline.
abbrev pub expire_found :
    Bytes → ExpireCondition → ℤ → ℤ → DbWriteGuard → Option StoredValue → Reply × DbWriteGuard
expire_found key condition target now_ms g none = (integer (pos 0), g)
expire_found key condition target now_ms g (some value) =
    if not (expire_condition_matches condition (expire_at_ms value) target)
    then (integer (pos 0), g)
    else if not (ltb_ℤ now_ms target)
    then (integer (pos 1), (remove key g).1)
    else set_reply (set_key_expiry key (some target) g) true

unfoldable pub expire_key : Bytes → ExpireCondition → ℤ → ℤ → DbWriteGuard → Reply × DbWriteGuard
unfolding purge_expired_key expire_condition_matches remove set_key_expiry
expire_key key condition target now_ms g =
    let h = purged key now_ms g in
    expire_found key condition target now_ms h (lookup key h.shard.stored)

abbrev pub expire_parsed :
    Bytes → ExpireMode → ℤ → DbWriteGuard → Option ℤ → Option ExpireCondition → Reply × DbWriteGuard
expire_parsed key mode now_ms g none condition = (err not_an_integer, g)
expire_parsed key mode now_ms g (some n) none = (err syntax_error, g)
expire_parsed key mode now_ms g (some n) (some condition) =
    expire_key key condition (to_expire_target_ms n mode now_ms) now_ms g

unfoldable pub cmd_expire_with_mode :
    List Bytes → ExpireMode → ℤ → DbWriteGuard → Reply × DbWriteGuard
unfolding parse_i64 parse_expire_condition to_expire_target_ms expire_key
cmd_expire_with_mode (key ∷ timeout ∷ []) mode now_ms g =
    expire_parsed key mode now_ms g (parse_i64 timeout) (some always)
cmd_expire_with_mode (key ∷ timeout ∷ condition ∷ []) mode now_ms g =
    expire_parsed key mode now_ms g (parse_i64 timeout) (parse_expire_condition condition)
cmd_expire_with_mode [] mode now_ms g = (err wrong_arity, g)
cmd_expire_with_mode (a ∷ []) mode now_ms g = (err wrong_arity, g)
cmd_expire_with_mode (a ∷ b ∷ c ∷ d ∷ rest) mode now_ms g = (err wrong_arity, g)

-- Division of a number that is positive here.
abbrev pub ttl_in : TtlMode → ℤ → ℤ
ttl_in milliseconds remaining = remaining
ttl_in seconds (pos n) = pos (n / 1000)
ttl_in seconds (negsuc n) = pos 0

abbrev pub ttl_left : Bytes → TtlMode → ℤ → DbWriteGuard → Reply × DbWriteGuard
ttl_left key mode remaining g =
    if ltb_ℤ (pos 0) remaining
    then (integer (ttl_in mode remaining), g)
    else (integer (negsuc 1), (remove key g).1)

abbrev pub ttl_of : Bytes → TtlMode → ℤ → DbWriteGuard → Option ℤ → Reply × DbWriteGuard
ttl_of key mode now_ms g none = (integer (negsuc 0), g)
ttl_of key mode now_ms g (some at) = ttl_left key mode (saturating_sub at now_ms) g

abbrev pub ttl_found :
    Bytes → TtlMode → ℤ → DbWriteGuard → Option StoredValue → Reply × DbWriteGuard
ttl_found key mode now_ms g none = (integer (negsuc 1), g)
ttl_found key mode now_ms g (some value) = ttl_of key mode now_ms g (expire_at_ms value)

unfoldable pub ttl_key : Bytes → TtlMode → ℤ → DbWriteGuard → Reply × DbWriteGuard
unfolding purge_expired_key saturating_sub remove
ttl_key key mode now_ms g =
    let h = purged key now_ms g in ttl_found key mode now_ms h (lookup key h.shard.stored)

unfoldable pub cmd_ttl_with_mode : List Bytes → TtlMode → ℤ → DbWriteGuard → Reply × DbWriteGuard
unfolding ttl_key
cmd_ttl_with_mode (key ∷ []) mode now_ms g = ttl_key key mode now_ms g
cmd_ttl_with_mode [] mode now_ms g = (err wrong_arity, g)
cmd_ttl_with_mode (a ∷ b ∷ rest) mode now_ms g = (err wrong_arity, g)

unfoldable pub cmd_persist : List Bytes → ℤ → DbWriteGuard → Reply × DbWriteGuard
unfolding persist_key
cmd_persist (key ∷ []) now_ms g = persist_key key now_ms g
cmd_persist [] now_ms g = (err wrong_arity, g)
cmd_persist (a ∷ b ∷ rest) now_ms g = (err wrong_arity, g)
