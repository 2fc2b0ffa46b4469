-- ===== src/PubSub.antt =====
-- Publish/subscribe, crates/ratatosk-engine/src/pubsub.rs. The maps of sets are association lists, so
-- an iteration runs in the list's order. `Tx` is a sender of the tokio crate with its queue and
-- `try_send` what that crate makes of a message; the glob match is that of the glob-match crate.
pub mod Index
pub mod Consistent
pub mod Departure
mod Tests
use ratatosk.Prelude.{
  ℕ, ◌+◌, ◌<◌, ltb, max, Bool, true, false, ◌&&◌, ◌||◌, not, Option, none, some, List, [], ◌∷◌, map,
  length, if◌then◌else◌,
}
use ratatosk.Prelude.Int.{ℤ, int_eq}
use ratatosk.Prelude.Eq.{Eq, list_eq}
use ratatosk.Prelude.Maps.{Map, lookup, insert, remove}
use ratatosk.Prelude.Sets.{set_insert, set_remove, or_empty, is_empty, set_of, join, leave}
pub use ratatosk.Prelude.Words.{Bytes}
use ratatosk.Prelude.Words.{sat_add}
use ratatosk.Prelude.Sort.{sort}

pub data PubSubMessage : Type 0 where
  message : (channel payload : Bytes) → PubSubMessage
  s_message : (channel payload : Bytes) → PubSubMessage
  p_message : (pattern_of channel payload : Bytes) → PubSubMessage
  invalidate : (keys : List Bytes) → PubSubMessage
  tracking_redirect_broken : (redirect_client_id : ℤ) → PubSubMessage

-- What `try_send` returns.
pub data SendResult : Type 0 where
  sent full closed : SendResult

pub record PubSubState (Tx : Type 0) : Type 0 where
  pub channels : Map Bytes (List ℤ)
  pub shard_channels : Map Bytes (List ℤ)
  pub patterns : Map Bytes (List ℤ)
  pub client_channel_subs : Map ℤ (List Bytes)
  pub client_shard_channel_subs : Map ℤ (List Bytes)
  pub client_pattern_subs : Map ℤ (List Bytes)
  pub subscriber_tx : Map ℤ Tx
  pub hard_limit : ℕ
  pub soft_limit : ℕ
  pub soft_seconds : ℕ

abbrev pub numsub_of : Map Bytes (List ℤ) → Bytes → Bytes × ℕ
numsub_of m channel = (channel, length (set_of channel m))

-- The loops of `remove_client`: the client leaves every name of the set taken out.
abbrev pub leave_each : ℤ → List Bytes → Map Bytes (List ℤ) → Map Bytes (List ℤ)
leave_each client_id [] m = m
leave_each client_id (name ∷ names) m = leave_each client_id names (leave name client_id m)

abbrev pub matching : (Bytes → Bytes → Bool) → Bytes → Map Bytes (List ℤ) → Map Bytes (List ℤ)
matching glob_match channel [] = []
matching glob_match channel ((p, subscribers) ∷ rest) =
    let others = matching glob_match channel rest in
    if glob_match p channel then (p, subscribers) ∷ others else others

abbrev pub is_none_or : (Bytes → Bytes → Bool) → Option Bytes → Bytes → Bool
is_none_or glob_match none name = true
is_none_or glob_match (some pat) name = glob_match pat name

abbrev pub keys_matching : (Bytes → Bytes → Bool) → Option Bytes → Map Bytes (List ℤ) → List Bytes
keys_matching glob_match pat [] = []
keys_matching glob_match pat ((name, set) ∷ m) =
    let rest = keys_matching glob_match pat m in
    if is_none_or glob_match pat name then name ∷ rest else rest

module _ {Tx : Type 0} where
  -- `new`, with the configuration's three limits
  unfoldable pub new : ℕ → ℕ → ℕ → PubSubState Tx
  new hard soft seconds = record {
    channels = [];
    shard_channels = [];
    patterns = [];
    client_channel_subs = [];
    client_shard_channel_subs = [];
    client_pattern_subs = [];
    subscriber_tx = [];
    hard_limit = hard;
    soft_limit = soft;
    soft_seconds = seconds;
  }

  unfoldable pub set_queue_limits : ℕ → ℕ → ℕ → PubSubState Tx → PubSubState Tx
  set_queue_limits hard soft seconds s = record s {
    hard_limit = hard;
    soft_limit = soft;
    soft_seconds = seconds;
  }

  -- `channel` is tokio's constructor of a queue of the given size.
  unfoldable pub register_client : (ℕ → Tx) → ℤ → PubSubState Tx → PubSubState Tx
  register_client channel client_id s = record s {
    subscriber_tx = insert client_id (channel (max s.hard_limit 1)) s.subscriber_tx;
  }

  unfoldable pub client_standard_subscriptions : ℤ → PubSubState Tx → ℕ
  client_standard_subscriptions client_id s =
      sat_add (length (set_of client_id s.client_channel_subs))
        (length (set_of client_id s.client_pattern_subs))

  unfoldable pub client_shard_subscriptions : ℤ → PubSubState Tx → ℕ
  client_shard_subscriptions client_id s = length (set_of client_id s.client_shard_channel_subs)

  unfoldable pub client_total_subscriptions : ℤ → PubSubState Tx → ℕ
  client_total_subscriptions client_id s =
      sat_add (client_standard_subscriptions client_id s) (client_shard_subscriptions client_id s)

  abbrev pub with_count : ℤ → PubSubState Tx → ℕ × PubSubState Tx
  with_count client_id s = (client_total_subscriptions client_id s, s)

  unfoldable pub subscribe_channel : ℤ → Bytes → PubSubState Tx → ℕ × PubSubState Tx
  subscribe_channel client_id channel s = with_count client_id (record s {
    channels = join channel client_id s.channels;
    client_channel_subs = join client_id channel s.client_channel_subs;
  })

  unfoldable pub subscribe_shard_channel : ℤ → Bytes → PubSubState Tx → ℕ × PubSubState Tx
  subscribe_shard_channel client_id channel s = with_count client_id (record s {
    shard_channels = join channel client_id s.shard_channels;
    client_shard_channel_subs = join client_id channel s.client_shard_channel_subs;
  })

  unfoldable pub subscribe_pattern : ℤ → Bytes → PubSubState Tx → ℕ × PubSubState Tx
  subscribe_pattern client_id pattern_of s = with_count client_id (record s {
    patterns = join pattern_of client_id s.patterns;
    client_pattern_subs = join client_id pattern_of s.client_pattern_subs;
  })

  unfoldable pub unsubscribe_channel : ℤ → Bytes → PubSubState Tx → ℕ × PubSubState Tx
  unsubscribe_channel client_id channel s = with_count client_id (record s {
    client_channel_subs = leave client_id channel s.client_channel_subs;
    channels = leave channel client_id s.channels;
  })

  unfoldable pub unsubscribe_shard_channel : ℤ → Bytes → PubSubState Tx → ℕ × PubSubState Tx
  unsubscribe_shard_channel client_id channel s = with_count client_id (record s {
    client_shard_channel_subs = leave client_id channel s.client_shard_channel_subs;
    shard_channels = leave channel client_id s.shard_channels;
  })

  unfoldable pub unsubscribe_pattern : ℤ → Bytes → PubSubState Tx → ℕ × PubSubState Tx
  unsubscribe_pattern client_id pattern_of s = with_count client_id (record s {
    client_pattern_subs = leave client_id pattern_of s.client_pattern_subs;
    patterns = leave pattern_of client_id s.patterns;
  })

  unfoldable pub client_channels : ℤ → PubSubState Tx → List Bytes
  client_channels client_id s = sort (set_of client_id s.client_channel_subs)

  unfoldable pub client_shard_channels : ℤ → PubSubState Tx → List Bytes
  client_shard_channels client_id s = sort (set_of client_id s.client_shard_channel_subs)

  unfoldable pub client_patterns : ℤ → PubSubState Tx → List Bytes
  client_patterns client_id s = sort (set_of client_id s.client_pattern_subs)

  unfoldable pub numsub : List Bytes → PubSubState Tx → List (Bytes × ℕ)
  numsub names s = map (numsub_of s.channels) names

  unfoldable pub shard_numsub : List Bytes → PubSubState Tx → List (Bytes × ℕ)
  shard_numsub names s = map (numsub_of s.shard_channels) names

  unfoldable pub channels_matching :
      (Bytes → Bytes → Bool) → Option Bytes → PubSubState Tx → List Bytes
  channels_matching glob_match pat s = sort (keys_matching glob_match pat s.channels)

  unfoldable pub shard_channels_matching :
      (Bytes → Bytes → Bool) → Option Bytes → PubSubState Tx → List Bytes
  shard_channels_matching glob_match pat s = sort (keys_matching glob_match pat s.shard_channels)

  unfoldable pub numpat : PubSubState Tx → ℕ
  numpat s = length s.patterns

  unfoldable pub client_has_subscriptions : ℤ → PubSubState Tx → Bool
  client_has_subscriptions client_id s = ltb 0 (client_total_subscriptions client_id s)

  -- The loops of `unsubscribe_all`, over names that are fixed before they begin.
  abbrev pub each :
      (Bytes → PubSubState Tx → ℕ × PubSubState Tx) → List Bytes → PubSubState Tx → PubSubState Tx
  each step [] s = s
  each step (name ∷ names) s = each step names (step name s).1

  unfoldable pub unsubscribe_all : ℤ → PubSubState Tx → PubSubState Tx
  unsubscribe_all client_id s =
      let s1 = each (unsubscribe_channel client_id) (client_channels client_id s) s in
      let s2 = each (unsubscribe_shard_channel client_id) (client_shard_channels client_id s1) s1 in
      each (unsubscribe_pattern client_id) (client_patterns client_id s2) s2

  unfoldable pub remove_client : ℤ → PubSubState Tx → PubSubState Tx
  remove_client client_id s = record s {
    client_channel_subs = remove client_id s.client_channel_subs;
    channels = leave_each client_id (set_of client_id s.client_channel_subs) s.channels;
    client_shard_channel_subs = remove client_id s.client_shard_channel_subs;
    shard_channels =
        leave_each client_id (set_of client_id s.client_shard_channel_subs) s.shard_channels;
    client_pattern_subs = remove client_id s.client_pattern_subs;
    patterns = leave_each client_id (set_of client_id s.client_pattern_subs) s.patterns;
    subscriber_tx = remove client_id s.subscriber_tx;
  }

  module _ (try_send : Tx → PubSubMessage → SendResult × Tx) where
    abbrev pub sent_to : ℤ → PubSubState Tx → SendResult × Tx → Bool × PubSubState Tx
    sent_to client_id s (sent, tx) =
        (true, record s { subscriber_tx = insert client_id tx s.subscriber_tx })
    sent_to client_id s (full, tx) =
        (false, record s { subscriber_tx = remove client_id s.subscriber_tx })
    sent_to client_id s (closed, tx) =
        (false, record s { subscriber_tx = remove client_id s.subscriber_tx })

    abbrev pub send_by : ℤ → PubSubMessage → PubSubState Tx → Option Tx → Bool × PubSubState Tx
    send_by client_id msg s none = (false, s)
    send_by client_id msg s (some tx) = sent_to client_id s (try_send tx msg)

    unfoldable pub send_to_client : ℤ → PubSubMessage → PubSubState Tx → Bool × PubSubState Tx
    send_to_client client_id msg s = send_by client_id msg s (lookup client_id s.subscriber_tx)

    -- The loop over subscribers, with the receivers counted so far.
    unfoldable pub deliver : PubSubMessage → List ℤ → ℕ → PubSubState Tx → ℕ × PubSubState Tx
    deliver msg [] receivers s = (receivers, s)
    deliver msg (client_id ∷ clients) receivers s =
        let r = send_to_client client_id msg s in
        deliver msg clients (if r.0 then receivers + 1 else receivers) r.1

    -- The loop over the patterns that match.
    unfoldable pub deliver_patterns :
        Bytes → Bytes → Map Bytes (List ℤ) → ℕ → PubSubState Tx → ℕ × PubSubState Tx
    unfolding deliver
    deliver_patterns channel payload [] receivers s = (receivers, s)
    deliver_patterns channel payload ((p, subscribers) ∷ rest) receivers s =
        let r = deliver (p_message p channel payload) subscribers receivers s in
        deliver_patterns channel payload rest r.0 r.1

    -- `glob_match` is that of the crate behind the conversion of both to text.
    unfoldable pub publish :
        (Bytes → Bytes → Bool) → Bytes → Bytes → PubSubState Tx → ℕ × PubSubState Tx
    publish glob_match channel payload s =
        let r = deliver (message channel payload) (set_of channel s.channels) 0 s in
        if is_empty r.1.patterns
        then r
        else deliver_patterns channel payload (matching glob_match channel r.1.patterns) r.0 r.1

    unfoldable pub publish_shard : Bytes → Bytes → PubSubState Tx → ℕ × PubSubState Tx
    publish_shard channel payload s =
        deliver (s_message channel payload) (set_of channel s.shard_channels) 0 s

    unfoldable pub enqueue_invalidation : ℤ → List Bytes → PubSubState Tx → Bool × PubSubState Tx
    enqueue_invalidation client_id keys s = send_to_client client_id (invalidate keys) s

    unfoldable pub enqueue_invalidation_message :
        ℤ → PubSubMessage → PubSubState Tx → Bool × PubSubState Tx
    enqueue_invalidation_message client_id msg s = send_to_client client_id msg s
