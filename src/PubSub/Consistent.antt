-- ===== src/PubSub/Consistent.antt =====
-- The two directions of each index of pubsub.rs agree, whatever is called.
use ratatosk.Prelude.{
  ℕ, sym, ap, ◌∙◌, arith, Bool, true, false, Option, none, some, List, [], ◌∷◌, if◌then◌else◌,
}
use ratatosk.Prelude.Int.{ℤ, int_eq}
use ratatosk.Prelude.Eq.{list_eq}
use ratatosk.Prelude.Maps.{Map, lookup, lookup-nil}
use ratatosk.Prelude.Sets.{is_empty, contains, or_empty, set_of}
use ratatosk.PubSub.Index.{IsIndex, join-IsIndex, leave-IsIndex, removed-IsIndex}
use ratatosk.PubSub.{
  message, s_message, invalidate, Bytes, PubSubMessage, SendResult, sent, full, closed, PubSubState,
  new, set_queue_limits, register_client, subscribe_channel, subscribe_shard_channel,
  subscribe_pattern, unsubscribe_channel, unsubscribe_shard_channel, unsubscribe_pattern, each,
  unsubscribe_all, client_channels, client_shard_channels, client_patterns, matching, remove_client,
  sent_to, send_by, send_to_client, deliver, deliver_patterns, publish, publish_shard,
  enqueue_invalidation,
}

module _ {Tx : Type 0} where
  -- Each of the three indexes is one.
  pub record IsConsistent (s : PubSubState Tx) : Type 0 where
    pub channels_index : IsIndex s.channels s.client_channel_subs
    pub shard_index : IsIndex s.shard_channels s.client_shard_channel_subs
    pub patterns_index : IsIndex s.patterns s.client_pattern_subs

  pub each-IsConsistent :
      (step : Bytes → PubSubState Tx → ℕ × PubSubState Tx)
      → ((n : Bytes) (s : PubSubState Tx) → IsConsistent s → IsConsistent (step n s).1)
      → (names : List Bytes) (s : PubSubState Tx) → IsConsistent s
      → IsConsistent (each step names s)
  each-IsConsistent step keeps [] s h = h
  each-IsConsistent step keeps (n ∷ names) s h =
      each-IsConsistent step keeps names (step n s).1 (keeps n s h)

  pub unsubscribe_channel-IsConsistent :
      (client : ℤ) (n : Bytes) (s : PubSubState Tx)
      → IsConsistent s
      → IsConsistent (unsubscribe_channel client n s).1
  unfolding unsubscribe_channel
  unsubscribe_channel-IsConsistent client n s h = record {
    channels_index = leave-IsIndex n client s.channels s.client_channel_subs h.channels_index;
    shard_index = h.shard_index;
    patterns_index = h.patterns_index;
  }

  pub unsubscribe_shard_channel-IsConsistent :
      (client : ℤ) (n : Bytes) (s : PubSubState Tx)
      → IsConsistent s
      → IsConsistent (unsubscribe_shard_channel client n s).1
  unfolding unsubscribe_shard_channel
  unsubscribe_shard_channel-IsConsistent client n s h = record {
    channels_index = h.channels_index;
    shard_index = leave-IsIndex n client s.shard_channels s.client_shard_channel_subs h.shard_index;
    patterns_index = h.patterns_index;
  }

  unsubscribe_pattern-IsConsistent :
      (client : ℤ) (n : Bytes) (s : PubSubState Tx)
      → IsConsistent s
      → IsConsistent (unsubscribe_pattern client n s).1
  unfolding unsubscribe_pattern
  unsubscribe_pattern-IsConsistent client n s h = record {
    channels_index = h.channels_index;
    shard_index = h.shard_index;
    patterns_index = leave-IsIndex n client s.patterns s.client_pattern_subs h.patterns_index;
  }

  unsubscribe_all-IsConsistent :
      (client : ℤ) (s : PubSubState Tx) → IsConsistent s → IsConsistent (unsubscribe_all client s)
  unfolding unsubscribe_all
  unsubscribe_all-IsConsistent client s h =
      let s1 = each (unsubscribe_channel client) (client_channels client s) s in
      let s2 = each (unsubscribe_shard_channel client) (client_shard_channels client s1) s1 in
      let h1 =
        each-IsConsistent (unsubscribe_channel client) (unsubscribe_channel-IsConsistent client)
          (client_channels client s) s h in
      let h2 =
        each-IsConsistent (unsubscribe_shard_channel client)
          (unsubscribe_shard_channel-IsConsistent client) (client_shard_channels client s1) s1 h1 in
      each-IsConsistent (unsubscribe_pattern client) (unsubscribe_pattern-IsConsistent client)
        (client_patterns client s2) s2 h2

  remove_client-IsConsistent :
      (client : ℤ) (s : PubSubState Tx) → IsConsistent s → IsConsistent (remove_client client s)
  unfolding remove_client
  remove_client-IsConsistent client s h = record {
    channels_index = removed-IsIndex client _ _ h.channels_index;
    shard_index = removed-IsIndex client _ _ h.shard_index;
    patterns_index = removed-IsIndex client _ _ h.patterns_index;
  }

  module _ (try_send : Tx → PubSubMessage → SendResult × Tx) where
    sent_to-IsConsistent :
        (client : ℤ) (s : PubSubState Tx) (r : SendResult × Tx)
        → IsConsistent s
        → IsConsistent (sent_to try_send client s r).1
    sent_to-IsConsistent client s (sent, tx) h = record {
      channels_index = h.channels_index;
      shard_index = h.shard_index;
      patterns_index = h.patterns_index;
    }
    sent_to-IsConsistent client s (full, tx) h = record {
      channels_index = h.channels_index;
      shard_index = h.shard_index;
      patterns_index = h.patterns_index;
    }
    sent_to-IsConsistent client s (closed, tx) h = record {
      channels_index = h.channels_index;
      shard_index = h.shard_index;
      patterns_index = h.patterns_index;
    }

    send_by-IsConsistent :
        (client : ℤ) (msg : PubSubMessage) (s : PubSubState Tx) (o : Option Tx)
        → IsConsistent s
        → IsConsistent (send_by try_send client msg s o).1
    send_by-IsConsistent client msg s none h = h
    send_by-IsConsistent client msg s (some tx) h =
        sent_to-IsConsistent client s (try_send tx msg) h

    deliver-IsConsistent :
        (msg : PubSubMessage) (clients : List ℤ) (n : ℕ) (s : PubSubState Tx)
        → IsConsistent s
        → IsConsistent (deliver try_send msg clients n s).1
    unfolding deliver send_to_client
    deliver-IsConsistent msg [] n s h = h
    deliver-IsConsistent msg (c ∷ clients) n s h =
        deliver-IsConsistent msg clients _ _
          (send_by-IsConsistent c msg s (lookup c s.subscriber_tx) h)

    deliver_patterns-IsConsistent :
        (channel payload : Bytes) (found : Map Bytes (List ℤ)) (n : ℕ) (s : PubSubState Tx)
        → IsConsistent s
        → IsConsistent (deliver_patterns try_send channel payload found n s).1
    unfolding deliver_patterns
    deliver_patterns-IsConsistent channel payload [] n s h = h
    deliver_patterns-IsConsistent channel payload ((p, subs) ∷ found) n s h =
        deliver_patterns-IsConsistent channel payload found _ _ (deliver-IsConsistent _ subs n s h)

-- Either branch of a test.
if-IsConsistent :
    {Tx : Type 0} (b : Bool) (x y : ℕ × PubSubState Tx)
    → IsConsistent x.1
    → IsConsistent y.1
    → IsConsistent (if b then x else y).1
if-IsConsistent true x y hx hy = hx
if-IsConsistent false x y hx hy = hy

module _ {Tx : Type 0} (try_send : Tx → PubSubMessage → SendResult × Tx)
    (glob_match : Bytes → Bytes → Bool) where
  publish-IsConsistent :
      (name payload : Bytes) (s : PubSubState Tx)
      → IsConsistent s
      → IsConsistent (publish try_send glob_match name payload s).1
  unfolding publish
  publish-IsConsistent name payload s h =
      let r = deliver try_send (message name payload) (set_of name s.channels) 0 s in
      let hr =
        deliver-IsConsistent try_send (message name payload) (set_of name s.channels) 0 s h in
      if-IsConsistent (is_empty r.1.patterns) r
        (deliver_patterns try_send name payload (matching glob_match name r.1.patterns) r.0 r.1) hr
        (deliver_patterns-IsConsistent try_send name payload (matching glob_match name r.1.patterns)
          r.0 r.1 hr)

-- The calls of the server's clients and of its command handlers.
pub data Request : Type 0 where
  set_limits : (hard soft seconds : ℕ) → Request
  register : ℤ → Request
  subscribe subscribe_shard subscribe_glob : ℤ → Bytes → Request
  unsubscribe unsubscribe_shard unsubscribe_glob : ℤ → Bytes → Request
  reset disconnect : ℤ → Request
  send send_shard : (channel payload : Bytes) → Request
  invalidate_keys : ℤ → List Bytes → Request

module _ {Tx : Type 0} (channel : ℕ → Tx) (try_send : Tx → PubSubMessage → SendResult × Tx)
    (glob_match : Bytes → Bytes → Bool) where
  unfoldable pub handle : Request → PubSubState Tx → PubSubState Tx
  handle (set_limits hard soft seconds) s = set_queue_limits hard soft seconds s
  handle (register client) s = register_client channel client s
  handle (subscribe client n) s = (subscribe_channel client n s).1
  handle (subscribe_shard client n) s = (subscribe_shard_channel client n s).1
  handle (subscribe_glob client n) s = (subscribe_pattern client n s).1
  handle (unsubscribe client n) s = (unsubscribe_channel client n s).1
  handle (unsubscribe_shard client n) s = (unsubscribe_shard_channel client n s).1
  handle (unsubscribe_glob client n) s = (unsubscribe_pattern client n s).1
  handle (reset client) s = unsubscribe_all client s
  handle (disconnect client) s = remove_client client s
  handle (send name payload) s = (publish try_send glob_match name payload s).1
  handle (send_shard name payload) s = (publish_shard try_send name payload s).1
  handle (invalidate_keys client keys) s = (enqueue_invalidation try_send client keys s).1

  handle-IsConsistent :
      (request : Request) (s : PubSubState Tx) → IsConsistent s → IsConsistent (handle request s)
  unfolding handle set_queue_limits register_client subscribe_channel subscribe_shard_channel
      subscribe_pattern enqueue_invalidation send_to_client publish_shard
  handle-IsConsistent (set_limits hard soft seconds) s h = record {
    channels_index = h.channels_index;
    shard_index = h.shard_index;
    patterns_index = h.patterns_index;
  }
  handle-IsConsistent (register client) s h = record {
    channels_index = h.channels_index;
    shard_index = h.shard_index;
    patterns_index = h.patterns_index;
  }
  handle-IsConsistent (subscribe client n) s h = record {
    channels_index = join-IsIndex n client s.channels s.client_channel_subs h.channels_index;
    shard_index = h.shard_index;
    patterns_index = h.patterns_index;
  }
  handle-IsConsistent (subscribe_shard client n) s h = record {
    channels_index = h.channels_index;
    shard_index = join-IsIndex n client s.shard_channels s.client_shard_channel_subs h.shard_index;
    patterns_index = h.patterns_index;
  }
  handle-IsConsistent (subscribe_glob client n) s h = record {
    channels_index = h.channels_index;
    shard_index = h.shard_index;
    patterns_index = join-IsIndex n client s.patterns s.client_pattern_subs h.patterns_index;
  }
  handle-IsConsistent (unsubscribe client n) s h = unsubscribe_channel-IsConsistent client n s h
  handle-IsConsistent (unsubscribe_shard client n) s h =
      unsubscribe_shard_channel-IsConsistent client n s h
  handle-IsConsistent (unsubscribe_glob client n) s h =
      unsubscribe_pattern-IsConsistent client n s h
  handle-IsConsistent (reset client) s h = unsubscribe_all-IsConsistent client s h
  handle-IsConsistent (disconnect client) s h = remove_client-IsConsistent client s h
  handle-IsConsistent (send name payload) s h =
      publish-IsConsistent try_send glob_match name payload s h
  handle-IsConsistent (send_shard name payload) s h =
      deliver-IsConsistent try_send (s_message name payload) (set_of name s.shard_channels) 0 s h
  handle-IsConsistent (invalidate_keys client keys) s h =
      send_by-IsConsistent try_send client (invalidate keys) s (lookup client s.subscriber_tx) h

  abbrev pub run_requests : List Request → PubSubState Tx → PubSubState Tx
  run_requests [] s = s
  run_requests (r ∷ requests) s = run_requests requests (handle r s)

  run_requests_lem :
      (requests : List Request) (s : PubSubState Tx)
      → IsConsistent s
      → IsConsistent (run_requests requests s)
  run_requests_lem [] s h = h
  run_requests_lem (r ∷ requests) s h =
      run_requests_lem requests (handle r s) (handle-IsConsistent r s h)

  new-IsIndex : IsIndex [] []
  unfolding contains
  new-IsIndex = (
    λ n c.
        ap (λ o. contains c (or_empty o)) (lookup-nil n)
        ∙ sym (ap (λ o. contains n (or_empty o)) (lookup-nil c)),
    λ k eq. ground (arith, lookup-nil {V = List ℤ} k),
    λ k eq. ground (arith, lookup-nil {V = List Bytes} k),
  )

  -- After any calls on a new state the two directions of each index agree, and neither has an empty
  -- set: a client is among the subscribers of a channel, shard channel or pattern exactly if that is
  -- among the client's own subscriptions.
  pub run_requests-IsConsistent :
      (hard soft seconds : ℕ) (requests : List Request)
      → IsConsistent (run_requests requests (new hard soft seconds))
  unfolding new
  run_requests-IsConsistent hard soft seconds requests =
      run_requests_lem requests (new hard soft seconds) (record {
        channels_index = new-IsIndex;
        shard_index = new-IsIndex;
        patterns_index = new-IsIndex;
      })
