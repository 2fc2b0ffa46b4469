-- ===== src/PubSub/Departure.antt =====
-- What is left of a client of pubsub.rs that resets or disconnects.
use ratatosk.Prelude.{◌≡◌, refl, ap, ◌∙◌, arith, ◌&&◌, not, none, List, [], ◌∷◌}
use ratatosk.Prelude.Int.{ℤ, int_eq}
use ratatosk.Prelude.Eq.{list_eq}
use ratatosk.Prelude.Maps.{Map, lookup, lookup-remove_self}
use ratatosk.Prelude.Sets.{contains, set_of, joined}
use ratatosk.PubSub.Index.{TwoWay}
use ratatosk.PubSub.{
  Bytes, PubSubState, unsubscribe_channel, unsubscribe_shard_channel, unsubscribe_pattern, each,
  unsubscribe_all, client_channels, client_shard_channels, client_patterns, leave_each,
  remove_client,
}
use ratatosk.PubSub.Index.{joined-leave_each}
use ratatosk.PubSub.Consistent.{
  IsConsistent, each-IsConsistent, unsubscribe_channel-IsConsistent,
  unsubscribe_shard_channel-IsConsistent,
}
use ratatosk.Prelude.Sort.{sort, contains-sort}
use ratatosk.Prelude.Sets.{contains}

-- The client is in no set, and every other client is in the sets that it was in.
abbrev pub Without : ℤ → Map Bytes (List ℤ) → Map Bytes (List ℤ) → Type 0
Without client m m' =
    (n : Bytes) (c : ℤ) → joined n c m' ≡ (not (int_eq.beq client c) && joined n c m)

pub record Departed {Tx : Type 0} (client : ℤ) (s s' : PubSubState Tx) : Type 0 where
  pub left_channels : Without client s.channels s'.channels
  pub left_shard_channels : Without client s.shard_channels s'.shard_channels
  pub left_patterns : Without client s.patterns s'.patterns

-- Leaving all the names of the client's own set, in any order.
leave_each-Without :
    (client : ℤ) (names : List Bytes) (m : Map Bytes (List ℤ)) (w : Map ℤ (List Bytes))
    → TwoWay m w
    → ((n : Bytes) → contains n names ≡ joined client n w)
    → Without client m (leave_each client names m)
leave_each-Without client names m w t own n c =
    ground (arith, joined-leave_each client names m n c, own n, t n c, int_eq.beq_iff client c)

-- The same between two maps that are only equal to those.
through :
    (client : ℤ) {m m₁ m' : Map Bytes (List ℤ)} (names : List Bytes) (w : Map ℤ (List Bytes))
    → TwoWay m₁ w
    → names ≡ sort (set_of client w)
    → m₁ ≡ m
    → m' ≡ leave_each client names m₁
    → Without client m m'
through client {m} {m₁} {m'} names w t own before after n c =
    ap (joined n c) after
    ∙ leave_each-Without client names m₁ w t
        (λ i. ap (contains i) own ∙ contains-sort i (set_of client w)) n c
    ∙ ap (λ x. not (int_eq.beq client c) && joined n c x) before

module _ {Tx : Type 0} (client : ℤ) where
  -- The loops change one index each.
  each_channels :
      (names : List Bytes) (s : PubSubState Tx)
      → let s' = each (unsubscribe_channel client) names s in
        (s'.channels ≡ leave_each client names s.channels)
        × (s'.shard_channels ≡ s.shard_channels)
        × (s'.patterns ≡ s.patterns)
        × (s'.client_shard_channel_subs ≡ s.client_shard_channel_subs)
        × (s'.client_pattern_subs ≡ s.client_pattern_subs)
        × (s'.subscriber_tx ≡ s.subscriber_tx)
  unfolding unsubscribe_channel
  each_channels [] s = (refl, refl, refl, refl, refl, refl)
  each_channels (n ∷ names) s = each_channels names (unsubscribe_channel client n s).1

  each_shard :
      (names : List Bytes) (s : PubSubState Tx)
      → let s' = each (unsubscribe_shard_channel client) names s in
        (s'.channels ≡ s.channels)
        × (s'.shard_channels ≡ leave_each client names s.shard_channels)
        × (s'.patterns ≡ s.patterns)
        × (s'.client_pattern_subs ≡ s.client_pattern_subs)
        × (s'.subscriber_tx ≡ s.subscriber_tx)
  unfolding unsubscribe_shard_channel
  each_shard [] s = (refl, refl, refl, refl, refl)
  each_shard (n ∷ names) s = each_shard names (unsubscribe_shard_channel client n s).1

  each_patterns :
      (names : List Bytes) (s : PubSubState Tx)
      → let s' = each (unsubscribe_pattern client) names s in
        (s'.channels ≡ s.channels)
        × (s'.shard_channels ≡ s.shard_channels)
        × (s'.patterns ≡ leave_each client names s.patterns)
        × (s'.subscriber_tx ≡ s.subscriber_tx)
  unfolding unsubscribe_pattern
  each_patterns [] s = (refl, refl, refl, refl)
  each_patterns (n ∷ names) s = each_patterns names (unsubscribe_pattern client n s).1

  -- In a state whose indexes agree, a client that disconnects is taken out of every channel, shard channel and pattern, its sender
  -- is gone, and the subscriptions of all other clients stay.
  pub remove_client-Departed :
      (s : PubSubState Tx)
      → IsConsistent s
      → Departed client s (remove_client client s)
        × (lookup client (remove_client client s).subscriber_tx ≡ none)
  unfolding remove_client
  remove_client-Departed s h = (
    record {
      left_channels = leave_each-Without client _ _ _ h.channels_index.0 (λ n. refl);
      left_shard_channels = leave_each-Without client _ _ _ h.shard_index.0 (λ n. refl);
      left_patterns = leave_each-Without client _ _ _ h.patterns_index.0 (λ n. refl);
    },
    lookup-remove_self client s.subscriber_tx,
  )

  -- In a state whose indexes agree, a client that resets is taken out of every channel, shard channel and pattern; its sender and the
  -- subscriptions of all other clients stay.
  pub unsubscribe_all-Departed :
      (s : PubSubState Tx)
      → IsConsistent s
      → Departed client s (unsubscribe_all client s)
        × ((unsubscribe_all client s).subscriber_tx ≡ s.subscriber_tx)
  unfolding unsubscribe_all client_channels client_shard_channels client_patterns
  unsubscribe_all-Departed s h =
      let names = client_channels client s in
      let s₁ = each (unsubscribe_channel client) names s in
      let names₁ = client_shard_channels client s₁ in
      let s₂ = each (unsubscribe_shard_channel client) names₁ s₁ in
      let names₂ = client_patterns client s₂ in
      let h₁ =
        each-IsConsistent (unsubscribe_channel client) (unsubscribe_channel-IsConsistent client)
          names s h in
      let h₂ =
        each-IsConsistent (unsubscribe_shard_channel client)
          (unsubscribe_shard_channel-IsConsistent client) names₁ s₁ h₁ in
      let a = each_channels names s in
      let b = each_shard names₁ s₁ in
      let d = each_patterns names₂ s₂ in
      (
        record {
          left_channels =
              through client names s.client_channel_subs h.channels_index.0 refl refl
                (d.0 ∙ b.0 ∙ a.0);
          left_shard_channels =
              through client names₁ s₁.client_shard_channel_subs h₁.shard_index.0 refl a.1
                (d.1 ∙ b.1);
          left_patterns =
              through client names₂ s₂.client_pattern_subs h₂.patterns_index.0 refl (b.2 ∙ a.2) d.2;
        },
        d.3 ∙ b.4 ∙ a.5,
      )
