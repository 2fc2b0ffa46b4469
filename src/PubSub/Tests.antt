-- ===== src/PubSub/Tests.antt =====
-- Concrete runs of publish/subscribe. A sender is the number of messages that its queue still takes.
use ratatosk.Prelude.{ℕ, zero, suc, ◌≡◌, Bool, true, none, List, [], ◌∷◌}
use ratatosk.Prelude.Int.{pos, int_eq}
use ratatosk.Prelude.Eq.{list_eq}
use ratatosk.Prelude.Maps.{lookup}
use ratatosk.PubSub.{
  Bytes, PubSubMessage, SendResult, sent, full, PubSubState, new, remove_client, unsubscribe_all,
}
use ratatosk.PubSub.Consistent.{
  IsConsistent, Request, register, subscribe, subscribe_glob, unsubscribe, run_requests,
  run_requests-IsConsistent,
}
use ratatosk.PubSub.Departure.{Departed, remove_client-Departed, unsubscribe_all-Departed}

abbrev Tx : Type 0
Tx = ℕ

abbrev send_one : Tx → PubSubMessage → SendResult × Tx
send_one zero msg = (full, zero)
send_one (suc n) msg = (sent, n)

abbrev open_queue : ℕ → Tx
open_queue n = n

abbrev any : Bytes → Bytes → Bool
any p channel = true

abbrev news : Bytes
news = b'n' ∷ b'e' ∷ []

abbrev start : PubSubState Tx
start = new 2 1 60

abbrev requests : List Request
requests =
    register (pos 7)
    ∷ register (pos 8)
    ∷ subscribe (pos 7) news
    ∷ subscribe (pos 8) news
    ∷ subscribe_glob (pos 7) (b'*' ∷ [])
    ∷ unsubscribe (pos 8) news
    ∷ []

abbrev busy : PubSubState Tx
busy = run_requests open_queue send_one any requests start

run_requests-IsConsistent_example :
    IsConsistent (run_requests open_queue send_one any requests (new 2 1 60))
run_requests-IsConsistent_example =
    run_requests-IsConsistent open_queue send_one any 2 1 60 requests

busy-IsConsistent : IsConsistent busy
busy-IsConsistent = run_requests-IsConsistent open_queue send_one any 2 1 60 requests

remove_client-Departed_example :
    Departed (pos 7) busy (remove_client (pos 7) busy)
    × (lookup (pos 7) (remove_client (pos 7) busy).subscriber_tx ≡ none)
remove_client-Departed_example = remove_client-Departed (pos 7) busy busy-IsConsistent

unsubscribe_all-Departed_example :
    Departed (pos 7) busy (unsubscribe_all (pos 7) busy)
    × ((unsubscribe_all (pos 7) busy).subscriber_tx ≡ busy.subscriber_tx)
unsubscribe_all-Departed_example = unsubscribe_all-Departed (pos 7) busy busy-IsConsistent
