-- ===== src/Shm/Ring/Run.antt =====
-- Any sequence of calls on the ring of ring.rs, and calls on a ring whose control words are arbitrary.
use ratatosk.Prelude.{ℕ, ◌^◌, ◌≡◌, refl, ap, ap₂, ◌∙◌, List, [], ◌∷◌, take, drop}
use ratatosk.Shm.Ring.{Checked, ok, RingView, Producer, Consumer, push, pop}
use ratatosk.Shm.Ring.Refine.{IsRing, contents}
use ratatosk.Shm.Ring.Queue.{accepted, enqueue, push-enqueue, pop-dequeue}

pub data Call : Type 0 where
  push_call : List ℕ → Call
  pop_call : ℕ → Call

pub data Outcome : Type 0 where
  pushed : Checked ℕ → Outcome
  popped : Checked (List ℕ) → Outcome

-- What the calls of both ends return, in the order in which they are made.
unfoldable pub run : List Call → Producer → Consumer → RingView → List Outcome
run [] p c v = []
run (push_call src ∷ calls) p c v = let s = push p v src in pushed s.0 ∷ run calls s.1 c s.2
run (pop_call room ∷ calls) p c v = let s = pop c v room in popped s.0 ∷ run calls p s.1 s.2

-- The same calls on the queue.
unfoldable pub run_queue : ℕ → List Call → List ℕ → List Outcome
run_queue cap [] q = []
run_queue cap (push_call src ∷ calls) q =
    pushed (ok (accepted cap q src)) ∷ run_queue cap calls (enqueue cap q src)
run_queue cap (pop_call room ∷ calls) q =
    popped (ok (take room q)) ∷ run_queue cap calls (drop room q)

-- From an uncorrupted ring, however the two ends interleave their calls, the ring answers as the bounded queue does: every
-- byte comes out once, in the order in which it went in, and no call reports corruption.
pub run-run_queue :
    {k : ℕ} (calls : List Call) {p : Producer} {c : Consumer} {v : RingView}
    → IsRing k p c v
    → run calls p c v ≡ run_queue (2 ^ k) calls (contents p c v)
unfolding run run_queue
run-run_queue [] r = refl
run-run_queue {k} (push_call src ∷ calls) r =
    let h = push-enqueue r src in
    ap₂ ◌∷◌ (ap pushed h.0) (run-run_queue calls h.1 ∙ ap (run_queue (2 ^ k) calls) h.2)
run-run_queue {k} (pop_call room ∷ calls) r =
    let h = pop-dequeue r room in
    ap₂ ◌∷◌ (ap popped h.0) (run-run_queue calls h.1 ∙ ap (run_queue (2 ^ k) calls) h.2)
