-- ===== src/Shm/Tests.antt =====
-- Concrete runs of the ring.
use native.Mathlib.Omega.{arith}
use ratatosk.Prelude.{◌-◌, ◌^◌, ◌≡◌, refl, some, List, [], ◌∷◌}
use ratatosk.Shm.Ring.{RingView, Producer, Consumer, push, pop, push_checked}
use ratatosk.Shm.Ring.Refine.{IsRing, contents}
use ratatosk.Shm.Ring.Queue.{Pushes, Pops, push-enqueue, pop-dequeue}
use ratatosk.Shm.Ring.Run.{Call, push_call, pop_call, run, run_queue, run-run_queue}
use ratatosk.Shm.Ring.InRange.{push_checked-push}
use ratatosk.Shm.Ring.Hostile.{PushIsSafe, PopIsSafe, push-PushIsSafe, pop-PopIsSafe}

-- A ring of four bytes, one byte of which is in use and whose indices are about to wrap.
abbrev near_wrap : RingView
near_wrap = record {
  tail = 2 ^ 64 - 1;
  head = 2 ^ 64 - 2;
  consumer_parked = 0;
  producer_parked = 0;
  bytes = 10 ∷ 11 ∷ 12 ∷ 13 ∷ [];
}

abbrev near_producer : Producer
near_producer = record { tail = 2 ^ 64 - 1 }

abbrev near_consumer : Consumer
near_consumer = record { head = 2 ^ 64 - 2 }

near_IsRing : IsRing 2 near_producer near_consumer near_wrap
near_IsRing = record {
  small = omega arith;
  storage = refl;
  tail_in = omega arith;
  head_in = omega arith;
  tail_published = refl;
  head_published = refl;
  fits = omega arith;
}

push-enqueue_example :
    Pushes 2 near_consumer
      (contents near_producer near_consumer near_wrap)
      (1 ∷ 2 ∷ 3 ∷ 4 ∷ [])
      (push near_producer near_wrap (1 ∷ 2 ∷ 3 ∷ 4 ∷ []))
push-enqueue_example = push-enqueue near_IsRing (1 ∷ 2 ∷ 3 ∷ 4 ∷ [])

pop-dequeue_example :
    Pops 2 near_producer
      (contents near_producer near_consumer near_wrap)
      3
      (pop near_consumer near_wrap 3)
pop-dequeue_example = pop-dequeue near_IsRing 3

abbrev calls : List Call
calls = push_call (1 ∷ 2 ∷ []) ∷ pop_call 2 ∷ push_call (3 ∷ 4 ∷ 5 ∷ []) ∷ pop_call 9 ∷ []

run-run_queue_example :
    run calls near_producer near_consumer near_wrap
    ≡ run_queue (2 ^ 2) calls (contents near_producer near_consumer near_wrap)
run-run_queue_example = run-run_queue calls near_IsRing

-- Control words that no honest peer writes.
abbrev torn : RingView
torn = record {
  tail = 77;
  head = 5;
  consumer_parked = 0;
  producer_parked = 9;
  bytes = 10 ∷ 11 ∷ 12 ∷ 13 ∷ [];
}

push-PushIsSafe_example : PushIsSafe near_producer torn (1 ∷ []) (push near_producer torn (1 ∷ []))
push-PushIsSafe_example = push-PushIsSafe near_producer torn (1 ∷ [])

pop-PopIsSafe_example : PopIsSafe near_consumer torn 8 (pop near_consumer torn 8)
pop-PopIsSafe_example = pop-PopIsSafe near_consumer torn 8

push_checked-push_example :
    push_checked near_producer near_wrap (7 ∷ 8 ∷ [])
    ≡ some (push near_producer near_wrap (7 ∷ 8 ∷ []))
push_checked-push_example = push_checked-push 2 near_producer near_wrap (7 ∷ 8 ∷ []) refl
