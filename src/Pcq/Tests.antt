-- ===== src/Pcq/Tests.antt =====
-- Runs of the queue with room for two elements.
use so.Prelude.{
  ℕ, ◌+◌, ◌<◌, ◌≤◌, ◌≡◌, max, refl, true, false, Option, none, some, List, [], ◌∷◌, arith,
}
use so.Prelude.Int.{pos}
use so.Prelude.Run.{ok, fault, blocked}
use so.Pcq.{
  Queue, returned, pcq_create, pcq_enqueue, resume_enqueue, pcq_dequeue, enqueue_with, dequeue_with,
  store, insert, lock_pusher, lock_popper, remove_first, enqueues, dequeues, Steps, none_taken,
  then_step,
}
use so.Pcq.Bounds.{IsQueue, Enqueued, Dequeued, enqueue_with-Enqueued, dequeue_with-Dequeued}
use so.Pcq.Lifetime.{inserts, removes, Steps-Counted, inserts-lt, pcq_enqueue-faults}
use so.Pcq.Locks.{resume_enqueue-blocks}

abbrev memory : List (Option ℕ)
memory = some 7 ∷ some 8 ∷ []

abbrev new_queue : Queue ℕ
new_queue = record {
  pcq_buffer = memory;
  pcq_capacity = 2;
  pcq_current_size = 0;
  pcq_head = 0;
  pcq_tail = 0;
  pusher_locked = false;
  popper_locked = false;
}

abbrev one_in : Queue ℕ
one_in = record new_queue { pcq_buffer = some 1 ∷ some 8 ∷ []; pcq_current_size = 1; pcq_tail = 1 }

abbrev one_out : Queue ℕ
one_out = record one_in { pcq_current_size = 0; pcq_head = 1 }

put : pcq_enqueue 1 new_queue ≡ ok (returned (pos 0)) one_in
unfolding enqueue_with lock_pusher insert store
put = refl

take_out : pcq_dequeue one_in ≡ ok (returned none) one_out
unfolding dequeue_with lock_popper remove_first
take_out = refl

abbrev in_and_out : Steps new_queue one_out
in_and_out = then_step (then_step none_taken (enqueues 1 put)) (dequeues take_out)

made : pcq_create (some memory) true 2 one_out ≡ ok (pos 0) new_queue
unfolding pcq_create
made = refl

is_queue : IsQueue new_queue
is_queue = record {
  buffer = refl;
  small = omega arith;
  size = omega arith;
  head = λ h. h;
  tail = omega arith;
  inserted = omega arith;
}

counted_one : inserts in_and_out ≡ 1
unfolding inserts
counted_one = refl

enqueue_with-Enqueued_example : Enqueued new_queue is_queue true 1 (pcq_enqueue 1 new_queue)
enqueue_with-Enqueued_example = enqueue_with-Enqueued new_queue is_queue true 1

dequeue_with-Dequeued_example : Dequeued new_queue is_queue true (pcq_dequeue new_queue)
dequeue_with-Dequeued_example = dequeue_with-Dequeued new_queue is_queue true

Steps-Counted_example :
    IsQueue one_out
    × (one_out.pcq_capacity ≡ new_queue.pcq_capacity)
    × (one_out.pcq_tail ≡ 0 + inserts in_and_out)
    × (0 + removes in_and_out ≡ 0 + inserts in_and_out)
Steps-Counted_example = Steps-Counted new_queue one_out in_and_out is_queue

inserts-lt_example :
    (inserts in_and_out < max 2 2) × (0 + removes in_and_out ≡ inserts in_and_out) × (0 ≤ 2)
inserts-lt_example =
    inserts-lt memory true 2 one_out new_queue one_out refl (omega arith) made in_and_out

pcq_enqueue-faults_example : pcq_enqueue 5 one_out ≡ fault
pcq_enqueue-faults_example =
    pcq_enqueue-faults memory true 2 one_out new_queue one_out refl (omega arith) made in_and_out 5
      (omega (arith, counted_one)) (omega (arith, counted_one)) refl (omega arith)

abbrev left_locked : Queue ℕ
left_locked = record one_in { pusher_locked = true }

resumed : resume_enqueue 1 new_queue ≡ ok (returned (pos 0)) left_locked
unfolding enqueue_with lock_pusher insert store
resumed = refl

taken_then : pcq_dequeue left_locked ≡ ok (returned none) (record one_out { pusher_locked = true })
unfolding dequeue_with lock_popper remove_first
taken_then = refl

resume_enqueue-blocks_example : pcq_enqueue 2 (record one_out { pusher_locked = true }) ≡ blocked
resume_enqueue-blocks_example =
    resume_enqueue-blocks 1 2 new_queue left_locked (record one_out { pusher_locked = true })
      is_queue resumed (then_step none_taken (dequeues taken_then))
