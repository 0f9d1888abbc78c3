-- ===== src/Pcq/Locks.antt =====
-- About the mutex of the pushers in producer-consumer/producer-consumer.c.
use so.Prelude.{◌≡◌, refl, ◌∙◌, ◌⊎◌, inl, inr, true, false, Bool, subst, Bool-cases, ◌==◌}
use so.Prelude.Int.{pos}
use so.Prelude.Run.{ok, blocked}
use so.Prelude.Returns.{IfOk}
use so.Pcq.{
  Queue, returned, pcq_enqueue, resume_enqueue, enqueue_with, dequeue_with, Step, enqueues,
  resumes_enqueue, dequeues, resumes_dequeue, Steps, none_taken, then_step, lock_pusher,
  lock_popper, remove_first,
}
use so.Pcq.Bounds.{IsQueue, Enqueued, enqueue_with-Enqueued}

module _ {A : Type 0} where
  locked-enqueue :
      (b : Bool) (elem : A) (q : Queue A) → q.pusher_locked ≡ true → enqueue_with b elem q ≡ blocked
  unfolding enqueue_with lock_pusher
  locked-enqueue b elem q held = rw held

  dequeue-keeps :
      (b : Bool) (q : Queue A)
      → IfOk (λ e q'. q'.pusher_locked ≡ q.pusher_locked) (dequeue_with b q)
  unfolding dequeue_with lock_popper remove_first
  dequeue-keeps b q = go b (Bool-cases q.popper_locked) (Bool-cases (q.pcq_current_size == 0))
    where
      go :
          (b : Bool)
          → (q.popper_locked ≡ true) ⊎ (q.popper_locked ≡ false)
          → ((q.pcq_current_size == 0) ≡ true) ⊎ ((q.pcq_current_size == 0) ≡ false)
          → IfOk (λ e q'. q'.pusher_locked ≡ q.pusher_locked) (dequeue_with b q)
      go b (inl held) empty = rw held tt
      go b (inr free) (inl empty) = rw (free, empty) refl
      go true (inr free) (inr some_there) = rw (free, some_there) refl
      go false (inr free) (inr some_there) = rw (free, some_there) refl

  Step-locked : {q q' : Queue A} → Step q q' → q.pusher_locked ≡ true → q'.pusher_locked ≡ true
  Step-locked (enqueues {q = q} elem h) held =
      absurd (let stuck = locked-enqueue true elem q held in cc)
  Step-locked (resumes_enqueue {q = q} elem h) held =
      absurd (let stuck = locked-enqueue false elem q held in cc)
  Step-locked (dequeues h) held = subst (IfOk _) h (dequeue-keeps true _) ∙ held
  Step-locked (resumes_dequeue h) held = subst (IfOk _) h (dequeue-keeps false _) ∙ held

  Steps-locked : (q q' : Queue A) → Steps q q' → q.pusher_locked ≡ true → q'.pusher_locked ≡ true
  Steps-locked q _ none_taken held = held
  Steps-locked q q' (then_step {q' = mid} before step) held =
      Step-locked step (Steps-locked q mid before held)

  resumed-locked :
      (elem : A) (q : Queue A)
      → IsQueue q
      → IfOk (λ e q'. (e ≡ returned (pos 0)) → q'.pusher_locked ≡ true) (resume_enqueue elem q)
  resumed-locked elem q inv = go (enqueue_with-Enqueued q inv false elem)
    where
      go :
          Enqueued q inv false elem (resume_enqueue elem q)
          → IfOk (λ e q'. (e ≡ returned (pos 0)) → q'.pusher_locked ≡ true) (resume_enqueue elem q)
      go (inl (held, r)) = rw r tt
      go (inr (inl (free, full, r))) = rw r (λ wrong. absurd (let no = wrong in cc))
      go (inr (inr (inl (free, room, inside, r)))) = rw r (λ e. refl)
      go (inr (inr (inr (free, room, outside, r)))) = rw r tt

  -- On a queue within its bounds, once a `pcq_enqueue` that was woken returns, every later
  -- `pcq_enqueue` waits for ever for the mutex, whatever calls come in between.
  pub resume_enqueue-blocks :
      (elem elem' : A) (q q' q'' : Queue A)
      → IsQueue q
      → resume_enqueue elem q ≡ ok (returned (pos 0)) q'
      → Steps q' q''
      → pcq_enqueue elem' q'' ≡ blocked
  resume_enqueue-blocks elem elem' q q' q'' inv resumed steps =
      locked-enqueue true elem' q''
        (Steps-locked q' q'' steps (subst (IfOk _) resumed (resumed-locked elem q inv) refl))
