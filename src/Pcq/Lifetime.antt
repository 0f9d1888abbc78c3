-- ===== src/Pcq/Lifetime.antt =====
-- What any sequence of calls does to a queue, from `pcq_create` on.
use so.Prelude.{
  ℕ, not, ◌+◌, ◌^◌, ◌≤◌, ◌<◌, ◌≡◌, refl, inl, inr, true, false, Bool, Option, some, List, length,
  max, arith, subst, ◌∙◌,
}
use so.Prelude.Int.{pos}
use so.Prelude.Run.{ok, fault}
use so.Prelude.Returns.{Returns, returns, result_of, IfOk}
use so.Pcq.{
  Queue, Ended, returned, waits, pcq_create, pcq_enqueue, enqueue_with, dequeue_with, Step,
  enqueues, resumes_enqueue, dequeues, resumes_dequeue, Steps, none_taken, then_step,
}
use so.Pcq.Bounds.{
  IsQueue, Enqueued, Dequeued, enqueue_with-Enqueued, dequeue_with-Dequeued, inserted-IsQueue,
  removed-IsQueue,
}

-- How many elements a call has inserted, and how many it has removed.
abbrev pub ended_count : {B : Type 0} → Ended B → ℕ
ended_count (returned a) = 1
ended_count waits = 0

module _ {A : Type 0} where
  abbrev pub step_inserts : {q q' : Queue A} → Step q q' → ℕ
  step_inserts (enqueues {e = e} elem h) = ended_count e
  step_inserts (resumes_enqueue {e = e} elem h) = ended_count e
  step_inserts (dequeues h) = 0
  step_inserts (resumes_dequeue h) = 0

  abbrev pub step_removes : {q q' : Queue A} → Step q q' → ℕ
  step_removes (enqueues elem h) = 0
  step_removes (resumes_enqueue elem h) = 0
  step_removes (dequeues {e = e} h) = ended_count e
  step_removes (resumes_dequeue {e = e} h) = ended_count e

  unfoldable pub inserts : {q q' : Queue A} → Steps q q' → ℕ
  inserts none_taken = 0
  inserts (then_step before step) = inserts before + step_inserts step

  unfoldable pub removes : {q q' : Queue A} → Steps q q' → ℕ
  removes none_taken = 0
  removes (then_step before step) = removes before + step_removes step

module _ {A : Type 0} where
  -- What a call does to the counters.
  abbrev Counted : Queue A → Queue A → ℕ → ℕ → Type 0
  Counted q q' put taken =
      IsQueue q'
      × (q'.pcq_capacity ≡ q.pcq_capacity)
      × (q'.pcq_tail ≡ q.pcq_tail + put)
      × (q'.pcq_current_size + taken ≡ q.pcq_current_size + put)

  enqueue-Counted :
      (q : Queue A) (b : Bool) (elem : A)
      → IsQueue q
      → IfOk (λ e q'. Counted q q' (ended_count e) 0) (enqueue_with b elem q)
  enqueue-Counted q b elem inv = go (enqueue_with-Enqueued q inv b elem)
    where
      go :
          Enqueued q inv b elem (enqueue_with b elem q)
          → IfOk (λ e q'. Counted q q' (ended_count e) 0) (enqueue_with b elem q)
      go (inl (held, r)) = rw r tt
      go (inr (inl (free, full, r))) = rw r (inv, refl, omega arith, omega arith)
      go (inr (inr (inl (free, room, inside, r)))) =
          rw r (inserted-IsQueue q inv (not b) elem room inside, refl, refl, omega arith)
      go (inr (inr (inr (free, room, outside, r)))) = rw r tt

  dequeue-Counted :
      (q : Queue A) (b : Bool)
      → IsQueue q
      → IfOk (λ e q'. Counted q q' 0 (ended_count e)) (dequeue_with b q)
  dequeue-Counted q b inv = go (dequeue_with-Dequeued q inv b)
    where
      go :
          Dequeued q inv b (dequeue_with b q)
          → IfOk (λ e q'. Counted q q' 0 (ended_count e)) (dequeue_with b q)
      go (inl (held, r)) = rw r tt
      go (inr (inl (free, empty, r))) = rw r (inv, refl, omega arith, omega arith)
      go (inr (inr (free, some_there, r))) =
          rw r (removed-IsQueue q inv (not b) some_there, refl, omega arith, omega arith)

  Step-Counted :
      {q q' : Queue A} (step : Step q q')
      → IsQueue q
      → Counted q q' (step_inserts step) (step_removes step)
  Step-Counted (enqueues elem h) inv = subst (IfOk _) h (enqueue-Counted _ true elem inv)
  Step-Counted (resumes_enqueue elem h) inv = subst (IfOk _) h (enqueue-Counted _ false elem inv)
  Step-Counted (dequeues h) inv = subst (IfOk _) h (dequeue-Counted _ true inv)
  Step-Counted (resumes_dequeue h) inv = subst (IfOk _) h (dequeue-Counted _ false inv)

  -- From a queue within its bounds, any sequence of calls that return or wait leaves one within its
  -- bounds and of the same capacity, with `pcq_tail` more by the elements inserted, and
  -- `pcq_current_size` more by those inserted and less by those removed.
  pub Steps-Counted :
      (q q' : Queue A) (steps : Steps q q')
      → IsQueue q
      → IsQueue q'
        × (q'.pcq_capacity ≡ q.pcq_capacity)
        × (q'.pcq_tail ≡ q.pcq_tail + inserts steps)
        × (q'.pcq_current_size + removes steps ≡ q.pcq_current_size + inserts steps)
  unfolding inserts removes
  Steps-Counted q _ none_taken inv = (inv, refl, omega arith, omega arith)
  Steps-Counted q q' (then_step {q' = mid} before step) inv =
      let (inv', capacity, tail, size) = Steps-Counted q mid before inv in
      let (inv'', capacity', tail', size') = Step-Counted step inv' in
      (inv'', capacity' ∙ capacity, omega arith, omega arith)

  -- The new queue.
  pub pcq_create-IsQueue :
      (buffer : List (Option A)) (inits : Bool) (capacity : ℕ) (q0 : Queue A)
      → length buffer ≡ capacity
      → capacity < 2 ^ 60
      → Returns
          (λ r q.
            IsQueue q × (q.pcq_tail ≡ 0) × (q.pcq_current_size ≡ 0) × (q.pcq_capacity ≡ capacity))
          (pcq_create (some buffer) inits capacity q0)
  unfolding pcq_create
  pcq_create-IsQueue buffer inits capacity q0 same small = returns (
    record {
      buffer = same;
      small = small;
      size = omega arith;
      head = λ some_slots. some_slots;
      tail = omega arith;
      inserted = omega arith;
    },
    refl,
    refl,
    refl,
  )

  module _ (buffer : List (Option A)) (inits : Bool) (capacity : ℕ) (q0 q q' : Queue A)
      (same : length buffer ≡ capacity) (small : capacity < 2 ^ 60)
      (create : pcq_create (some buffer) inits capacity q0 ≡ ok (pos 0) q)
      (steps : Steps q q') where
    counted :
        IsQueue q'
        × (q'.pcq_capacity ≡ capacity)
        × (q'.pcq_tail ≡ inserts steps)
        × (q'.pcq_current_size + removes steps ≡ inserts steps)
    counted =
        let (inv, no_tail, no_size, slots) =
          result_of (pos 0) q
            (subst (Returns _) create (pcq_create-IsQueue buffer inits capacity q0 same small)) in
        let (inv', capacity', tail, size) = Steps-Counted q q' steps inv in
        (inv', capacity' ∙ slots, omega arith, omega arith)

    -- From a `pcq_create` that returns 0, with an array of `capacity` slots, fewer than 2^60, any
    -- sequence of calls that return or wait has inserted fewer than max(2, capacity) elements,
    -- whatever was removed; the queue holds those inserted and not removed, at most `capacity`.
    pub inserts-lt :
        (inserts steps < max 2 capacity)
        × (q'.pcq_current_size + removes steps ≡ inserts steps)
        × (q'.pcq_current_size ≤ capacity)
    inserts-lt =
        let (inv', capacity', tail, size) = counted in
        (omega (arith, inv'.tail), size, omega (arith, inv'.size))

    -- From a `pcq_create` that returns 0, with an array of `capacity` slots, fewer than 2^60, after
    -- any sequence of calls that has inserted at least one element and at least `capacity - 1`, a
    -- `pcq_enqueue` that finds its mutex free and the queue not full writes out of the buffer's
    -- bounds.
    pub pcq_enqueue-faults :
        (elem : A)
        → 0 < inserts steps
        → capacity ≤ inserts steps + 1
        → q'.pusher_locked ≡ false
        → q'.pcq_current_size < capacity
        → pcq_enqueue elem q' ≡ fault
    pcq_enqueue-faults elem used_up last free room =
        let (inv', capacity', tail, size) = counted in
        go inv' capacity' tail (enqueue_with-Enqueued q' inv' true elem)
      where
        go :
            (inv' : IsQueue q')
            → q'.pcq_capacity ≡ capacity
            → q'.pcq_tail ≡ inserts steps
            → Enqueued q' inv' true elem (pcq_enqueue elem q')
            → pcq_enqueue elem q' ≡ fault
        go inv' capacity' tail (inl (held, r)) = absurd (let no = held in cc)
        go inv' capacity' tail (inr (inl (free', full, r))) = absurd (omega arith)
        go inv' capacity' tail (inr (inr (inl (free', room', inside, r)))) = absurd (ground arith)
        go inv' capacity' tail (inr (inr (inr (free', room', outside, r)))) = r
