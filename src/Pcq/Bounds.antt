-- ===== src/Pcq/Bounds.antt =====
-- What the calls of the queue do to a queue whose buffer has its capacity, and what stays in bounds.
use so.Prelude.{
  ℕ, not, ◌+◌, ◌-◌, ◌%◌, ◌^◌, ◌≤◌, ◌<◌, max, ◌≡◌, refl, ap, ◌∙◌, ◌⊎◌, inl, inr, Bool, true, false,
  Option, none, some, length, set, length-set, arith, ltb, lt→ltb, le→ltb, ◌==◌, Bool-cases,
  if◌then◌else◌,
}
use native.Mathlib.Decide.{dec_lt}
use so.Prelude.Int.{ℤ, pos}
use so.Prelude.Run.{Run, ok, blocked, fault, and_then, pure}
use so.Pcq.{
  Queue, Ended, returned, waits, next_size, store, insert, set_pusher, set_popper, lock_pusher,
  lock_popper, enqueue_with, remove_first, dequeue_with,
}

-- The buffer has a slot for each of the `pcq_capacity` elements, `pcq_current_size` and the two
-- indices stay within it, and no more elements are in the queue than were ever inserted.
pub record IsQueue {A : Type 0} (q : Queue A) : Type 0 where
  pub buffer : length q.pcq_buffer ≡ q.pcq_capacity
  pub small : q.pcq_capacity < 2 ^ 60
  pub size : q.pcq_current_size ≤ q.pcq_capacity
  pub head : 0 < q.pcq_capacity → q.pcq_head < q.pcq_capacity
  pub tail : q.pcq_tail < max 2 q.pcq_capacity
  pub inserted : q.pcq_current_size ≤ q.pcq_tail

module _ {A : Type 0} (q : Queue A) where
  -- The slot of the next element.
  abbrev pub next_slot : ℕ
  next_slot = if q.pcq_tail == 0 then 0 else q.pcq_tail + 1

  abbrev pub inserted_at : Bool → A → Queue A
  inserted_at locked elem = record q {
    pcq_buffer = set q.pcq_buffer next_slot (some elem);
    pcq_tail = q.pcq_tail + 1;
    pcq_current_size = q.pcq_current_size + 1;
    pusher_locked = locked;
  }

  abbrev pub removed : Bool → Queue A
  removed locked = record q {
    pcq_current_size = q.pcq_current_size - 1;
    pcq_head = if (q.pcq_head + 1) == q.pcq_capacity then 0 else q.pcq_head + 1;
    popper_locked = locked;
  }

  module _ (inv : IsQueue q) where
    tail_next : next_size q.pcq_tail ≡ q.pcq_tail + 1
    tail_next = omega (arith, inv.small, inv.tail)

    size_next : next_size q.pcq_current_size ≡ q.pcq_current_size + 1
    size_next = omega (arith, inv.small, inv.size)

    insert-ok :
        (locked : Bool) (elem : A)
        → next_slot < q.pcq_capacity
        → insert elem (record q { pusher_locked = locked }) ≡ ok tt (inserted_at locked elem)
    unfolding insert store
    insert-ok locked elem h = go (Bool-cases (q.pcq_tail == 0))
      where
        go :
            ((q.pcq_tail == 0) ≡ true) ⊎ ((q.pcq_tail == 0) ≡ false)
            → insert elem (record q { pusher_locked = locked }) ≡ ok tt (inserted_at locked elem)
        go (inl first) =
            let zero_tail : q.pcq_tail ≡ 0 = ground arith in
            let some_slots : 0 < q.pcq_capacity = ground arith in
            let not_last : (q.pcq_tail == q.pcq_capacity) ≡ false = ground arith in
            let inside : ltb q.pcq_tail (length q.pcq_buffer) ≡ true =
              lt→ltb q.pcq_tail (length q.pcq_buffer) (omega (arith, inv.buffer)) in
            rw (first, not_last, inside, tail_next, size_next)
              (ap
                (λ t. ok tt (record q {
                  pcq_buffer = set q.pcq_buffer t (some elem);
                  pcq_tail = q.pcq_tail + 1;
                  pcq_current_size = q.pcq_current_size + 1;
                  pusher_locked = locked;
                }))
                zero_tail)
        go (inr later) =
            let below : q.pcq_tail + 1 < q.pcq_capacity = ground arith in
            let not_last : ((q.pcq_tail + 1) == q.pcq_capacity) ≡ false = ground arith in
            let inside : ltb (q.pcq_tail + 1) (length q.pcq_buffer) ≡ true =
              lt→ltb (q.pcq_tail + 1) (length q.pcq_buffer) (omega (arith, inv.buffer)) in
            rw (later, tail_next, size_next, not_last, inside)

    insert-fault :
        (locked : Bool) (elem : A)
        → q.pcq_capacity ≤ next_slot
        → insert elem (record q { pusher_locked = locked }) ≡ fault
    unfolding insert store
    insert-fault locked elem h = go (Bool-cases (q.pcq_tail == 0))
      where
        go :
            ((q.pcq_tail == 0) ≡ true) ⊎ ((q.pcq_tail == 0) ≡ false)
            → insert elem (record q { pusher_locked = locked }) ≡ fault
        go (inl first) =
            let no_slots : q.pcq_capacity ≡ 0 = ground arith in
            let last : (q.pcq_tail == q.pcq_capacity) ≡ true = ground arith in
            let outside : ltb q.pcq_tail (length q.pcq_buffer) ≡ false =
              le→ltb q.pcq_tail (length q.pcq_buffer) (omega (arith, inv.buffer)) in
            rw (first, last, outside)
        go (inr later) =
            let behind : q.pcq_capacity ≤ q.pcq_tail + 1 = ground arith in
            let outside : ltb (q.pcq_tail + 1) (length q.pcq_buffer) ≡ false =
              le→ltb (q.pcq_tail + 1) (length q.pcq_buffer) (omega (arith, inv.buffer)) in
            fails outside (Bool-cases ((q.pcq_tail + 1) == q.pcq_capacity))
          where
            fails :
                ltb (q.pcq_tail + 1) (length q.pcq_buffer) ≡ false
                → (((q.pcq_tail + 1) == q.pcq_capacity) ≡ true)
                  ⊎ (((q.pcq_tail + 1) == q.pcq_capacity) ≡ false)
                → insert elem (record q { pusher_locked = locked }) ≡ fault
            fails outside (inl last) = rw (later, tail_next, last, outside)
            fails outside (inr past) = rw (later, tail_next, past, outside)

    -- The four ways in which `pcq_enqueue`, called or woken, can end.
    abbrev pub Enqueued : Bool → A → Run (Queue A) (Ended ℤ) → Type 0
    Enqueued should_unlock elem r =
        ((q.pusher_locked ≡ true) × (r ≡ blocked))
        ⊎ (((q.pusher_locked ≡ false) × (q.pcq_current_size ≡ q.pcq_capacity) × (r ≡ ok waits q))
            ⊎ (((q.pusher_locked ≡ false)
                  × (q.pcq_current_size < q.pcq_capacity)
                  × (next_slot < q.pcq_capacity)
                  × (r ≡ ok (returned (pos 0)) (inserted_at (not should_unlock) elem)))
                ⊎ ((q.pusher_locked ≡ false)
                    × (q.pcq_current_size < q.pcq_capacity)
                    × (q.pcq_capacity ≤ next_slot)
                    × (r ≡ fault))))

    -- On a queue within its bounds `pcq_enqueue`, called or woken, ends in one of four ways. The
    -- pushers' mutex is locked: it waits for it for ever. The queue is full: it waits on its
    -- condition variable, the queue as before. The next slot, 0 at first and else `pcq_tail + 1`,
    -- is in the buffer: it stores the element there, counts it in and returns 0, the mutex free if
    -- the call has not waited and locked if it has. The slot is not in the buffer: it writes out of
    -- bounds.
    pub enqueue_with-Enqueued :
        (should_unlock : Bool) (elem : A)
        → Enqueued should_unlock elem (enqueue_with should_unlock elem q)
    unfolding enqueue_with lock_pusher
    enqueue_with-Enqueued should_unlock elem =
        go (Bool-cases q.pusher_locked) (Bool-cases (q.pcq_current_size == q.pcq_capacity))
          (dec_lt next_slot q.pcq_capacity)
      where
        released :
            (b : Bool)
            → and_then
                ((if b then set_pusher false else pure tt) (inserted_at true elem))
                (λ x. pure (returned (pos 0)))
              ≡ ok (returned (pos 0)) (inserted_at (not b) elem)
        released true = refl
        released false = refl

        go :
            (q.pusher_locked ≡ true) ⊎ (q.pusher_locked ≡ false)
            → ((q.pcq_current_size == q.pcq_capacity) ≡ true)
              ⊎ ((q.pcq_current_size == q.pcq_capacity) ≡ false)
            → Dec (next_slot < q.pcq_capacity)
            → Enqueued should_unlock elem (enqueue_with should_unlock elem q)
        go (inl held) full inside = inl (held, rw held)
        go (inr free) (inl full) inside = inr (inl (free, ground arith, rw (free, full)))
        go (inr free) (inr room) (yes inside) = inr (
            inr (
              inl (
                free,
                ground (arith, inv.size),
                inside,
                rw (free, room, insert-ok true elem inside) (released should_unlock),
              )))
        go (inr free) (inr room) (no outside) = inr (
            inr (
              inr (
                free,
                ground (arith, inv.size),
                omega arith,
                rw (free, room, insert-fault true elem (omega arith)),
              )))

    -- The three ways in which `pcq_dequeue`, called or woken, can end.
    abbrev pub Dequeued : Bool → Run (Queue A) (Ended (Option A)) → Type 0
    Dequeued should_unlock r =
        ((q.popper_locked ≡ true) × (r ≡ blocked))
        ⊎ (((q.popper_locked ≡ false) × (q.pcq_current_size ≡ 0) × (r ≡ ok waits q))
            ⊎ ((q.popper_locked ≡ false)
                × (0 < q.pcq_current_size)
                × (r ≡ ok (returned none) (removed (not should_unlock)))))

    -- On a queue within its bounds `pcq_dequeue`, called or woken, ends in one of three ways. The
    -- poppers' mutex is locked: it waits for it for ever. The queue is empty: it waits on its
    -- condition variable, the queue as before. Else it counts an element out, moves `pcq_head` on,
    -- from the last slot to 0, and returns NULL, the mutex free if the call has not waited and
    -- locked if it has.
    pub dequeue_with-Dequeued :
        (should_unlock : Bool) → Dequeued should_unlock (dequeue_with should_unlock q)
    unfolding dequeue_with lock_popper remove_first
    dequeue_with-Dequeued should_unlock =
        go (Bool-cases q.popper_locked) (Bool-cases (q.pcq_current_size == 0))
      where
        released :
            (b : Bool)
            → and_then {B = Ended (Option A)}
                ((if b then set_popper false else pure tt) (removed true))
                (λ x. pure (returned none))
              ≡ ok (returned none) (removed (not b))
        released true = refl
        released false = refl

        head_next : 0 < q.pcq_current_size → next_size q.pcq_head ≡ q.pcq_head + 1
        head_next some_there =
            omega (arith, inv.small, inv.size, inv.head (omega (arith, inv.size)))

        go :
            (q.popper_locked ≡ true) ⊎ (q.popper_locked ≡ false)
            → ((q.pcq_current_size == 0) ≡ true) ⊎ ((q.pcq_current_size == 0) ≡ false)
            → Dequeued should_unlock (dequeue_with should_unlock q)
        go (inl held) empty = inl (held, rw held)
        go (inr free) (inl empty) = inr (inl (free, ground arith, rw (free, empty)))
        go (inr free) (inr some_there) =
            let positive : 0 < q.pcq_current_size = ground arith in
            let one_less : (q.pcq_current_size + 2 ^ 64 - 1) % 2 ^ 64 ≡ q.pcq_current_size - 1 =
              omega (arith, inv.small, inv.size) in
            inr (
              inr (
                free,
                positive,
                rw (free, some_there, one_less, head_next positive) (released should_unlock),
              ))

    pub inserted-IsQueue :
        (b : Bool) (elem : A)
        → q.pcq_current_size < q.pcq_capacity
        → next_slot < q.pcq_capacity
        → IsQueue (inserted_at b elem)
    inserted-IsQueue b elem room inside = record {
      buffer = length-set q.pcq_buffer next_slot (some elem) ∙ inv.buffer;
      small = inv.small;
      size = omega arith;
      head = inv.head;
      tail = ground (arith, inv.tail);
      inserted = omega (arith, inv.inserted);
    }

    pub removed-IsQueue : (b : Bool) → 0 < q.pcq_current_size → IsQueue (removed b)
    removed-IsQueue b some_there = record {
      buffer = inv.buffer;
      small = inv.small;
      size = omega (arith, inv.size);
      head = λ some_slots. wrapped;
      tail = inv.tail;
      inserted = omega (arith, inv.inserted);
    }
      where
        wrapped :
            (if (q.pcq_head + 1) == q.pcq_capacity then 0 else q.pcq_head + 1) < q.pcq_capacity
        wrapped = ground (arith, inv.head (omega (arith, inv.size)))
