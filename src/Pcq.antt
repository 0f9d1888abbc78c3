-- ===== src/Pcq.antt =====
-- producer-consumer/producer-consumer.c: the bounded queue between the broker's threads.
pub mod Bounds
pub mod Lifetime
pub mod Locks
mod Tests
use so.Prelude.{
  ℕ, zero, suc, ◌+◌, ◌-◌, ◌%◌, ◌^◌, ◌≤◌, ◌<◌, ◌≡◌, Bool, true, false, Option, none, some, List,
  length, get_elem?, set, ltb, ◌==◌, if◌then◌else◌,
}
use so.Prelude.Int.{ℤ, pos, minus_one}
use so.Prelude.Run.{
  Cmd, Run, ok, exited, blocked, fault, pure, exit_failure, out_of_bounds, ◌>>=◌, ◌>>◌,
}

-- `pc_queue_t`, with none for NULL in `pcq_buffer`. Of the mutexes those of the two condition
-- variables can stay locked behind a call; the others are held within a call only.
pub record Queue (A : Type 0) : Type 0 where
  pub pcq_buffer : List (Option A)
  pub pcq_capacity : ℕ
  pub pcq_current_size : ℕ
  pub pcq_head : ℕ
  pub pcq_tail : ℕ
  pub pusher_locked : Bool
  pub popper_locked : Bool

abbrev pub QueueCmd : Type 0 → Type 0 → Type 0
QueueCmd A = Cmd (Queue A)

-- A call returns, or it waits on its condition variable, which releases the mutex it has locked.
pub data Ended (A : Type 0) : Type 0 where
  returned : A → Ended A
  waits : Ended A

-- A `size_t` plus one.
abbrev pub next_size : ℕ → ℕ
next_size n = (n + 1) % 2 ^ 64

module _ {A : Type 0} where
  -- `buffer` is what `malloc` returns: none for NULL, else the new array with what lies in it.
  -- `inits` says whether the inits of the mutexes and condition variables all succeed; the first
  -- that fails ends the call.
  unfoldable pub pcq_create : Option (List (Option A)) → Bool → ℕ → QueueCmd A ℤ
  pcq_create none inits capacity q = exited
  pcq_create (some buffer) inits capacity q = ok (if inits then pos 0 else minus_one) (record {
    pcq_buffer = buffer;
    pcq_capacity = capacity;
    pcq_current_size = 0;
    pcq_head = 0;
    pcq_tail = 0;
    pusher_locked = false;
    popper_locked = false;
  })

  -- The loop of `pcq_destroy`: `free` on each slot from `i` on, where `can_free` says which pointers
  -- it may be given.
  unfoldable pub free_slots : (Option A → Bool) → ℕ → ℕ → QueueCmd A (Unit {0})
  free_slots can_free zero i q = ok tt q
  free_slots can_free (suc n) i q = elim (get_elem? q.pcq_buffer i) [
    | none ↦ fault
    | some slot ↦
        let rest = free_slots can_free n (i + 1) q in if can_free slot then rest else fault
  ]

  unfoldable pub pcq_destroy : (Option A → Bool) → QueueCmd A ℤ
  pcq_destroy can_free = do
    q ← (λ s. ok s s)
    free_slots can_free q.pcq_capacity 0
    (λ s.
        ok (pos 0)
          (record s { pcq_capacity = 0; pcq_current_size = 0; pcq_head = 0; pcq_tail = 0 }))

  -- `pcq_buffer[i] = elem`
  unfoldable pub store : ℕ → Option A → QueueCmd A (Unit {0})
  store i elem q =
      if ltb i (length q.pcq_buffer)
      then ok tt (record q { pcq_buffer = set q.pcq_buffer i elem })
      else fault

  -- `pcq_tail++; pcq_current_size++;`
  abbrev pub count_in : QueueCmd A (Unit {0})
  count_in q = ok tt (record q {
    pcq_tail = next_size q.pcq_tail;
    pcq_current_size = next_size q.pcq_current_size;
  })

  -- What `pcq_enqueue` does with the element once there is space.
  unfoldable pub insert : A → QueueCmd A (Unit {0})
  insert elem q =
      if q.pcq_tail == 0
      then (do
        if q.pcq_tail == q.pcq_capacity then store q.pcq_tail none else pure tt
        store q.pcq_tail (some elem)
        count_in)
          q
      else (do
        count_in
        if next_size q.pcq_tail == q.pcq_capacity
            then store (next_size q.pcq_tail) none
            else pure tt
        store (next_size q.pcq_tail) (some elem))
          q

  abbrev pub set_pusher : Bool → QueueCmd A (Unit {0})
  set_pusher b q = ok tt (record q { pusher_locked = b })

  abbrev pub set_popper : Bool → QueueCmd A (Unit {0})
  set_popper b q = ok tt (record q { popper_locked = b })

  -- The mutex of the condition variable, locked by the call or again by `pthread_cond_wait`.
  unfoldable pub lock_pusher : QueueCmd A (Unit {0})
  lock_pusher q = if q.pusher_locked then blocked else set_pusher true q

  unfoldable pub lock_popper : QueueCmd A (Unit {0})
  lock_popper q = if q.popper_locked then blocked else set_popper true q

  -- `pcq_enqueue` from its lock on, for a call that begins and for one that was woken: the second
  -- has `should_unlock` at 0.
  unfoldable pub enqueue_with : Bool → A → QueueCmd A (Ended ℤ)
  enqueue_with should_unlock elem = do
    lock_pusher
    q ← (λ s. ok s s)
    if q.pcq_current_size == q.pcq_capacity then (do set_pusher false; pure waits) else (do
      insert elem
      if should_unlock then set_pusher false else pure tt
      pure (returned (pos 0)))

  abbrev pub pcq_enqueue : A → QueueCmd A (Ended ℤ)
  pcq_enqueue = enqueue_with true

  abbrev pub resume_enqueue : A → QueueCmd A (Ended ℤ)
  resume_enqueue = enqueue_with false

  -- `pcq_current_size--; pcq_head++;` and the head's return to 0.
  unfoldable pub remove_first : QueueCmd A (Unit {0})
  remove_first q =
      let head = next_size q.pcq_head in
      ok tt (record q {
        pcq_current_size = (q.pcq_current_size + 2 ^ 64 - 1) % 2 ^ 64;
        pcq_head = if head == q.pcq_capacity then 0 else head;
      })

  -- `pcq_dequeue` in the same two ways. It returns NULL.
  unfoldable pub dequeue_with : Bool → QueueCmd A (Ended (Option A))
  dequeue_with should_unlock = do
    lock_popper
    q ← (λ s. ok s s)
    if q.pcq_current_size == 0 then (do set_popper false; pure waits) else (do
      remove_first
      if should_unlock then set_popper false else pure tt
      pure (returned none))

  abbrev pub pcq_dequeue : QueueCmd A (Ended (Option A))
  pcq_dequeue = dequeue_with true

  abbrev pub resume_dequeue : QueueCmd A (Ended (Option A))
  resume_dequeue = dequeue_with false

-- One call of a thread that does not wait for ever and stays within the buffer.
pub data Step {A : Type 0} : Queue A → Queue A → Type 0 where
  enqueues : {q q' : Queue A} {e : Ended ℤ} (elem : A) → pcq_enqueue elem q ≡ ok e q' → Step q q'
  resumes_enqueue :
      {q q' : Queue A} {e : Ended ℤ} (elem : A) → resume_enqueue elem q ≡ ok e q' → Step q q'
  dequeues : {q q' : Queue A} {e : Ended (Option A)} → pcq_dequeue q ≡ ok e q' → Step q q'
  resumes_dequeue : {q q' : Queue A} {e : Ended (Option A)} → resume_dequeue q ≡ ok e q' → Step q q'

-- Any sequence of such calls.
pub data Steps {A : Type 0} (q : Queue A) : Queue A → Type 0 where
  none_taken : Steps q q
  then_step : {q' q'' : Queue A} → Steps q q' → Step q' q'' → Steps q q''
