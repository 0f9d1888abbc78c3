-- ===== src/Broker/Main/Dispatch.antt =====
-- The main thread starts the sessions that the requests on the register pipe ask for, in order.
use so.Prelude.{
  ℕ, zero, suc, ◌+◌, ◌<◌, ◌≡◌, refl, sym, ap, ◌∙◌, inl, inr, true, false, some, List, [], ◌∷◌, ◌++◌,
  append-nil, length, arith, subst, if◌then◌else◌,
}
use so.Prelude.Int.{pos, eq_int}
use so.Prelude.Run.{ok, blocked, pure, and_then}
use so.Prelude.Returns
use so.Prelude.Returns.{Returns, returns, mono}
use so.Prelude.Bytes.{IsText, strncpy_bytes, length-strncpy_bytes}
use so.Pcq.{Queue, returned, waits, enqueue_with}
use so.Pcq.Bounds.{IsQueue, next_slot, inserted_at, enqueue_with-Enqueued, inserted-IsQueue}
use so.Broker.{Broker, Request}
use so.Broker.Main.{
  Session, publisher, subscriber, creation, removal, listing, Arrays, start_session, session_of,
  register_case, listing_case, handle_code, main_thread_function, with_queue,
}
use so.Client.Subscriber.Messages.{take-append, splice-whole}
use so.Wire.{string_at}
use so.Wire.Requests.{
  request_in, IsRequest, request_bytes, length-request_bytes, request_of_bytes, drop-append,
}
use so.Wire.Strings.{string_at-strncpy_bytes}

-- The code and the bytes that a client sends for a session.
abbrev pub wire : Session → List ℕ
wire (publisher request) = 1 ∷ request_bytes request
wire (subscriber request) = 2 ∷ request_bytes request
wire (creation request) = 3 ∷ request_bytes request
wire (removal request) = 5 ∷ request_bytes request
wire (listing pipe_name) = 7 ∷ strncpy_bytes 256 pipe_name

abbrev pub wires : List Session → List ℕ
wires [] = []
wires (session ∷ sessions) = wire session ++ wires sessions

-- The strings of a session's argument fit.
abbrev pub IsSession : Session → Type 0
IsSession (publisher request) = IsRequest request
IsSession (subscriber request) = IsRequest request
IsSession (creation request) = IsRequest request
IsSession (removal request) = IsRequest request
IsSession (listing pipe_name) = IsText pipe_name × (length pipe_name < 256)

abbrev pub AreSessions : List Session → Type 0
AreSessions [] = Unit
AreSessions (session ∷ sessions) = IsSession session × AreSessions sessions

-- The queue takes `n` more elements: no mutex is held, and the slots are in the buffer.
pub record HasRoom (q : Queue ℕ) (n : ℕ) : Type 0 where
  pub queue : IsQueue q
  pub unlocked : q.pusher_locked ≡ false
  pub room : q.pcq_tail + n < q.pcq_capacity

-- What the main thread has started, the broker as before but for its queue.
pub record Started (b : Broker) (sessions started : List Session) (b' : Broker) : Type 0 where
  pub queue : Queue ℕ
  pub all : started ≡ sessions
  pub rest : b' ≡ record b { queue = queue }
  pub counted : queue.pcq_tail ≡ b.queue.pcq_tail + length sessions

start_session-ok :
    (session : Session) (b : Broker) (q' : Queue ℕ)
    → enqueue_with true b.queue.pcq_tail b.queue ≡ ok (returned (pos 0)) q'
    → start_session session b ≡ ok (session ∷ []) (record b { queue = q' })
unfolding start_session
start_session-ok session b q' e =
    ap
      (λ t. and_then (with_queue (λ q. t) b) (λ ended. elim ended [
        | returned r ↦ if eq_int r (pos 0) then pure (session ∷ []) else pure []
        | waits ↦ (λ s. blocked)
      ]))
      e

start_session-HasRoom :
    (session : Session) (b : Broker) (n : ℕ)
    → HasRoom b.queue (suc n)
    → (start_session session b
        ≡ ok (session ∷ []) (record b { queue = inserted_at b.queue false b.queue.pcq_tail }))
      × HasRoom (inserted_at b.queue false b.queue.pcq_tail) n
start_session-HasRoom session b n has =
    let q = b.queue in
    let slot : next_slot q < q.pcq_capacity = ground (arith, has.room) in
    let space : q.pcq_current_size < q.pcq_capacity = omega (arith, has.room, has.queue.inserted) in
    (
      elim (enqueue_with-Enqueued q has.queue true q.pcq_tail) [
        | inl (held, e) ↦ absurd (let free = has.unlocked in cc)
        | inr (inl (free, full, e)) ↦ absurd (omega arith)
        | inr (inr (inl (free, some_room, inside, e))) ↦ start_session-ok session b _ e
        | inr (inr (inr (free, some_room, outside, e))) ↦ absurd (omega arith)
      ],
      record {
        queue = inserted-IsQueue q has.queue false q.pcq_tail space slot;
        unlocked = refl;
        room = omega (arith, has.room);
      },
    )

-- The arrays of the main thread have the sizes of what is read into them.
abbrev pub AreArrays : Arrays → Type 0
AreArrays arrays = (length arrays.box_request ≡ 288) × (length arrays.pipe_name ≡ 256)

register_case-request :
    (session : Request → Session) (request : Request) (arrays : Arrays) (rest : List ℕ) (b : Broker)
    (n : ℕ)
    → IsRequest request
    → AreArrays arrays
    → HasRoom b.queue (suc n)
    → register_case session arrays (request_bytes request ++ rest) b
      ≡ ok
          (session request ∷ [], record arrays { box_request = request_bytes request }, rest)
          (record b { queue = inserted_at b.queue false b.queue.pcq_tail })
unfolding register_case
register_case-request session request arrays rest b n fits whole has =
    let bytes = request_bytes request in
    let size = length-request_bytes request in
    let got : request_in bytes ≡ some request =
      ap request_in (sym (append-nil bytes)) ∙ request_of_bytes request [] fits in
    rw
      (
        take-append bytes rest 288 size,
        size,
        splice-whole bytes arrays.box_request (size ∙ sym whole.0),
        drop-append bytes rest 288 size,
        got,
        (start_session-HasRoom (session request) b n has).0,
      )
      refl

listing_case-pipe_name :
    (pipe_name : List ℕ) (arrays : Arrays) (rest : List ℕ) (b : Broker) (n : ℕ)
    → IsText pipe_name
    → length pipe_name < 256
    → AreArrays arrays
    → HasRoom b.queue (suc n)
    → listing_case arrays (strncpy_bytes 256 pipe_name ++ rest) b
      ≡ ok
          (listing pipe_name ∷ [], record arrays { pipe_name = strncpy_bytes 256 pipe_name }, rest)
          (record b { queue = inserted_at b.queue false b.queue.pcq_tail })
unfolding listing_case
listing_case-pipe_name pipe_name arrays rest b n is_text short whole has =
    let bytes = strncpy_bytes 256 pipe_name in
    let size = length-strncpy_bytes 256 pipe_name in
    let got : string_at bytes ≡ some pipe_name =
      ap string_at (sym (append-nil bytes))
      ∙ string_at-strncpy_bytes 256 pipe_name [] is_text short in
    rw
      (
        take-append bytes rest 256 size,
        size,
        splice-whole bytes arrays.pipe_name (size ∙ sym whole.1),
        drop-append bytes rest 256 size,
        got,
        (start_session-HasRoom (listing pipe_name) b n has).0,
      )
      refl

-- One round of the loop, on the bytes of a session, starts it.
record Round (session : Session) (fuel : ℕ) (arrays : Arrays) (rest : List ℕ) (b : Broker)
    : Type 0 where
  next : Arrays
  are : AreArrays next
  goes_on :
      main_thread_function (suc fuel) arrays (wire session ++ rest) b
      ≡ and_then
          (main_thread_function fuel next rest
            (record b { queue = inserted_at b.queue false b.queue.pcq_tail }))
          (λ more. pure (session ∷ more))

request-Round :
    (code : ℕ) (session : Request → Session) (request : Request) (fuel : ℕ) (arrays : Arrays)
    (rest : List ℕ) (b : Broker) (n : ℕ)
    → session_of code ≡ some session
    → wire (session request) ≡ code ∷ request_bytes request
    → IsRequest request
    → AreArrays arrays
    → HasRoom b.queue (suc n)
    → Round (session request) fuel arrays rest b
unfolding main_thread_function handle_code
request-Round code session request fuel arrays rest b n is_case bytes fits whole has = record {
  next = next;
  are = (length-request_bytes request, whole.1);
  goes_on = ap (λ t. main_thread_function (suc fuel) arrays (t ++ rest) b) bytes ∙ reads;
}
  where
    next : Arrays
    next = record arrays { box_request = request_bytes request }

    reads :
        main_thread_function (suc fuel) arrays (code ∷ (request_bytes request ++ rest)) b
        ≡ and_then
            (main_thread_function fuel next rest
              (record b { queue = inserted_at b.queue false b.queue.pcq_tail }))
            (λ more. pure (session request ∷ more))
    reads =
        rw
          (
            is_case,
            register_case-request session request arrays rest b n fits whole has,
            handle_code,
          )
          refl

round :
    (session : Session) (fuel : ℕ) (arrays : Arrays) (rest : List ℕ) (b : Broker) (n : ℕ)
    → IsSession session
    → AreArrays arrays
    → HasRoom b.queue (suc n)
    → Round session fuel arrays rest b
unfolding main_thread_function handle_code session_of
round (publisher request) fuel arrays rest b n fits whole has =
    request-Round 1 publisher request fuel arrays rest b n refl refl fits whole has
round (subscriber request) fuel arrays rest b n fits whole has =
    request-Round 2 subscriber request fuel arrays rest b n refl refl fits whole has
round (creation request) fuel arrays rest b n fits whole has =
    request-Round 3 creation request fuel arrays rest b n refl refl fits whole has
round (removal request) fuel arrays rest b n fits whole has =
    request-Round 5 removal request fuel arrays rest b n refl refl fits whole has
round (listing pipe_name) fuel arrays rest b n fits whole has = record {
  next = record arrays { pipe_name = strncpy_bytes 256 pipe_name };
  are = (whole.0, length-strncpy_bytes 256 pipe_name);
  goes_on = rw (listing_case-pipe_name pipe_name arrays rest b n fits.0 fits.1 whole has) refl;
}

-- Let the register pipe bring the requests of clients one behind the other up to where a `read` of
-- it fails, each its code and its structure, with strings that fit; and let the queue, within its
-- bounds and with the pushers' mutex free, have a slot for each request behind its tail. Then the
-- main thread's loop, with more rounds than there are requests, returns, and has started the session
-- of each request with the client's strings as its argument, in the order of the requests, and no
-- other; of the broker's state only the queue is changed, and its tail is advanced by the number of
-- requests.
pub main_thread_function-Started :
    (sessions : List Session) (fuel : ℕ) (arrays : Arrays) (b : Broker)
    → AreSessions sessions
    → length sessions < fuel
    → AreArrays arrays
    → HasRoom b.queue (length sessions)
    → Returns (Started b sessions) (main_thread_function fuel arrays (wires sessions) b)
unfolding main_thread_function
main_thread_function-Started sessions zero arrays b fit enough whole has = absurd (omega arith)
main_thread_function-Started [] (suc fuel) arrays b fit enough whole has =
    returns (record { queue = b.queue; all = refl; rest = refl; counted = omega arith })
main_thread_function-Started (session ∷ sessions) (suc fuel) arrays b fit enough whole has =
    let go = round session fuel arrays (wires sessions) b (length sessions) fit.0 whole has in
    subst (Returns (Started b (session ∷ sessions))) (sym go.goes_on) (
      Returns.bind
        (main_thread_function-Started sessions fuel go.next
          (record b { queue = inserted_at b.queue false b.queue.pcq_tail }) fit.1 (omega arith)
          go.are (start_session-HasRoom session b (length sessions) has).1)
        (λ more b'. λ started. returns (record {
          queue = started.queue;
          all = ap (λ t. session ∷ t) started.all;
          rest = started.rest;
          counted = omega (arith, started.counted);
        })))
