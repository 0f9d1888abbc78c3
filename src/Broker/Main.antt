-- ===== src/Broker/Main.antt =====
-- mbroker/mbroker.c: the main thread, which starts a session for each request on the register pipe,
-- and the start and the end of the program. The elements of the queue are the indices into `tid`.
pub mod Dispatch
mod Tests
use so.Prelude.{
  ℕ, zero, suc, ◌+◌, ◌-◌, Bool, true, false, not, ◌||◌, Option, none, some, List, [], ◌∷◌, ◌++◌,
  length, get_elem?, take, ltb, ◌==◌, if◌then◌else◌,
}
use so.Prelude.Int.{ℤ, pos, minus_one, eq_int}
use so.Prelude.Run.{Cmd, ok, exited, fault, blocked, pure, exit_failure, out_of_bounds, ◌>>=◌, ◌>>◌}
use so.Fs.Types.{Allocation}
use so.Fs.Operations.{tfs_init}
use so.Pcq.{Queue, Ended, returned, waits, pcq_create, pcq_destroy, pcq_enqueue}
use so.Boxes.{Box, Boxes, pipe_name_size}
use so.Broker.{Broker, BrokerCmd, Request, in_fs}
use so.Wire.Requests.{request_in}
use so.Wire.{System, and_some, string_at, read_pipe, create_pipe, open_pipe, or_fault}

-- The sessions that the main thread starts, each with its argument.
pub data Session : Type 0 where
  publisher : Request → Session
  subscriber : Request → Session
  creation : Request → Session
  removal : Request → Session
  listing : List ℕ → Session

abbrev pub with_queue : {A : Type 0} → Cmd (Queue ℕ) A → BrokerCmd A
with_queue m b = elim (m b.queue) [
  | ok a q ↦ ok a (record b { queue = q })
  | exited ↦ exited
  | fault ↦ fault
  | blocked ↦ blocked
]

-- `pcq_enqueue(queue, &tid[index])`, and the thread that is created where it returns 0. Where the
-- queue is full, the main thread waits.
unfoldable pub start_session : Session → BrokerCmd (List Session)
start_session session = do
  b ← (λ s. ok s s)
  ended ← with_queue (pcq_enqueue b.queue.pcq_tail)
  elim ended [
    | returned r ↦ if eq_int r (pos 0) then pure (session ∷ []) else pure []
    | waits ↦ (λ s. blocked)
  ]

-- What lies in `box_request` and in `pipe_name`.
pub record Arrays : Type 0 where
  pub box_request : List ℕ
  pub pipe_name : List ℕ

abbrev pub register_request_size : ℕ
register_request_size = 288

-- The session that a code stands for; none for a listing and for any other code.
unfoldable pub session_of : ℕ → Option (Request → Session)
session_of code =
    if code == 1
    then some publisher
    else if code == 2
    then some subscriber
    else if code == 3
    then some creation
    else if code == 5
    then some removal
    else none

-- A case of the `switch` that reads a `register_request_t`.
unfoldable pub register_case :
    (Request → Session) → Arrays → List ℕ → BrokerCmd (List Session × Arrays × List ℕ)
register_case session arrays pipe =
    let read = read_pipe register_request_size arrays.box_request pipe in
    if length (take register_request_size pipe) == 0 then exit_failure else (do
      request ← or_fault (request_in read.0)
      started ← start_session (session request)
      pure (started, record arrays { box_request = read.0 }, read.1))

unfoldable pub listing_case : Arrays → List ℕ → BrokerCmd (List Session × Arrays × List ℕ)
listing_case arrays pipe =
    let read = read_pipe pipe_name_size arrays.pipe_name pipe in
    if length (take pipe_name_size pipe) == 0 then exit_failure else (do
      pipe_name ← or_fault (string_at read.0)
      started ← start_session (listing pipe_name)
      pure (started, record arrays { pipe_name = read.0 }, read.1))

-- The `switch` on a code that has been read.
unfoldable pub handle_code : ℕ → Arrays → List ℕ → BrokerCmd (List Session × Arrays × List ℕ)
handle_code code arrays pipe = elim (session_of code) [
  | some session ↦ register_case session arrays pipe
  | none ↦ if code == 7 then listing_case arrays pipe else pure ([], arrays, pipe)
]

-- The loop of `main_thread_function` over the bytes that come through the register pipe up to where
-- a `read` of it fails, and the sessions started. Rounds that read nothing are left out: behind the
-- first code their code is 0, which is no case. `fuel` bounds the other rounds.
unfoldable pub main_thread_function : ℕ → Arrays → List ℕ → BrokerCmd (List Session)
main_thread_function zero arrays pipe = λ b. blocked
main_thread_function (suc fuel) arrays [] = pure []
main_thread_function (suc fuel) arrays (code ∷ pipe) = do
  handled ← handle_code code arrays pipe
  more ← main_thread_function fuel handled.1 handled.2
  pure (handled.0 ++ more)

-- The inner loop of `mbroker_close`, which tests `j` and increments `i`: from box `i` on, it opens
-- the pipe of the first subscriber of each box that has one. The result is what `i` is behind it.
unfoldable pub close_subscribers : ℕ → System → ℕ → BrokerCmd ℕ
close_subscribers zero system i = out_of_bounds
close_subscribers (suc room) system i = do
  b ← (λ s. ok s s)
  elim (get_elem? b.boxes.boxes i) [
    | none ↦ out_of_bounds
    | some box ↦
        if ltb 0 box.n_subscribers
        then (do
          first ← or_fault (get_elem? box.subscribers 0)
          tx ← open_pipe system first
          close_subscribers room system (i + 1))
        else pure i
  ]

-- The outer loop; `room` bounds the rounds of both.
unfoldable pub close_boxes : ℕ → System → ℕ → BrokerCmd (Unit {0})
close_boxes zero system i = λ b. blocked
close_boxes (suc room) system i = do
  b ← (λ s. ok s s)
  if not (ltb i b.boxes.n_boxes) then pure tt else (do
    last ← close_subscribers (suc (length b.boxes.boxes)) system i
    close_boxes room system (last + 1))

-- `free(&tid[i])` for each session: only the first is the start of what `malloc` returned.
abbrev pub free_threads : ℕ → BrokerCmd (Unit {0})
free_threads max_sessions = if ltb 1 max_sessions then out_of_bounds else pure tt

-- `can_free` says which of the queue's elements are pointers that `free` takes.
unfoldable pub mbroker_close : System → (Option ℕ → Bool) → ℕ → BrokerCmd (Unit {0})
mbroker_close system can_free max_sessions = do
  d ← with_queue (pcq_destroy can_free)
  b ← (λ s. ok s s)
  close_boxes (suc (length b.boxes.boxes)) system 0
  free_threads max_sessions

-- What the program finds: the operating system, the arrays that `malloc` returns, whether the
-- inits in `pcq_create` succeed, and what lies in the arrays of the main thread.
pub record Machine : Type 0 where
  pub system : System
  pub memory : Allocation
  pub slots : Option (List (Option ℕ))
  pub inits : Bool
  pub arrays : Arrays
  pub can_free : Option ℕ → Bool

-- `n_boxes = 0`
abbrev pub no_boxes_yet : BrokerCmd (Unit {0})
no_boxes_yet b = ok tt (record b { boxes = record b.boxes { n_boxes = 0 } })

-- `main` behind the creation of the register pipe.
unfoldable pub run_broker : Machine → List ℕ → ℕ → List ℕ → BrokerCmd (ℤ × List Session)
run_broker machine register_pipe_name max_sessions pipe = do
  register_pipe ← open_pipe machine.system register_pipe_name
  sessions ← main_thread_function (suc (length pipe)) machine.arrays pipe
  mbroker_close machine.system machine.can_free max_sessions
  pure (pos 0, sessions)

-- `main`, with the register pipe's name, the number that `strtol` makes of `argv[2]`, and the bytes
-- that come through the register pipe; without exactly these arguments it exits.
unfoldable pub broker_main : Machine → Option (List ℕ × ℕ) → List ℕ → BrokerCmd (ℤ × List Session)
broker_main machine none pipe = exit_failure
broker_main machine (some args) pipe = do
  started ← in_fs (tfs_init none machine.memory)
  no_boxes_yet
  created ← with_queue (pcq_create machine.slots machine.inits args.1)
  made ← create_pipe machine.system args.0
  if made == 0 then pure (minus_one, []) else run_broker machine args.0 args.1 pipe
