-- ===== src/Broker.antt =====
-- mbroker/mbroker.c: the sessions that create and remove a message box and list the boxes.
pub mod Replies
pub mod Create
pub mod Listing
pub mod Remove
pub mod Sessions
pub mod Main
pub mod Samples
mod Tests
use so.Prelude.{
  get_elem?, ℕ, zero, suc, ◌+◌, ◌-◌, ◌%◌, ◌^◌, Bool, true, false, not, Option, none, some, List, [],
  ◌∷◌, ◌++◌, length, ltb, ◌==◌, if◌then◌else◌,
}
use so.Prelude.Int.{ℤ, pos, negsuc, minus_one, eq_int}
use so.Prelude.Run.{Cmd, Run, ok, exited, fault, blocked, pure, exit_failure, ◌>>=◌, ◌>>◌}
use so.Fs.Types.{Fs, FileMode}
use so.Fs.Operations.{CString, tfs_open, tfs_close, tfs_unlink}
use so.Pcq.{Queue, Ended, returned, waits, pcq_dequeue}
use so.Wire.{message_size, and_some, strcpy, fill_string, or_fault}
use so.Boxes.{
  Box, Boxes, find_box, add_box, delete_box, box_at, set_box, lock_boxes, unlock_boxes,
  use_condition, box_name_size, pipe_name_size,
}

-- What `reply_to_box_creation` and `reply_to_box_removal` write to a manager's pipe.
pub record Reply : Type 0 where
  pub pipe_name : List ℕ
  pub code : ℕ
  pub return_code : ℤ
  pub error_message : List ℕ

-- The broker's shared state, and what has been written to the pipes of managers so far.
pub record Broker : Type 0 where
  pub boxes : Boxes
  pub fs : Fs
  pub queue : Queue ℕ
  pub replies : List Reply
  pub listed : List Box

abbrev pub BrokerCmd : Type 0 → Type 0
BrokerCmd = Cmd Broker

-- `thread_args` and `register_request_t`
pub record Request : Type 0 where
  pub client_name_pipe_path : List ℕ
  pub box_name : List ℕ

-- What the sessions find outside the broker: whether a write to a pipe succeeds, and what lies in the
-- variables that `create_box` and the replies do not initialise, the 1024 bytes of `error_message`
-- among them.
pub record Surroundings : Type 0 where
  pub can_write : List ℕ → Bool
  pub stack_box : Box
  pub stack_message : List ℕ

module _ {A : Type 0} where
  abbrev pub with_boxes : Broker → Run Boxes A → Run Broker A
  with_boxes b (ok a s) = ok a (record b { boxes = s })
  with_boxes b exited = exited
  with_boxes b fault = fault
  with_boxes b blocked = blocked

  abbrev pub in_boxes : Cmd Boxes A → BrokerCmd A
  in_boxes m b = with_boxes b (m b.boxes)

  abbrev pub with_fs : Broker → Run Fs A → Run Broker A
  with_fs b (ok a s) = ok a (record b { fs = s })
  with_fs b exited = exited
  with_fs b fault = fault
  with_fs b blocked = blocked

  abbrev pub in_fs : Cmd Fs A → BrokerCmd A
  in_fs m b = with_fs b (m b.fs)

-- `pcq_dequeue(queue)` at the end of a session; where the queue is empty it waits.
unfoldable pub end_session : BrokerCmd (Unit {0})
end_session b = elim (pcq_dequeue b.queue) [
  | ok (returned r) q ↦ ok tt (record b { queue = q })
  | ok waits q ↦ blocked
  | exited ↦ exited
  | fault ↦ fault
  | blocked ↦ blocked
]

-- `strcpy` into an array of `size` bytes.
abbrev pub copy_string : ℕ → List ℕ → BrokerCmd (List ℕ)
copy_string size text b = if ltb (length text) size then ok text b else fault

-- The two `write` calls of a reply, and the `exit` where one fails.
abbrev pub send : Surroundings → Reply → BrokerCmd (Unit {0})
send around reply b =
    if around.can_write reply.pipe_name
    then ok tt (record b { replies = b.replies ++ (reply ∷ []) })
    else exited

abbrev pub could_not_create : List ℕ
could_not_create =
    b'C' ∷ b'o' ∷ b'u' ∷ b'l' ∷ b'd' ∷ b'n' ∷ 39 ∷ b't' ∷ b' ' ∷ b'c' ∷ b'r' ∷ b'e' ∷ b'a' ∷ b't'
    ∷ b'e' ∷ b' ' ∷ b'b' ∷ b'o' ∷ b'x' ∷ []

abbrev pub could_not_remove : List ℕ
could_not_remove =
    b'C' ∷ b'o' ∷ b'u' ∷ b'l' ∷ b'd' ∷ b'n' ∷ 39 ∷ b't' ∷ b' ' ∷ b'r' ∷ b'e' ∷ b'm' ∷ b'o' ∷ b'v'
    ∷ b'e' ∷ b' ' ∷ b'b' ∷ b'o' ∷ b'x' ∷ []

-- The bytes of `error_message`, filled up after the `strcpy` of the text where there was an error;
-- none where a call reads or writes outside.
unfoldable pub reply_message : Surroundings → List ℕ → ℕ → Option (List ℕ)
reply_message around text n =
    let told =
      if n == 0
      then and_some (fill_string message_size around.stack_message) (λ array. strcpy array text)
      else some around.stack_message in
    and_some told (fill_string message_size)

abbrev pub reply_for : List ℕ → ℕ → ℕ → List ℕ → Reply
reply_for pipe code n message = record {
  pipe_name = pipe;
  code = code;
  return_code = if n == 0 then minus_one else pos 0;
  error_message = message;
}

unfoldable pub reply_to_box_creation : Surroundings → List ℕ → ℕ → BrokerCmd (Unit {0})
reply_to_box_creation around pipe n = do
  message ← or_fault (reply_message around could_not_create n)
  send around (reply_for pipe 4 n message)
  end_session

unfoldable pub reply_to_box_removal : Surroundings → List ℕ → ℕ → BrokerCmd (Unit {0})
reply_to_box_removal around pipe n = do
  message ← or_fault (reply_message around could_not_remove n)
  send around (reply_for pipe 6 n message)
  end_session

-- `box_request` and `box_name`, copied from the arguments.
abbrev pub copy_request : Request → BrokerCmd (Unit {0})
copy_request request = do
  client ← copy_string pipe_name_size request.client_name_pipe_path
  name ← copy_string box_name_size request.box_name
  pure tt

abbrev pub o_creat_mode : FileMode
o_creat_mode = record { o_creat = true; o_trunc = false; o_append = false }

-- The path of a box's file.
abbrev pub box_path : List ℕ → CString
box_path name = some (b'/' ∷ name)

-- The new box: what is not assigned stays as it lay in the variable.
abbrev pub new_box : Surroundings → List ℕ → Box
new_box around name = record around.stack_box {
  box_size = 0;
  n_publishers = 0;
  n_subscribers = 0;
  box_name = name;
}

unfoldable pub create_file : Surroundings → Request → BrokerCmd (Unit {0})
create_file around request = do
  box_handle ← in_fs (tfs_open (box_path request.box_name) o_creat_mode)
  if eq_int box_handle minus_one
      then reply_to_box_creation around request.client_name_pipe_path 0
      else (do
        c ← in_fs (tfs_close box_handle)
        in_boxes (add_box (new_box around request.box_name))
        reply_to_box_creation around request.client_name_pipe_path 1)

unfoldable pub create_box : Surroundings → Request → BrokerCmd (Unit {0})
create_box around request = do
  copy_request request
  box_index ← in_boxes (find_box request.box_name)
  if not (eq_int box_index minus_one)
      then reply_to_box_creation around request.client_name_pipe_path 0
      else create_file around request

unfoldable pub remove_found : Surroundings → Request → ℤ → BrokerCmd (Unit {0})
remove_found around request (pos i) = do
  in_boxes (use_condition i)
  in_boxes (delete_box i)
  reply_to_box_removal around request.client_name_pipe_path 1
remove_found around request (negsuc i) = reply_to_box_removal around request.client_name_pipe_path 0

unfoldable pub remove_box : Surroundings → Request → BrokerCmd (Unit {0})
remove_box around request = do
  copy_request request
  box_handle ← in_fs (tfs_unlink (box_path request.box_name))
  if eq_int box_handle minus_one
      then reply_to_box_removal around request.client_name_pipe_path 0
      else (do
        box_index ← in_boxes (find_box request.box_name)
        remove_found around request box_index)

-- The loop of `reply_to_list_boxes`, over `n` boxes from `i` on.
unfoldable pub write_boxes : ℕ → ℕ → BrokerCmd (Unit {0})
write_boxes zero i b = ok tt b
write_boxes (suc n) i b = elim (get_elem? b.boxes.boxes i) [
  | none ↦ fault
  | some box ↦ write_boxes n (i + 1) (record b { listed = b.listed ++ (box ∷ []) })
]

-- `boxes[n_boxes - 1].last = flag`
unfoldable pub set_last : ℕ → Cmd Boxes (Unit {0})
set_last flag s =
    let end = (s.n_boxes + 2 ^ 64 - 1) % 2 ^ 64 in
    (do box ← box_at end; set_box end (record box { last = flag })) s

-- The box that stands for an empty list.
abbrev pub no_boxes : Surroundings → Box
no_boxes around = record around.stack_box {
  last = 1;
  publisher = [];
  box_name = [];
  box_size = 0;
  n_publishers = 0;
  n_subscribers = 0;
}

unfoldable pub reply_to_list_boxes : Surroundings → List ℕ → BrokerCmd (Unit {0})
reply_to_list_boxes around pipe = do
  b ← (λ s. ok s s)
  if not (around.can_write pipe)
      then exit_failure
      else if b.boxes.n_boxes == 0
      then (do (λ s. ok tt (record s { listed = s.listed ++ (no_boxes around ∷ []) })); end_session)
      else (do
        in_boxes lock_boxes
        in_boxes (set_last 1)
        in_boxes unlock_boxes
        write_boxes b.boxes.n_boxes 0
        in_boxes (set_last 0)
        end_session)
