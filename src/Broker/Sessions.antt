-- ===== src/Broker/Sessions.antt =====
-- mbroker/mbroker.c: the sessions of publishers and subscribers.
pub mod Stored
pub mod Publishing
pub mod Serving
pub mod Delivery
pub mod Refusal
mod Tests
use so.Prelude.{
  ℕ, zero, suc, ◌+◌, ◌%◌, ◌^◌, Bool, true, false, not, ◌||◌, Option, none, some, List, [], ◌∷◌,
  ◌++◌, length, replicate, set, ltb, ◌==◌, if◌then◌else◌,
}
use so.Prelude.Int.{ℤ, pos, negsuc, minus_one, eq_int}
use so.Prelude.Run.{ok, exited, fault, blocked, pure, out_of_bounds, ◌>>=◌, ◌>>◌}
use so.Fs.Types.{FileMode}
use so.Fs.Operations.{tfs_open, tfs_close, tfs_write, tfs_read}
use so.Boxes.{Box, BoxesCmd, box_at, set_box, find_box, use_condition, add_subscriber_to_box}
use so.Broker.{Broker, BrokerCmd, Request, in_boxes, in_fs, end_session, copy_request, box_path}
use so.Wire.{System, string_at, fill_string, read_pipe, message_size, open_pipe, or_fault}

abbrev pub o_append_mode : FileMode
o_append_mode = record { o_creat = false; o_trunc = false; o_append = true }

abbrev pub no_flags : FileMode
no_flags = record { o_creat = false; o_trunc = false; o_append = false }

-- `boxes[i].box_size += n`
unfoldable pub grow_box : ℕ → ℕ → BoxesCmd (Unit {0})
grow_box i n = do box ← box_at i; set_box i (record box { box_size = (box.box_size + n) % 2 ^ 64 })

-- One message, under the mutex of the box.
unfoldable pub store_message : ℤ → ℕ → List ℕ → BrokerCmd (Unit {0})
store_message box_handle i text = do
  in_boxes (use_condition i)
  w ← in_fs (tfs_write box_handle (text ++ (0 ∷ [])) (length text))
  z ← in_fs (tfs_write box_handle (0 ∷ []) 1)
  in_boxes (grow_box i (length text))

-- The loop over the bytes that come through the publisher's pipe; `fuel` bounds its rounds. The
-- result is what `box_index` is behind it.
unfoldable pub recieve_loop : ℕ → ℤ → List ℕ → ℤ → List ℕ → List ℕ → BrokerCmd ℤ
recieve_loop zero box_handle name box_index buffer pipe = λ b. blocked
recieve_loop (suc fuel) box_handle name box_index buffer [] = pure box_index
recieve_loop (suc fuel) box_handle name box_index buffer (code ∷ pipe) =
    let read = read_pipe message_size buffer pipe in
    if code == 9
    then (do
      found ← in_boxes (find_box name)
      elim found [
        | negsuc n ↦ pure minus_one
        | pos i ↦ do
          text ← or_fault (string_at read.0)
          store_message box_handle i text
          recieve_loop fuel box_handle name (pos i) read.0 read.1
      ])
    else pure box_index

-- `boxes[box_index].n_publishers = 0`, where `box_index` is not -1.
unfoldable pub leave_box : ℤ → BoxesCmd (Unit {0})
leave_box (negsuc n) = pure tt
leave_box (pos i) = do box ← box_at i; set_box i (record box { n_publishers = 0 })

unfoldable pub recieve_messages_from_publisher :
    System → Request → ℤ → ℕ → List ℕ → List ℕ → BrokerCmd (Unit {0})
recieve_messages_from_publisher system publisher box_index ver buffer pipe = do
  box_handle ← in_fs (tfs_open (box_path publisher.box_name) o_append_mode)
  pub_pipe ← open_pipe system publisher.client_name_pipe_path
  if ver == 0 then end_session else (do
    left_at ← recieve_loop (suc (length pipe)) box_handle publisher.box_name box_index buffer pipe
    in_boxes (leave_box left_at)
    end_session
    c ← in_fs (tfs_close box_handle)
    pure tt)

unfoldable pub register_publisher : System → Request → ℤ → List ℕ → List ℕ → BrokerCmd (Unit {0})
register_publisher system request (negsuc n) buffer pipe =
    recieve_messages_from_publisher system request (negsuc n) 0 buffer pipe
register_publisher system request (pos i) buffer pipe = do
  box ← in_boxes (box_at i)
  if box.n_publishers == 1
      then recieve_messages_from_publisher system request (pos i) 0 buffer pipe
      else (do
        in_boxes
            (set_box i (record box { n_publishers = 1; publisher = request.client_name_pipe_path }))
        recieve_messages_from_publisher system request (pos i) 1 buffer pipe)

-- `pipe` is what comes through the publisher's pipe, and `buffer` what lies in the array for it.
unfoldable pub publisher_function : System → Request → List ℕ → List ℕ → BrokerCmd (Unit {0})
publisher_function system request buffer pipe = do
  copy_request request
  box_handle ← in_fs (tfs_open (box_path request.box_name) o_append_mode)
  box_index ← in_boxes (find_box request.box_name)
  if eq_int box_index minus_one || eq_int box_handle minus_one
      then recieve_messages_from_publisher system request box_index 0 buffer pipe
      else register_publisher system request box_index buffer pipe

-- What a subscriber's loop has at hand: the message read so far, its length, and the last byte read.
pub record Reading : Type 0 where
  pub buffer : List ℕ
  pub i : ℕ
  pub char_buffer : ℕ

-- Where the loop stops: it waits for the box's condition variable, or the box is gone.
pub data Served : Type 0 where
  waiting : Reading → Served
  gone : Served

-- `buffer[i] = c`
abbrev pub set_byte : List ℕ → ℕ → ℕ → Option (List ℕ)
set_byte buffer i c = if ltb i (length buffer) then some (set buffer i c) else none

-- The byte that `tfs_read` puts into `char_buffer`, where it reads one.
abbrev pub byte_read : ℕ → List ℕ → ℕ
byte_read old [] = old
byte_read old (c ∷ bytes) = c

-- What is done with a byte: the bytes written to the subscriber's pipe, and what is at hand then.
unfoldable pub take_byte : Bool → Reading → ℕ → BrokerCmd (List ℕ × Reading)
take_byte can_write r c =
    if c == 0
    then (do
      ended ← or_fault (set_byte r.buffer r.i 0)
      frame ← or_fault (fill_string message_size ended)
      if can_write
          then pure
              (10 ∷ frame, record { buffer = replicate message_size 0; i = 0; char_buffer = c })
          else (λ b. exited))
    else (do
      buffer ← or_fault (set_byte r.buffer r.i c)
      pure ([], record { buffer = buffer; i = r.i + 1; char_buffer = c }))

-- The `while (true)` loop, up to where it waits or ends: the bytes written to the subscriber's pipe,
-- and where it stops. `fuel` bounds its rounds. A thread that is woken finds its box again and goes
-- on reading, as a new round does.
unfoldable pub serve_loop : ℕ → Bool → ℤ → List ℕ → Reading → BrokerCmd (List ℕ × Served)
serve_loop zero can_write box_handle name r = λ b. blocked
serve_loop (suc fuel) can_write box_handle name r = do
  found ← in_boxes (find_box name)
  elim found [
    | negsuc n ↦ pure ([], gone)
    | pos k ↦ do
      in_boxes (use_condition k)
      read ← in_fs (tfs_read box_handle 1)
      if eq_int read.0 (pos 0) then pure ([], waiting r) else (do
        step ← take_byte can_write r (byte_read r.char_buffer read.1)
        rest ← serve_loop fuel can_write box_handle name step.1
        pure (step.0 ++ rest.0, rest.1))
  ]

-- What a thread does that is woken. Where its box is gone it takes the last byte once more, and
-- unlocks the mutex of box -1.
unfoldable pub woken : ℕ → Bool → ℤ → List ℕ → Reading → BrokerCmd (List ℕ × Served)
woken fuel can_write box_handle name r = do
  found ← in_boxes (find_box name)
  elim found [
    | negsuc n ↦ do step ← take_byte can_write r r.char_buffer; out_of_bounds
    | pos k ↦ serve_loop fuel can_write box_handle name r
  ]

-- `read_messages` up to its loop; none where it ends before.
unfoldable pub begin_reading : System → Request → BrokerCmd (Option ℤ)
begin_reading system request = do
  box_handle ← in_fs (tfs_open (box_path request.box_name) no_flags)
  box_index ← in_boxes (find_box request.box_name)
  subscriber_pipe ← open_pipe system request.client_name_pipe_path
  if eq_int box_handle minus_one || eq_int box_index minus_one
      then (do end_session; pure none)
      else pure (some box_handle)

-- The end of `read_messages` comes where the box is gone: `boxes[-1]` is read.
abbrev pub end_reading : List ℕ × Served → BrokerCmd (List ℕ × Served)
end_reading (sent, waiting r) = pure (sent, waiting r)
end_reading (sent, gone) = out_of_bounds

unfoldable pub read_messages : System → Bool → Request → ℕ → Reading → BrokerCmd (List ℕ × Served)
read_messages system can_write request fuel r = do
  opened ← begin_reading system request
  elim opened [
    | none ↦ pure ([], gone)
    | some box_handle ↦ do
      served ← serve_loop fuel can_write box_handle request.box_name r
      end_reading served
  ]

-- `boxes[box_index].n_subscribers++`, and the subscriber's pipe is noted.
unfoldable pub join_box : ℕ → List ℕ → BoxesCmd (Unit {0})
join_box i pipe_name = do
  box ← box_at i
  set_box i (record box { n_subscribers = (box.n_subscribers + 1) % 2 ^ 64 })
  add_subscriber_to_box i pipe_name

unfoldable pub register_subscriber :
    System → Bool → Request → ℕ → Reading → BrokerCmd (List ℕ × Served)
register_subscriber system can_write request fuel r = do
  copy_request request
  box_handle ← in_boxes (find_box request.box_name)
  box_index ← in_boxes (find_box request.box_name)
  elim box_index [
    | negsuc n ↦ read_messages system can_write request fuel r
    | pos i ↦ do
      in_boxes (join_box i request.client_name_pipe_path)
      read_messages system can_write request fuel r
  ]
