-- ===== src/Client/Subscriber.antt =====
-- subscriber/sub.c
pub mod Messages
use so.Prelude.{
  ℕ, zero, suc, ◌+◌, Bool, true, false, ◌||◌, List, [], ◌∷◌, ◌++◌, length, replicate, ◌==◌,
  if◌then◌else◌,
}
use so.Prelude.Int.{ℤ, pos, minus_one, eq_int}
use so.Prelude.Run.{ok, exited, blocked, pure, ◌>>=◌, ◌>>◌}
use so.Wire.{string_at, read_pipe, message_size, create_pipe, open_pipe, or_fault}
use so.Client.{Host, ClientCmd, print, unlink, send_request}

-- `close_sub`: what it prints is the count, and it ends the process.
unfoldable pub close_sub : List ℕ → ClientCmd ℤ
close_sub sub_name = do unlink sub_name; (λ c. exited)

abbrev pub count_message : ClientCmd (Unit {0})
count_message c = ok tt (record c { n_messages = c.n_messages + 1 })

-- The loop over the bytes that come through the subscriber's pipe; `fuel` bounds its rounds. The
-- code has been read where a round begins, so the test of `bytes_read` inside always holds.
unfoldable pub print_messages : ℕ → List ℕ → List ℕ → ClientCmd (Unit {0})
print_messages zero message input = λ c. blocked
print_messages (suc fuel) message [] = pure tt
print_messages (suc fuel) message (code ∷ input) =
    let read = read_pipe message_size message input in
    if code == 10
    then (do
      text ← or_fault (string_at read.0)
      print text
      count_message
      print_messages fuel (replicate message_size 0) read.1)
    else print_messages fuel read.0 read.1

-- `main`, with `argv` from its element 1 on, and the bytes that come through the pipe.
unfoldable pub subscriber_main : Host → List (List ℕ) → List ℕ → ClientCmd ℤ
subscriber_main host (register_pipe ∷ sub_pipename ∷ box_name ∷ more) input = do
  register_int ← open_pipe host.system register_pipe
  created ← create_pipe host.system sub_pipename
  if (created == 0) || eq_int register_int (pos 0) then pure minus_one else (do
    send_request host 2 sub_pipename box_name
    tx ← open_pipe host.system sub_pipename
    if eq_int tx (pos 0) then pure minus_one else (do
      print_messages (suc (length input)) host.message_array input
      close_sub sub_pipename))
subscriber_main host (register_pipe ∷ sub_pipename ∷ []) input = pure minus_one
subscriber_main host (register_pipe ∷ []) input = pure minus_one
subscriber_main host [] input = pure minus_one
