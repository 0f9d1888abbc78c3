-- ===== src/Client/Publisher.antt =====
-- publisher/pub.c
pub mod Frames
use so.Prelude.{
  ℕ, zero, suc, ◌+◌, ◌-◌, Bool, true, false, ◌||◌, Option, none, some, List, [], ◌∷◌, ◌++◌, length,
  set, ◌==◌, if◌then◌else◌,
}
use so.Prelude.Int.{ℤ, pos, minus_one, eq_int}
use so.Prelude.Run.{blocked, pure, ◌>>=◌, ◌>>◌}
use so.Wire.{
  and_some, string_at, strcpy, fill_string, message_size, create_pipe, open_pipe, or_fault,
}
use so.Client.{Host, ClientCmd, write_own, unlink, send_request}

-- The bytes that `fgets` reads, at most `n`, and those that it leaves.
unfoldable pub fgets_bytes : ℕ → List ℕ → List ℕ × List ℕ
fgets_bytes zero input = ([], input)
fgets_bytes (suc n) [] = ([], [])
fgets_bytes (suc n) (c ∷ input) =
    let rest = fgets_bytes n input in if c == 10 then (c ∷ [], input) else (c ∷ rest.0, rest.1)

-- `fgets(str, size, stdin)`: none at the end of the input, where it returns NULL.
abbrev pub fgets : ℕ → List ℕ → Option (List ℕ × List ℕ)
fgets size [] = none
fgets size (c ∷ input) = some (fgets_bytes (size - 1) (c ∷ input))

-- The end of the string in `message` is cut off, and what follows is cleared.
unfoldable pub end_message : List ℕ → List ℕ → Option (List ℕ)
end_message message s =
    if length s == message_size
    then some (set message (message_size - 1) 0)
    else if length s == 0
    then some (set message 0 0)
    else fill_string message_size (set message (length s - 1) 0)

unfoldable pub frame_message : List ℕ → List ℕ → Option (List ℕ)
frame_message message line = and_some (string_at (line ++ (0 ∷ []))) (λ str.
    and_some (strcpy message str) (λ copied. and_some (string_at copied) (end_message copied)))

-- The loop over the lines of the input; `fuel` bounds how many there are.
unfoldable pub send_lines : ℕ → Host → List ℕ → List ℕ → ClientCmd (Unit {0})
send_lines zero host message input = λ c. blocked
send_lines (suc fuel) host message input = elim (fgets message_size input) [
  | none ↦ pure tt
  | some read ↦ do
    framed ← or_fault (frame_message message read.0)
    write_own host (9 ∷ [])
    write_own host framed
    send_lines fuel host framed read.1
]

-- `main` behind the checks of the two pipes.
unfoldable pub publish : Host → List ℕ → List ℕ → List ℕ → ClientCmd ℤ
publish host pub_pipename box_name input = do
  send_request host 1 pub_pipename box_name
  tx ← open_pipe host.system pub_pipename
  if eq_int tx minus_one then pure minus_one else (do
    send_lines (suc (length input)) host host.message_array input
    unlink pub_pipename
    pure minus_one)

-- `main`, with `argv` from its element 1 on, and the bytes of the standard input.
unfoldable pub publisher_main : Host → List (List ℕ) → List ℕ → ClientCmd ℤ
publisher_main host (register_pipe ∷ pub_pipename ∷ box_name ∷ more) input = do
  register_int ← open_pipe host.system register_pipe
  created ← create_pipe host.system pub_pipename
  if (created == 0) || eq_int register_int (pos 0)
      then pure minus_one
      else publish host pub_pipename box_name input
publisher_main host (register_pipe ∷ pub_pipename ∷ []) input = pure minus_one
publisher_main host (register_pipe ∷ []) input = pure minus_one
publisher_main host [] input = pure minus_one
