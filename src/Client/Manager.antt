-- ===== src/Client/Manager.antt =====
-- manager/manager.c
pub mod Sorting
use so.Prelude.{
  ℕ, zero, suc, ◌+◌, Bool, true, false, not, ◌&&◌, ◌||◌, Option, none, some, List, [], ◌∷◌, ◌++◌,
  length, ltb, ◌==◌, if◌then◌else◌,
}
use so.Prelude.Int.{ℤ, pos, minus_one, eq_int}
use so.Prelude.Run.{fault, pure, out_of_bounds, ◌>>=◌, ◌>>◌}
use so.Boxes.{Box, same_text, max_boxes, pipe_name_size}
use so.Broker.{Reply}
use so.Wire.{string_at, strcpy, fill_string, create_pipe, open_pipe, or_fault}
use so.Client.{Host, ClientCmd, write_register, print, unlink, send_request}

-- `strcmp`, by the sign of its result.
unfoldable pub strcmp : List ℕ → List ℕ → ℤ
strcmp [] [] = pos 0
strcmp [] (d ∷ t) = minus_one
strcmp (c ∷ s) [] = pos 1
strcmp (c ∷ s) (d ∷ t) =
    let rest = strcmp s t in if ltb c d then minus_one else if ltb d c then pos 1 else rest

abbrev pub compare_structs : Box → Box → ℤ
compare_structs a b = strcmp a.box_name b.box_name

-- `qsort` on an array of boxes with a comparison, a function of the C library.
abbrev pub Qsort : Type 0
Qsort = (Box → Box → ℤ) → List Box → List Box

-- The loop that stores boxes up to the last one. `room` is how many places the array has left. At
-- the end of the pipe `read` leaves `box` as it was.
unfoldable pub read_boxes : ℕ → Box → List Box → ClientCmd (List Box)
read_boxes zero box input = out_of_bounds
read_boxes (suc room) box input = if box.last == 1 then pure (box ∷ []) else (do
  rest ← elim input [ [] ↦ read_boxes room box [] | next ∷ input' ↦ read_boxes room next input' ]
  pure (box ∷ rest))

-- What is printed of each box; the numbers are left as they are.
pub record Line : Type 0 where
  pub box_name : List ℕ
  pub box_size : ℕ
  pub n_publishers : ℕ
  pub n_subscribers : ℕ

abbrev pub line_of : Box → Line
line_of box = record {
  box_name = box.box_name;
  box_size = box.box_size;
  n_publishers = box.n_publishers;
  n_subscribers = box.n_subscribers;
}

unfoldable pub lines_of : List Box → List Line
lines_of [] = []
lines_of (b ∷ boxes) = line_of b ∷ lines_of boxes

-- The boxes that a listing prints; none stands for `NO BOXES FOUND`.
unfoldable pub list_reply : Qsort → Box → List Box → ClientCmd (Option (List Line))
list_reply qsort box input =
    if (box.last == 1) && (length box.box_name == 0) then pure none else (do
      boxes ← read_boxes max_boxes box input
      pure (some (lines_of (if ltb 1 (length boxes) then qsort compare_structs boxes else boxes))))

abbrev pub create_word : List ℕ
create_word = b'c' ∷ b'r' ∷ b'e' ∷ b'a' ∷ b't' ∷ b'e' ∷ []

abbrev pub remove_word : List ℕ
remove_word = b'r' ∷ b'e' ∷ b'm' ∷ b'o' ∷ b'v' ∷ b'e' ∷ []

abbrev pub list_word : List ℕ
list_word = b'l' ∷ b'i' ∷ b's' ∷ b't' ∷ []

-- The request that `type` asks for. Without a fifth argument `box_name` is not initialised, and
-- `strcpy` reads from anywhere.
abbrev pub send_named : Host → ℕ → List ℕ → Option (List ℕ) → ClientCmd (Unit {0})
send_named host code pipe_name none = out_of_bounds
send_named host code pipe_name (some box_name) = send_request host code pipe_name box_name

unfoldable pub send_type : Host → List ℕ → List ℕ → Option (List ℕ) → ClientCmd (Unit {0})
send_type host kind pipe_name box_name =
    if same_text kind create_word
    then send_named host 3 pipe_name box_name
    else if same_text kind remove_word
    then send_named host 5 pipe_name box_name
    else if same_text kind list_word
    then (do
      copied ← or_fault (strcpy host.pipe_array pipe_name)
      named_pipe ← or_fault (fill_string pipe_name_size copied)
      write_register host (7 ∷ [])
      write_register host named_pipe)
    else pure tt

-- What comes back through the manager's pipe.
pub data Answer : Type 0 where
  replied : Reply → Answer
  listing : Box → List Box → Answer
  other : Answer

-- What the manager prints at the end.
pub data Printed : Type 0 where
  printed_ok : Printed
  printed_error : List ℕ → Printed
  printed_none : Printed
  printed_boxes : List Line → Printed
  printed_nothing : Printed

unfoldable pub show_listing : List ℕ → Option (List Line) → ClientCmd (ℤ × Printed)
show_listing pipe_name none = pure (minus_one, printed_none)
show_listing pipe_name (some boxes) = do unlink pipe_name; pure (pos 0, printed_boxes boxes)

unfoldable pub show_answer : Qsort → List ℕ → Answer → ClientCmd (ℤ × Printed)
show_answer qsort pipe_name (replied reply) =
    if (reply.code == 4) || (reply.code == 6)
    then (do
      unlink pipe_name
      if eq_int reply.return_code minus_one
          then (do
            error_message ← or_fault (string_at reply.error_message)
            pure (minus_one, printed_error error_message))
          else pure (pos 0, printed_ok))
    else pure (minus_one, printed_nothing)
show_answer qsort pipe_name (listing box input) = do
  lines ← list_reply qsort box input
  show_listing pipe_name lines
show_answer qsort pipe_name other = pure (minus_one, printed_nothing)

unfoldable pub manage :
    Qsort → Host → List ℕ → List ℕ → List ℕ → Option (List ℕ) → Answer → ClientCmd (ℤ × Printed)
manage qsort host register_pipe_name pipe_name kind box_name answer = do
  register_pipe ← open_pipe host.system register_pipe_name
  created ← create_pipe host.system pipe_name
  if (created == 0) || eq_int register_pipe minus_one
      then pure (minus_one, printed_nothing)
      else (do
        send_type host kind pipe_name box_name
        tx ← open_pipe host.system pipe_name
        if eq_int tx minus_one
            then pure (minus_one, printed_nothing)
            else show_answer qsort pipe_name answer)

-- `main`, with `argv` from its element 1 on.
unfoldable pub manager_main : Qsort → Host → List (List ℕ) → Answer → ClientCmd (ℤ × Printed)
manager_main qsort host (register ∷ pipe_name ∷ kind ∷ box_name ∷ more) answer =
    manage qsort host register pipe_name kind (some box_name) answer
manager_main qsort host (register ∷ pipe_name ∷ kind ∷ []) answer =
    manage qsort host register pipe_name kind none answer
manager_main qsort host (register ∷ pipe_name ∷ []) answer = pure (minus_one, printed_nothing)
manager_main qsort host (register ∷ []) answer = pure (minus_one, printed_nothing)
manager_main qsort host [] answer = pure (minus_one, printed_nothing)
