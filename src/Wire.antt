-- ===== src/Wire.antt =====
-- utils/utils.c and the structures of utils/utils.h that pipes carry: arrays of bytes with strings in
-- them, and what reads and writes of a pipe move.
pub mod Strings
pub mod Requests
use so.Prelude.{
  ℕ, zero, suc, ◌+◌, ◌-◌, ◌≡◌, Bool, true, false, not, ◌&&◌, Option, none, some, List, [], ◌∷◌,
  ◌++◌, length, take, drop, replicate, ltb, leb, ◌==◌, if◌then◌else◌,
}
use so.Prelude.Int.{ℤ, pos, minus_one, eq_int}
use so.Prelude.Run.{Cmd, ok, fault, pure, out_of_bounds, ◌>>=◌, ◌>>◌}
use so.Prelude.Bytes.{splice}
use so.Boxes.{pipe_name_size, box_name_size}

abbrev pub message_size : ℕ
message_size = 1024

-- The next step of a chain, where there is a value.
abbrev pub and_some : {A B : Type 0} → Option A → (A → Option B) → Option B
and_some none next = none
and_some (some a) next = next a

-- The string at the start of an array; none where no byte of it is the terminator.
unfoldable pub string_at : List ℕ → Option (List ℕ)
string_at [] = none
string_at (c ∷ array) =
    let rest = string_at array in if c == 0 then some [] else and_some rest (λ s. some (c ∷ s))

-- `strcpy` into an array; none where it writes outside.
abbrev pub strcpy : List ℕ → List ℕ → Option (List ℕ)
strcpy array s =
    if ltb (length s) (length array) then some (splice 0 (s ++ (0 ∷ [])) array) else none

-- `memset(array + len, '\0', size - len)`
abbrev pub clear_from : ℕ → List ℕ → List ℕ → Option (List ℕ)
clear_from size array s =
    if leb (length s) size && leb size (length array)
    then some (splice (length s) (replicate (size - length s) 0) array)
    else none

unfoldable pub fill_string : ℕ → List ℕ → Option (List ℕ)
fill_string size array = and_some (string_at array) (clear_from size array)

-- A `read` of `size` bytes into an array: the array and what is left in the pipe.
abbrev pub read_pipe : ℕ → List ℕ → List ℕ → List ℕ × List ℕ
read_pipe size array pipe = (splice 0 (take size pipe) array, drop size pipe)

-- What the operating system answers about a pipe's path.
pub record System : Type 0 where
  -- `unlink` succeeds, or fails with ENOENT.
  pub unlinks : List ℕ → Bool
  pub makes : List ℕ → Bool
  -- The descriptor of `open`, or -1.
  pub opens : List ℕ → ℤ

abbrev pub tmp : List ℕ
tmp = b'/' ∷ b't' ∷ b'm' ∷ b'p' ∷ b'/' ∷ []

abbrev pub tmp_size : ℕ
tmp_size = 5

-- The path, in an array of `PIPE_NAME_SIZE + TMP_SIZE` bytes.
abbrev pub has_room : List ℕ → Bool
has_room pipename = ltb (length (tmp ++ pipename)) (pipe_name_size + tmp_size)

module _ {S : Type 0} where
  unfoldable pub create_pipe : System → List ℕ → Cmd S ℕ
  create_pipe system pipename =
      if not (has_room pipename)
      then out_of_bounds
      else if not (system.unlinks (tmp ++ pipename))
      then pure 0
      else if not (system.makes (tmp ++ pipename))
      then pure 0
      else pure 1

  -- `O_RDONLY` and `O_WRONLY` are left to the system.
  unfoldable pub open_pipe : System → List ℕ → Cmd S ℤ
  open_pipe system pipename =
      if not (has_room pipename)
      then out_of_bounds
      else if eq_int (system.opens (tmp ++ pipename)) minus_one
      then pure (pos 0)
      else pure (system.opens (tmp ++ pipename))

  -- A value that is none where the code leaves an array.
  abbrev pub or_fault : {A : Type 0} → Option A → Cmd S A
  or_fault none s = fault
  or_fault (some a) s = ok a s
