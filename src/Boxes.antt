-- ===== src/Boxes.antt =====
-- mbroker/mbroker.c: the array of message boxes and the functions that search and change it.
pub mod Search
pub mod Delete
pub mod Add
mod Tests
use so.Prelude.{
  ℕ, zero, suc, ◌+◌, ◌-◌, ◌%◌, ◌^◌, Bool, true, false, ◌&&◌, Option, none, some, List, [], ◌∷◌,
  length, get_elem?, set, take, ltb, ◌==◌, if◌then◌else◌,
}
use so.Prelude.Int.{ℤ, pos, negsuc, minus_one}
use so.Prelude.Run.{Cmd, Run, ok, blocked, fault, pure, out_of_bounds, ◌>>=◌, ◌>>◌}

-- `box_t`. A string is its bytes before the terminator.
pub record Box : Type 0 where
  pub box_name : List ℕ
  pub publisher : List ℕ
  pub box_size : ℕ
  pub n_publishers : ℕ
  pub n_subscribers : ℕ
  pub subscribers : List (List ℕ)
  pub subscriber_index : ℤ
  pub last : ℕ

-- The static variables `boxes` and `n_boxes`, and whether `mutex` is held.
pub record Boxes : Type 0 where
  pub boxes : List Box
  pub n_boxes : ℕ
  pub mutex_locked : Bool

abbrev pub max_boxes : ℕ
max_boxes = 64

abbrev pub pipe_name_size : ℕ
pipe_name_size = 256

abbrev pub box_name_size : ℕ
box_name_size = 32

abbrev pub BoxesCmd : Type 0 → Type 0
BoxesCmd = Cmd Boxes

abbrev pub read : BoxesCmd Boxes
read s = ok s s

-- `boxes[i]`, and an assignment to it.
unfoldable pub box_at : ℕ → BoxesCmd Box
box_at i s = elim (get_elem? s.boxes i) [ none ↦ fault | some b ↦ ok b s ]

unfoldable pub set_box : ℕ → Box → BoxesCmd (Unit {0})
set_box i b s =
    if ltb i (length s.boxes) then ok tt (record s { boxes = set s.boxes i b }) else fault

unfoldable pub lock_boxes : BoxesCmd (Unit {0})
lock_boxes s = if s.mutex_locked then blocked else ok tt (record s { mutex_locked = true })

unfoldable pub unlock_boxes : BoxesCmd (Unit {0})
unlock_boxes s = ok tt (record s { mutex_locked = false })

-- `strcmp` on two strings, as a test for equality.
unfoldable pub same_text : List ℕ → List ℕ → Bool
same_text [] [] = true
same_text [] (d ∷ t) = false
same_text (c ∷ s) [] = false
same_text (c ∷ s) (d ∷ t) = (c == d) && same_text s t

-- The loop of `find_box`, over `n` boxes from `i` on; none where it leaves the array.
unfoldable pub find_from : List Box → List ℕ → ℕ → ℕ → Option ℤ
find_from boxes name zero i = some minus_one
find_from boxes name (suc n) i =
    let rest = find_from boxes name n (i + 1) in
    elim (get_elem? boxes i) [
      | none ↦ none
      | some b ↦ if same_text b.box_name name then some (pos i) else rest
    ]

abbrev pub in_bounds : Option ℤ → BoxesCmd ℤ
in_bounds none s = fault
in_bounds (some i) s = ok i s

unfoldable pub find_box : List ℕ → BoxesCmd ℤ
find_box name = do
  lock_boxes
  s ← read
  i ← in_bounds (find_from s.boxes name s.n_boxes 0)
  unlock_boxes
  pure i

-- The condition variable and the mutex of box `i` are used: they are in arrays of `MAX_BOXES`.
abbrev pub use_condition : ℕ → BoxesCmd (Unit {0})
use_condition i s = if ltb i max_boxes then ok tt s else fault

unfoldable pub add_box : Box → BoxesCmd (Unit {0})
add_box box = do
  lock_boxes
  s ← read
  set_box s.n_boxes box
  use_condition s.n_boxes
  s' ← read
  (λ t. ok tt (record t { n_boxes = (s'.n_boxes + 1) % 2 ^ 64 }))
  unlock_boxes

-- What `delete_box` puts at the place of `there`: the fields of `here` that it moves. `subscribers`
-- and `subscriber_index` are not among them.
abbrev pub moved_over : Box → Box → Box
moved_over here there = record here {
  subscribers = there.subscribers;
  subscriber_index = there.subscriber_index;
}

unfoldable pub delete_box : ℕ → BoxesCmd (Unit {0})
delete_box i = do
  lock_boxes
  s ← read
  let end = (s.n_boxes + 2 ^ 64 - 1) % 2 ^ 64
  box ← box_at i
  end_box ← box_at end
  set_box i (moved_over end_box box)
  set_box end (moved_over box end_box)
  use_condition s.n_boxes
  (λ t. ok tt (record t { n_boxes = end }))
  unlock_boxes

-- `subscribers[i]`, with `strncpy` of at most `PIPE_NAME_SIZE` bytes.
unfoldable pub set_subscriber : Box → ℤ → List ℕ → BoxesCmd Box
set_subscriber box (negsuc n) pipe_name s = fault
set_subscriber box (pos i) pipe_name s =
    if ltb i (length box.subscribers)
    then ok (record box { subscribers = set box.subscribers i (take pipe_name_size pipe_name) }) s
    else fault

abbrev pub next_index : ℤ → ℤ
next_index (pos n) = pos (n + 1)
next_index (negsuc zero) = pos 0
next_index (negsuc (suc n)) = negsuc n

unfoldable pub add_subscriber_to_box : ℕ → List ℕ → BoxesCmd (Unit {0})
add_subscriber_to_box box_index pipe_name = do
  lock_boxes
  box ← box_at box_index
  box' ← set_subscriber box box.subscriber_index pipe_name
  set_box box_index (record box' { subscriber_index = next_index box'.subscriber_index })
  unlock_boxes
