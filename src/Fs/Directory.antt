-- ===== src/Fs/Directory.antt =====
-- fs/state.c: the entries of a directory, as bytes of its data block.
pub mod Entries
pub mod Search
pub mod Names
pub mod Tidy
pub mod Clear
pub mod Grow
pub mod Slices
use so.Prelude.{
  ℕ, zero, suc, ◌+◌, ◌-◌, ◌*◌, ◌/◌, ◌%◌, ◌^◌, Bool, true, false, not, ◌&&◌, ◌||◌, Option, none,
  some, List, [], ◌∷◌, ◌++◌, length, get_elem?, set, drop, replicate, ltb, leb, ◌==◌, if◌then◌else◌,
}
use so.Prelude.Int.{ℤ, pos, negsuc, minus_one, eq_int, is_neg, to_word, of_word}
use so.Prelude.Run.{
  Cmd, Run, ok, exited, fault, blocked, pure, exit_failure, out_of_bounds, ◌>>=◌, ◌>>◌,
  always_assert,
}
use so.Prelude.Bytes.{slice, splice, strcmp_eq, strncmp_eq, strncpy_bytes}
use so.Fs.Types.{
  Params, InodeType, t_file, t_directory, Inode, AllocationState, free, taken, OpenFileEntry, Fs,
  Allocation, FsCmd, max_file_name, sizeof_dir_entry,
}
use so.Fs.Access.{
  at, get, put, inode_table_size, data_blocks, max_open_files, block_size, max_dir_entries,
  valid_inumber, valid_block_number, valid_file_handle, is_taken, index, scan_free, set_data,
}
use so.Fs.Blocks.{data_block_get}

-- The bytes of an `int`, least significant first, and back.
unfoldable pub word_bytes : ℕ → List ℕ
word_bytes w = (w % 256) ∷ (w / 256 % 256) ∷ (w / 65536 % 256) ∷ (w / 16777216 % 256) ∷ []

unfoldable pub word_of : List ℕ → ℕ
word_of (a ∷ b ∷ c ∷ d ∷ rest) = a + 256 * b + 65536 * c + 16777216 * d
word_of (a ∷ b ∷ c ∷ []) = 0
word_of (a ∷ b ∷ []) = 0
word_of (a ∷ []) = 0
word_of [] = 0

-- `&dir_entry[i]`, for the directory block that starts at `base`.
abbrev pub entry_at : ℕ → ℕ → ℕ
entry_at base i = base + i * sizeof_dir_entry

unfoldable pub entry_inumber : List ℕ → ℕ → ℤ
entry_inumber mem a = of_word (word_of (slice (a + max_file_name) 4 mem))

unfoldable pub set_entry_inumber : ℕ → ℤ → List ℕ → List ℕ
set_entry_inumber a n mem = splice (a + max_file_name) (word_bytes (to_word n)) mem

unfoldable pub entry_name : List ℕ → ℕ → List ℕ
entry_name mem a = slice a max_file_name mem

-- The loop of `inode_create` that marks each entry as empty.
unfoldable pub empty_entries : ℕ → ℕ → ℕ → List ℕ → List ℕ
empty_entries base zero i mem = mem
empty_entries base (suc n) i mem =
    empty_entries base n (i + 1) (set_entry_inumber (entry_at base i) minus_one mem)

-- The loop of `clear_dir_entry`: the array after the first entry of that name, whatever its
-- `d_inumber`, is cleared. `strcmp` reads on from the start of `d_name`.
unfoldable pub clear_loop : List ℕ → ℕ → List ℕ → ℕ → ℕ → Option (List ℕ)
clear_loop mem base sub_name zero i = none
clear_loop mem base sub_name (suc n) i =
    let a = entry_at base i in
    let rest = clear_loop mem base sub_name n (i + 1) in
    if strcmp_eq (drop a mem) sub_name
    then some (splice a (replicate max_file_name 0) (set_entry_inumber a minus_one mem))
    else rest

-- The loop of `add_dir_entry`: the array after the first empty entry is filled.
unfoldable pub add_loop : List ℕ → ℕ → List ℕ → ℤ → ℕ → ℕ → Option (List ℕ)
add_loop mem base sub_name sub_inumber zero i = none
add_loop mem base sub_name sub_inumber (suc n) i =
    let a = entry_at base i in
    let rest = add_loop mem base sub_name sub_inumber n (i + 1) in
    if eq_int (entry_inumber mem a) minus_one
    then some (
        splice a (strncpy_bytes (max_file_name - 1) sub_name ++ (0 ∷ []))
          (set_entry_inumber a sub_inumber mem))
    else rest

-- The loop of `find_in_dir`.
unfoldable pub find_loop : List ℕ → ℕ → List ℕ → ℕ → ℕ → ℤ
find_loop mem base sub_name zero i = minus_one
find_loop mem base sub_name (suc n) i =
    let a = entry_at base i in
    let rest = find_loop mem base sub_name n (i + 1) in
    if not (eq_int (entry_inumber mem a) minus_one)
      && strncmp_eq max_file_name (entry_name mem a) sub_name
    then entry_inumber mem a
    else rest

abbrev pub is_directory : InodeType → Bool
is_directory t_file = false
is_directory t_directory = true

abbrev pub stored : Option (List ℕ) → FsCmd ℤ
stored none s = ok minus_one s
stored (some mem) s = ok (pos 0) (record s { fs_data = mem })

unfoldable pub clear_dir_entry : ℕ → List ℕ → FsCmd ℤ
clear_dir_entry k sub_name = do
  s ← get
  inode ← at s.inode_table k
  if not (is_directory inode.i_node_type) then pure minus_one else (do
    base ← data_block_get inode.i_data_block
    stored (clear_loop s.fs_data base sub_name (max_dir_entries s) 0))

unfoldable pub add_dir_entry : ℕ → List ℕ → ℤ → FsCmd ℤ
add_dir_entry k sub_name sub_inumber =
    if (length sub_name == 0) || ltb (max_file_name - 1) (length sub_name)
    then pure minus_one
    else (do
      s ← get
      inode ← at s.inode_table k
      if not (is_directory inode.i_node_type) then pure minus_one else (do
        base ← data_block_get inode.i_data_block
        stored (add_loop s.fs_data base sub_name sub_inumber (max_dir_entries s) 0)))

unfoldable pub find_in_dir : ℕ → List ℕ → FsCmd ℤ
find_in_dir k sub_name = do
  s ← get
  inode ← at s.inode_table k
  if not (is_directory inode.i_node_type) then pure minus_one else (do
    base ← data_block_get inode.i_data_block
    pure (find_loop s.fs_data base sub_name (max_dir_entries s) 0))
