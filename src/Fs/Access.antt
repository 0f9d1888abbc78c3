-- ===== src/Fs/Access.antt =====
-- fs/state.c: the macros for the sizes, the range checks, and the scan that its allocators share.
-- `insert_delay` only spends time and is left out everywhere. An inode pointer is its index in
-- `inode_table`, a block pointer its offset in `fs_data`, and an open file entry pointer its index in
-- `open_file_table`. Numbers of inodes, blocks and handles are below 2 ^ 31, so the casts between
-- `size_t` and `int` keep their values.
use so.Prelude.{◌≡◌, ℕ, zero, suc, ◌+◌, ◌/◌, Bool, true, false, none, some, List, get_elem?, ltb}
use so.Prelude.Int.{ℤ, pos, negsuc, minus_one}
use so.Prelude.Run.{ok, fault, pure, out_of_bounds}
use so.Fs.Types.{AllocationState, free, taken, Fs, FsCmd, sizeof_dir_entry}

-- `x[i]` for an array of the state: a fault outside of it.
unfoldable pub at : {A : Type 0} → List A → ℕ → FsCmd A
at xs i s = elim (get_elem? xs i) [ none ↦ fault | some a ↦ ok a s ]

pub at-ok :
    {A : Type 0} (xs : List A) (i : ℕ) (s : Fs) {a : A}
    → get_elem? xs i ≡ some a
    → at xs i s ≡ ok a s
unfolding at
at-ok xs i s e = rw (e, at)

abbrev pub get : FsCmd Fs
get s = ok s s

abbrev pub put : Fs → FsCmd (Unit {0})
put s' s = ok tt s'

-- `INODE_TABLE_SIZE`, `DATA_BLOCKS`, `MAX_OPEN_FILES`, `BLOCK_SIZE` and `MAX_DIR_ENTRIES`.
abbrev pub inode_table_size : Fs → ℕ
inode_table_size s = s.fs_params.max_inode_count

abbrev pub data_blocks : Fs → ℕ
data_blocks s = s.fs_params.max_block_count

abbrev pub max_open_files : Fs → ℕ
max_open_files s = s.fs_params.max_open_files_count

abbrev pub block_size : Fs → ℕ
block_size s = s.fs_params.block_size

abbrev pub max_dir_entries : Fs → ℕ
max_dir_entries s = block_size s / sizeof_dir_entry

-- `0 <= n && n < size`
abbrev pub in_range : ℤ → ℕ → Bool
in_range (pos n) size = ltb n size
in_range (negsuc n) size = false

abbrev pub valid_inumber : Fs → ℤ → Bool
valid_inumber s n = in_range n (inode_table_size s)

abbrev pub valid_block_number : Fs → ℤ → Bool
valid_block_number s n = in_range n (data_blocks s)

abbrev pub valid_file_handle : Fs → ℤ → Bool
valid_file_handle s n = in_range n (max_open_files s)

abbrev pub is_taken : AllocationState → Bool
is_taken free = false
is_taken taken = true

-- The index that a number which has passed its check stands for.
abbrev pub index : ℤ → ℕ
index (pos n) = n
index (negsuc n) = 0

-- The loop of the three allocators: the first index from `i` on, within `n` rounds, that is FREE,
-- or -1.
unfoldable pub scan_free : List AllocationState → ℕ → ℕ → FsCmd ℤ
scan_free table zero i = pure minus_one
scan_free table (suc n) i = elim (get_elem? table i) [
  | none ↦ out_of_bounds
  | some free ↦ pure (pos i)
  | some taken ↦ scan_free table n (i + 1)
]

abbrev pub set_data : List ℕ → FsCmd (Unit {0})
set_data mem s = ok tt (record s { fs_data = mem })
