-- ===== src/Fs/Valid.antt =====
-- The invariant of TécnicoFS between two calls.
use so.Prelude.{
  ℕ, ◌*◌, ◌^◌, ◌≤◌, ◌<◌, ◌≡◌, ◌≢◌, ◌⊎◌, some, List, ap, sym, ◌∙◌, subst, length, get_elem?,
}
use so.Prelude.Int.{ℤ, pos, minus_one}
use so.Prelude.Bytes.{slice}
use so.Fs.Types.{t_directory, Inode, taken, OpenFileEntry, Fs}
use so.Fs.Access.{inode_table_size, data_blocks, max_open_files, block_size, max_dir_entries, index}
use so.Fs.Directory.{entry_at, entry_inumber}

-- The arrays have the sizes of `fs_params`, and sizes stay far from the end of `size_t`.
abbrev pub Shape : Fs → Type 0
Shape s = record {
  inodes : length s.inode_table ≡ inode_table_size s;
  inode_states : length s.freeinode_ts ≡ inode_table_size s;
  bytes : length s.fs_data ≡ data_blocks s * block_size s;
  block_states : length s.free_blocks ≡ data_blocks s;
  files : length s.open_file_table ≡ max_open_files s;
  file_states : length s.free_open_file_entries ≡ max_open_files s;
  some_bytes : 0 < block_size s;
  small_blocks : block_size s < 2 ^ 62;
  few_inodes : inode_table_size s ≤ 2 ^ 31;
}

-- Inode `k` is TAKEN and is `n`.
abbrev pub Holds : Fs → ℕ → Inode → Type 0
Holds s k n = (get_elem? s.freeinode_ts k ≡ some taken) × (get_elem? s.inode_table k ≡ some n)

-- Handle `h` is open, with this entry.
abbrev pub IsOpen : Fs → ℕ → OpenFileEntry → Type 0
IsOpen s h e =
    (get_elem? s.free_open_file_entries h ≡ some taken) × (get_elem? s.open_file_table h ≡ some e)

-- The block that a file with bytes has.
abbrev pub HasBlock : Fs → Inode → Type 0
HasBlock s n = (b : ℕ) × (n.i_data_block ≡ pos b) × (get_elem? s.free_blocks b ≡ some taken)

-- The bytes of a file.
abbrev pub file_bytes : Fs → Inode → List ℕ
file_bytes s n = slice (index n.i_data_block * block_size s) n.i_size s.fs_data

-- A directory entry is empty, or names a TAKEN inode that is not the root.
abbrev pub IsEntry : Fs → ℤ → Type 0
IsEntry s inumber =
    (inumber ≡ minus_one)
    ⊎ ((k : ℕ) × (n : Inode) × (inumber ≡ pos k) × (k ≢ 0) × (k < 2 ^ 31) × Holds s k n)

-- An open file entry is of a TAKEN inode other than the root, at most at its end.
abbrev pub IsHandle : Fs → OpenFileEntry → Type 0
IsHandle s e =
    (k : ℕ) × (n : Inode) × (e.of_inumber ≡ pos k)
    × (k ≢ 0)
    × Holds s k n
    × (e.of_offset ≤ n.i_size)

abbrev pub IsValid : Fs → Type 0
IsValid s = record {
  shape : Shape s;
  sizes : (k : ℕ) (n : Inode) → Holds s k n → n.i_size ≤ block_size s;
  blocks : (k : ℕ) (n : Inode) → Holds s k n → 0 < n.i_size → HasBlock s n;
  apart :
      (j k : ℕ) (m n : Inode)
      → Holds s j m
      → Holds s k n
      → 0 < m.i_size
      → 0 < n.i_size
      → m.i_data_block ≡ n.i_data_block
      → j ≡ k;
  root :
      (b : ℕ) × Holds s 0
        (record { i_node_type = t_directory; i_size = block_size s; i_data_block = pos b });
  entries :
      (i : ℕ)
      → i < max_dir_entries s
      → IsEntry s (entry_inumber s.fs_data (entry_at (root.0 * block_size s) i));
  handles : (h : ℕ) (e : OpenFileEntry) → IsOpen s h e → IsHandle s e;
}

-- The inode of an open handle, as the invariant knows it.
pub IsOpen-Holds :
    (s : Fs) (h k : ℕ) (e : OpenFileEntry) (n : Inode)
    → IsValid s
    → IsOpen s h e
    → e.of_inumber ≡ pos k
    → Holds s k n
    → (k ≢ 0) × (e.of_offset ≤ n.i_size)
IsOpen-Holds s h k e n v opened number holds =
    let (j, o, number', ne, held, le) = v.handles h e opened in
    let same : j ≡ k = ap index (sym number' ∙ number) in
    let there : get_elem? s.inode_table k ≡ some o =
      subst (λ t. get_elem? s.inode_table t ≡ some o) same held.1 in
    let same_inode : o ≡ n = let found = holds.1 in cc in
    ((λ z. ne (same ∙ z)), subst (λ (t : Inode). e.of_offset ≤ t.i_size) same_inode le)

-- Data of the same length keep the shape.
pub Shape-data :
    (s : Fs) (mem : List ℕ)
    → Shape s
    → length mem ≡ length s.fs_data
    → Shape (record s { fs_data = mem })
Shape-data s mem shape same = record {
  inodes = shape.inodes;
  inode_states = shape.inode_states;
  bytes = same ∙ shape.bytes;
  block_states = shape.block_states;
  files = shape.files;
  file_states = shape.file_states;
  some_bytes = shape.some_bytes;
  small_blocks = shape.small_blocks;
  few_inodes = shape.few_inodes;
}
