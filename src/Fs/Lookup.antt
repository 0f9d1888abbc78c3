-- ===== src/Fs/Lookup.antt =====
-- Looking up a name in the root directory of a valid state.
use so.Prelude.{ℕ, ap, subst, ◌*◌, ◌<◌, ◌≡◌, refl, inl, inr, true, List, arith, lt_of_get_elem?}
use so.Prelude.Int.{ℤ, pos}
use so.Prelude.Run.{ok}
use so.Fs.Types.{t_directory, Inode, Fs}
use so.Fs.Access.{index, at-ok, block_size, data_blocks, max_dir_entries}
use so.Fs.BlockLaws.{data_block_get-ok}
use so.Fs.Directory.{entry_at, entry_inumber, find_in_dir, find_loop}
use so.Fs.Directory.Search.{FindsIn, find_loop-FindsIn}
use so.Fs.Inodes.{inode_get}
use so.Fs.Operations.{CString, valid_pathname, after_slash, tfs_lookup}
use so.Fs.Valid.{Holds, IsEntry, IsValid}
use so.Fs.Write.Outcome.{inode_get-ok}

abbrev pub root_inode : Fs → ℕ → Inode
root_inode s b = record { i_node_type = t_directory; i_size = block_size s; i_data_block = pos b }

-- The number that the root directory, in block `b`, has for a name, or -1.
abbrev pub lookup : Fs → ℕ → List ℕ → ℤ
lookup s b name = find_loop s.fs_data (b * block_size s) name (max_dir_entries s) 0

pub root_block-lt : (s : Fs) (v : IsValid s) → v.root.0 < data_blocks s
root_block-lt s v =
    let (b, eq, state) = v.blocks 0 (root_inode s v.root.0) v.root.1 v.shape.some_bytes in
    let same : v.root.0 ≡ b = cc in
    omega (arith, lt_of_get_elem? s.free_blocks b state, v.shape.block_states)

pub root-inode_get : (s : Fs) → IsValid s → inode_get (pos 0) s ≡ ok 0 s
root-inode_get s v =
    inode_get-ok s (pos 0) 0 refl
      (omega (arith, lt_of_get_elem? s.inode_table 0 v.root.1.1, v.shape.inodes))

pub find_in_dir-lookup :
    (s : Fs) (v : IsValid s) (name : List ℕ) → find_in_dir 0 name s ≡ ok (lookup s v.root.0 name) s
unfolding find_in_dir
find_in_dir-lookup s v name =
    rw
      (at-ok s.inode_table 0 s v.root.1.1, data_block_get-ok s v.root.0 v.shape (root_block-lt s v))

pub tfs_lookup-lookup :
    (s : Fs) (v : IsValid s) (name : CString)
    → valid_pathname name ≡ true
    → tfs_lookup name 0 s ≡ ok (lookup s v.root.0 (after_slash name)) s
unfolding tfs_lookup
tfs_lookup-lookup s v name h = rw h (find_in_dir-lookup s v (after_slash name))

-- A lookup ends in -1 or in a file.
pub lookup-IsEntry : (s : Fs) (v : IsValid s) (name : List ℕ) → IsEntry s (lookup s v.root.0 name)
lookup-IsEntry s v name =
    go (find_loop-FindsIn s.fs_data (v.root.0 * block_size s) name (max_dir_entries s) 0)
  where
    go :
        FindsIn s.fs_data (v.root.0 * block_size s) name (max_dir_entries s) 0
        → IsEntry s (lookup s v.root.0 name)
    go (inl (all, e)) = inl e
    go (inr (k, f, hi, e)) = rw e (v.entries k (omega arith))

-- The root directory is in one block.
pub root_block_unique : (s : Fs) (b : ℕ) (v : IsValid s) → Holds s 0 (root_inode s b) → v.root.0 ≡ b
root_block_unique s b v holds =
    let there = v.root.1.1 in
    let also = holds.1 in
    let same : root_inode s v.root.0 ≡ root_inode s b = cc in
    ap (λ (t : Inode). index t.i_data_block) same

-- The invariant with the block of the root directory made known.
abbrev pub at_root : (s : Fs) (b : ℕ) → IsValid s → Holds s 0 (root_inode s b) → IsValid s
at_root s b v holds = record {
  shape = v.shape;
  sizes = v.sizes;
  blocks = v.blocks;
  apart = v.apart;
  root = (b, holds);
  entries =
      subst
        (λ t.
          (i : ℕ)
          → i < max_dir_entries s
          → IsEntry s (entry_inumber s.fs_data (entry_at (t * block_size s) i)))
        (root_block_unique s b v holds) v.entries;
  handles = v.handles;
}
