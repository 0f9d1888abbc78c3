-- ===== src/Fs/DirBlock.antt =====
-- Writing an entry of the root directory: what it leaves alone.
use so.Prelude.{ℕ, ◌+◌, ◌*◌, ◌≤◌, ◌<◌, ◌≡◌, ◌≢◌, ap, ◌∙◌, List, length, arith}
use native.Mathlib.Decide.{dec_lt}
use so.Prelude.Int.{ℤ, pos}
use so.Prelude.Bytes.{slice}
use so.Fs.Types.{Inode, Fs}
use so.Fs.Access.{block_size, max_dir_entries}
use so.Fs.BlockLaws.{Block-inside, block_before}
use so.Fs.Directory.{entry_at}
use so.Fs.Directory.Entries.{IsSmall, filled, slice-filled_before, slice-filled_after}
use so.Fs.Lookup.{root_block-lt}
use so.Fs.Valid.{Holds, IsValid, file_bytes}

-- The entries of the root directory lie in the array of blocks.
pub entries-inside :
    (s : Fs) (v : IsValid s) → v.root.0 * block_size s + max_dir_entries s * 44 ≤ length s.fs_data
entries-inside s v = omega (arith, Block-inside s v.root.0 v.shape (root_block-lt s v))

module _ (s : Fs) (k : ℕ) (bs : List ℕ) (number : ℤ) (v : IsValid s) (small : IsSmall number)
    (whole : length bs ≡ 40) (in_dir : k < max_dir_entries s) where
  abbrev base : ℕ
  base = v.root.0 * block_size s

  abbrev mem' : List ℕ
  mem' = filled (entry_at base k) bs number s.fs_data

  entry_in_block : entry_at base k + 44 ≤ base + block_size s
  entry_in_block = omega arith

  pub entry_in_data : entry_at (v.root.0 * block_size s) k + 44 ≤ length s.fs_data
  entry_in_data = omega (arith, entries-inside s v)

  file_block :
      (c i : ℕ) (o : Inode)
      → Holds s i o
      → i ≢ 0
      → 0 < o.i_size
      → o.i_data_block ≡ pos c
      → c ≢ v.root.0
  file_block c i o held ne some_bytes eq same =
      ne (v.apart i 0 o _ held v.root.1 some_bytes v.shape.some_bytes (eq ∙ ap pos same))

  other_block :
      (c : ℕ)
      → c ≢ v.root.0
      → (l : ℕ) → l ≤ block_size s
      → slice (c * block_size s) l mem' ≡ slice (c * block_size s) l s.fs_data
  other_block c ne l le = elim (dec_lt c v.root.0) [
    | yes below ↦
        slice-filled_before (entry_at base k) bs number s.fs_data small whole entry_in_data
          (c * block_size s) l (omega (arith, block_before c v.root.0 (block_size s) below))
    | no above ↦
        slice-filled_after (entry_at base k) bs number s.fs_data small whole entry_in_data
          (c * block_size s) l
          (omega (arith, block_before v.root.0 c (block_size s) (omega arith), entry_in_block))
  ]

  -- The bytes of the files stay as they are.
  pub filled-file_bytes :
      (i : ℕ) (o : Inode)
      → Holds s i o
      → i ≢ 0
      → file_bytes
          (record s { fs_data = filled (entry_at (v.root.0 * block_size s) k) bs number s.fs_data })
          o
        ≡ file_bytes s o
  filled-file_bytes i o held ne = elim (dec_lt 0 o.i_size) [
    | no none_there ↦ let zero_size : o.i_size ≡ 0 = omega arith in rw zero_size
    | yes some_bytes ↦
        let (c, eq, state) = v.blocks i o held some_bytes in
        rw eq (other_block c (file_block c i o held ne some_bytes eq) o.i_size (v.sizes i o held))
  ]
