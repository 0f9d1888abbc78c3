-- ===== src/Fs/Open/Names.antt =====
-- What a lookup finds behind the creation of a file.
use so.Prelude.{
  ℕ, ◌+◌, ◌*◌, ◌≤◌, ◌<◌, ◌≡◌, ◌≢◌, sym, ◌∙◌, inl, inr, true, false, not, ◌&&◌, List, length, arith,
  subst,
}
use so.Prelude.Int.{pos, minus_one, eq_int}
use so.Fs.Types.{Inode, Fs}
use so.Fs.Access.{block_size, max_dir_entries, inode_table_size}
use so.Fs.Directory.Names.{IsName, find_loop-added, find_loop-added_ne}
use so.Fs.BlockLaws.{Block-inside}
use so.Prelude.Bytes.{strncmp_eq}
use so.Fs.Types.{max_file_name}
use so.Fs.Directory.{entry_at, entry_name}
use so.Fs.Lookup.{lookup, root_block-lt}
use so.Fs.Open.Add.{added, added-file_bytes}
use so.Fs.Valid.{Holds, IsValid, file_bytes}
use so.Fs.Scan.{FirstFree}
use so.Fs.Directory.Search.{First, NoneOf, names, is_empty, FindsIn, find_loop-FindsIn}

pub lookup-NoneOf :
    (s : Fs) (b : ℕ) (name : List ℕ)
    → lookup s b name ≡ minus_one
    → NoneOf (names s.fs_data (b * block_size s) name) 0 (max_dir_entries s)
lookup-NoneOf s b name absent =
    go (find_loop-FindsIn s.fs_data (b * block_size s) name (max_dir_entries s) 0)
  where
    go :
        FindsIn s.fs_data (b * block_size s) name (max_dir_entries s) 0
        → NoneOf (names s.fs_data (b * block_size s) name) 0 (max_dir_entries s)
    go (inl (all, e)) = all
    go (inr (k, f, hi, e)) = absurd (
        let hit : false ≡ true =
          subst
            (λ z.
              (not (eq_int z minus_one)
                && strncmp_eq max_file_name (entry_name s.fs_data (entry_at (b * block_size s) k))
                    name)
              ≡ true)
            (sym e ∙ absent) f.passes in
        cc)

module _ (s : Fs) (j k : ℕ) (name : List ℕ) (v : IsValid s) (is_name : IsName name)
    (first : FirstFree s.freeinode_ts 0 j) (inside : j < inode_table_size s)
    (empty : First (is_empty s.fs_data (v.root.0 * block_size s)) 0 k)
    (in_dir : k < max_dir_entries s) where
  abbrev base : ℕ
  base = v.root.0 * block_size s

  small : j < 2_147_483_648
  small = omega (arith, v.shape.few_inodes)

  bounds : base + max_dir_entries s * 44 ≤ length s.fs_data
  bounds = omega (arith, Block-inside s v.root.0 v.shape (root_block-lt s v))

  -- The new name leads to its inode.
  pub added-lookup :
      lookup s v.root.0 name ≡ minus_one
      → lookup (added s (v.root.0 * block_size s) j k name) v.root.0 name ≡ pos j
  added-lookup absent =
      find_loop-added s.fs_data base name j (max_dir_entries s) k is_name small empty in_dir bounds
        (lookup-NoneOf s v.root.0 name absent)

  -- Every other name leads where it led, and every file has its bytes.
  pub added-keeps :
      (other : List ℕ) (i : ℕ) (o : Inode)
      → IsName other
      → other ≢ name
      → Holds s i o
      → i ≢ 0
      → (lookup (added s (v.root.0 * block_size s) j k name) v.root.0 other
          ≡ lookup s v.root.0 other)
        × (file_bytes (added s (v.root.0 * block_size s) j k name) o ≡ file_bytes s o)
  added-keeps other i o is_other ne holds not_root = (
    find_loop-added_ne s.fs_data base name j (max_dir_entries s) k is_name small empty in_dir bounds
        other is_other ne,
    added-file_bytes s j k name v first inside empty in_dir i o holds not_root,
  )
