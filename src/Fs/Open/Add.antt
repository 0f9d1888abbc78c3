-- ===== src/Fs/Open/Add.antt =====
-- The entry of a new file in the root directory, and the invariant behind it.
use so.Prelude.{
  ℕ, ◌+◌, ◌*◌, ◌^◌, ◌≤◌, ◌<◌, ◌≡◌, ◌≢◌, refl, ap, ◌⊎◌, inl, inr, false, List, length, set, arith,
  ltb, subst, lt→ltb,
}
use native.Mathlib.Decide.{ℕ_discrete}
use so.Prelude.Int.{ℤ, pos, minus_one}
use so.Prelude.Run.{ok}
use so.Fs.Types.{Inode, Fs, free}
use so.Fs.Access.{at-ok, block_size, max_dir_entries, inode_table_size}
use so.Fs.Directory.{entry_at, entry_inumber}
use so.Fs.Directory.Entries.{
  filled, name_bytes, length-name_bytes, length-filled, entry_inumber-filled,
  entry_inumber-filled_ne,
}
use so.Fs.Directory.Search.{First, is_empty, entry-Apart}
use so.Fs.DirBlock.{entry_in_data, filled-file_bytes}
use so.Fs.Inodes.{inode_delete}
use so.Fs.Open.Create.{
  new_file, created, created-Shape, created-Holds, new-Holds, Holds-created, old-Holds, ne_root,
}
use so.Fs.Scan.{FirstFree}
use so.Fs.Valid.{Shape-data, Holds, IsEntry, IsValid, file_bytes}

-- `inode_delete` gives back an inode that has no block.
pub inode_delete-empty :
    (s : Fs) (j : ℕ) (n : Inode)
    → Holds s j n
    → n.i_size ≡ 0
    → j < inode_table_size s
    → inode_delete (pos j) s ≡ ok tt (record s { freeinode_ts = set s.freeinode_ts j free })
unfolding inode_delete
inode_delete-empty s j n holds empty h =
    let no_block : ltb 0 n.i_size ≡ false = ground arith in
    rw (
      lt→ltb j (inode_table_size s) h,
      at-ok s.freeinode_ts j s holds.0,
      at-ok s.inode_table j s holds.1,
      no_block,
    )

-- The state with the new file and its directory entry, at entry `k` of the directory at `base`.
abbrev pub added : Fs → ℕ → ℕ → ℕ → List ℕ → Fs
added s base j k name = record (created s j) {
  fs_data = filled (entry_at base k) (name_bytes name) (pos j) s.fs_data;
}

module _ (s : Fs) (j k : ℕ) (name : List ℕ) (v : IsValid s) (first : FirstFree s.freeinode_ts 0 j)
    (inside : j < inode_table_size s)
    (empty : First (is_empty s.fs_data (v.root.0 * block_size s)) 0 k)
    (in_dir : k < max_dir_entries s) where
  abbrev base : ℕ
  base = v.root.0 * block_size s

  abbrev after : Fs
  after = added s base j k name

  small : (pos j ≡ minus_one) ⊎ ((i : ℕ) × (pos j ≡ pos i) × (i < 2 ^ 31))
  small = inr (j, refl, omega (arith, v.shape.few_inodes))

  in_data : entry_at base k + 44 ≤ length s.fs_data
  in_data = entry_in_data s k (name_bytes name) (pos j) v small (length-name_bytes name) in_dir

  added-entries :
      (i : ℕ)
      → i < max_dir_entries s
      → IsEntry after (entry_inumber after.fs_data (entry_at base i))
  added-entries i lt = elim (ℕ_discrete k i) [
    | yes p ↦
        subst (λ t. IsEntry after (entry_inumber after.fs_data (entry_at base t))) p
          (rw
            (entry_inumber-filled (entry_at base k) (name_bytes name) (pos j) s.fs_data small
              (length-name_bytes name) in_data)
            (inr (
              j,
              new_file,
              refl,
              ne_root s j v first inside,
              omega (arith, v.shape.few_inodes),
              new-Holds s j v first inside,
            )))
    | no ne ↦
        rw
          (entry_inumber-filled_ne (entry_at base k) (name_bytes name) (pos j) s.fs_data small
            (length-name_bytes name) in_data (entry_at base i) (entry-Apart base k i ne))
          (kept (v.entries i lt))
  ]
    where
      kept : {number : ℤ} → IsEntry s number → IsEntry after number
      kept (inl e) = inl e
      kept (inr (i', o, eq, ne, lt', held)) =
          inr (i', o, eq, ne, lt', created-Holds s j v first inside i' o held)

  pub added-IsValid : IsValid after
  added-IsValid = record {
    shape = Shape-data (created s j) after.fs_data (created-Shape s j v first inside) (
        length-filled (entry_at base k) (name_bytes name) (pos j) s.fs_data small
          (length-name_bytes name) in_data);
    sizes = λ i o h. added-sizes i o (Holds-created s j v first inside i o h);
    blocks =
        λ i o h some_bytes. v.blocks i o (old-Holds s j v first inside i o h some_bytes) some_bytes;
    apart = λ i i' o o' h h' some_o some_o'.
        v.apart i i' o o' (old-Holds s j v first inside i o h some_o)
          (old-Holds s j v first inside i' o' h' some_o') some_o some_o';
    root = (v.root.0, created-Holds s j v first inside 0 _ v.root.1);
    entries = added-entries;
    handles = λ h e opened.
        let (i, o, eq, ne, held, le) = v.handles h e opened in
        (i, o, eq, ne, created-Holds s j v first inside i o held, le);
  }
    where
      added-sizes :
          (i : ℕ) (o : Inode) → ((j ≡ i) × (new_file ≡ o)) ⊎ Holds s i o → o.i_size ≤ block_size s
      added-sizes i o (inl (p, q)) =
          let no_bytes : 0 ≡ o.i_size = ap (λ t. t.i_size) q in omega arith
      added-sizes i o (inr held) = v.sizes i o held

  -- The bytes of the files stay as they are.
  pub added-file_bytes :
      (i : ℕ) (o : Inode) → Holds s i o → i ≢ 0 → file_bytes after o ≡ file_bytes s o
  added-file_bytes i o held ne =
      filled-file_bytes s k (name_bytes name) (pos j) v small (length-name_bytes name) in_dir i o
        held ne
