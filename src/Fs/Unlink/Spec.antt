-- ===== src/Fs/Unlink/Spec.antt =====
-- What `tfs_unlink` of fs/operations.c does on each branch.
use so.Prelude.{
  ℕ, ◌*◌, ◌<◌, ◌≡◌, ◌≢◌, refl, sym, ap, ◌∙◌, ◌⊎◌, inl, inr, true, false, some, List, length,
  get_elem?, get_elem?-set_self, lt_of_get_elem?, arith, ltb, lt→ltb, Bool-cases, subst,
}
use native.Mathlib.Decide.{dec_lt}
use so.Prelude.Int.{pos, negsuc, minus_one}
use so.Prelude.Run.{ok}
use so.Fs.Types.{Inode, Fs, free}
use so.Fs.Access.{at-ok, index, block_size, data_blocks, max_dir_entries, inode_table_size}
use so.Fs.BlockLaws.{data_block_get-ok, data_block_free-ok}
use so.Fs.Directory.{entry_at, entry_inumber, clear_dir_entry}
use so.Fs.Directory.Clear.{cleared-IsTidy, find_loop-cleared, find_loop-cleared_ne}
use so.Fs.Directory.Names.{IsName}
use so.Fs.Directory.Search.{First, names, FindsIn, find_loop-FindsIn}
use so.Fs.Directory.Tidy.{First-spells, clear_loop-cleared}
use so.Fs.DirBlock.{entries-inside}
use so.Fs.Handles.{with_lock, with_lock_same, lock-ok}
use so.Fs.Inodes.{inode_delete}
use so.Fs.Lookup.{at_root, lookup, root_block-lt, root-inode_get, tfs_lookup-lookup}
use so.Fs.Open.Truncate.{NoHandle}
use so.Fs.Operations.{CString, valid_pathname, after_slash, unlock_mutex, unlink_inode, tfs_unlink}
use so.Fs.Unlink.{
  IsTidyFs, deleted, unlinked, freed_blocks, deleted-Shape, unlinked-Holds, unlinked-IsValid,
  unlinked-file_bytes,
}
use so.Fs.Valid.{Holds, IsValid, file_bytes}

-- The entry that a lookup finds.
abbrev pub EntryOf : (s : Fs) → IsValid s → List ℕ → ℕ → ℕ → Type 0
EntryOf s v name j k =
    First (names s.fs_data (v.root.0 * block_size s) name) 0 k
    × (k < max_dir_entries s)
    × (entry_inumber s.fs_data (entry_at (v.root.0 * block_size s) k) ≡ pos j)

pub lookup-EntryOf :
    (s : Fs) (v : IsValid s) (name : List ℕ) (j : ℕ)
    → lookup s v.root.0 name ≡ pos j
    → (k : ℕ) × EntryOf s v name j k
lookup-EntryOf s v name j found =
    go (find_loop-FindsIn s.fs_data (v.root.0 * block_size s) name (max_dir_entries s) 0)
  where
    go :
        FindsIn s.fs_data (v.root.0 * block_size s) name (max_dir_entries s) 0
        → (k : ℕ) × EntryOf s v name j k
    go (inl (all, e)) = absurd (let wrong : pos j ≡ negsuc 0 = cc in cc)
    go (inr (k, f, hi, e)) = (k, (f, omega arith, sym e ∙ found))

-- `inode_delete` of a TAKEN inode.
pub inode_delete-deleted :
    (s : Fs) (v : IsValid s) (j : ℕ) (n : Inode)
    → Holds s j n
    → inode_delete (pos j) s ≡ ok tt (deleted s j n)
unfolding inode_delete
inode_delete-deleted s v j n holds = elim (dec_lt 0 n.i_size) [
  | no empty ↦
      let no_block : ltb 0 n.i_size ≡ false = ground arith in
      rw (in_table, at-ok s.freeinode_ts j s holds.0, at-ok s.inode_table j s holds.1, no_block)
  | yes sized ↦
      let (b, eq, state) = v.blocks j n holds sized in
      let inside : b < data_blocks s =
        omega (arith, lt_of_get_elem? s.free_blocks b state, v.shape.block_states) in
      rw (
        in_table,
        at-ok s.freeinode_ts j s holds.0,
        at-ok s.inode_table j s holds.1,
        lt→ltb 0 n.i_size sized,
        eq,
        data_block_free-ok s b inside,
      )
]
  where
    in_table : ltb j (inode_table_size s) ≡ true
    in_table =
        lt→ltb j (inode_table_size s)
          (omega (arith, lt_of_get_elem? s.inode_table j holds.1, v.shape.inodes))

-- What holds behind the removal of the file `name` in inode `j`, which was `n`: the state is valid,
-- its directory tidy, the name is gone, the inode and its block are FREE, and every other name,
-- file and handle is what it was.
pub record Removed (s : Fs) (v : IsValid s) (name : List ℕ) (j : ℕ) (n : Inode) (s' : Fs)
    : Type 0 where
  pub valid : IsValid s'
  pub tidy : IsTidyFs s' valid
  pub unlocked : s'.locked ≡ false
  pub gone : lookup s' valid.root.0 name ≡ minus_one
  pub other_names :
      (t : List ℕ) → IsName t → t ≢ name → lookup s' valid.root.0 t ≡ lookup s v.root.0 t
  pub other_files :
      (i : ℕ) (o : Inode)
      → i ≢ j
      → i ≢ 0
      → Holds s i o
      → Holds s' i o × (file_bytes s' o ≡ file_bytes s o)
  pub inode_freed : get_elem? s'.freeinode_ts j ≡ some free
  pub block_freed :
      (b : ℕ) → 0 < n.i_size → n.i_data_block ≡ pos b → get_elem? s'.free_blocks b ≡ some free
  pub handles :
      (s'.open_file_table ≡ s.open_file_table)
      × (s'.free_open_file_entries ≡ s.free_open_file_entries)

module _ (s : Fs) (target : CString) (v : IsValid s) (unlocked : s.locked ≡ false) where
  abbrev name : List ℕ
  name = after_slash target

  abbrev locked_s : Fs
  locked_s = with_lock true s

  -- On a valid state with the mutex free, `tfs_unlink` of a name that is no path name, or that is
  -- not found, returns -1 and leaves the state as it was.
  pub tfs_unlink-refused :
      (valid_pathname target ≡ false) ⊎ (lookup s v.root.0 (after_slash target) ≡ minus_one)
      → tfs_unlink target s ≡ ok minus_one s
  unfolding tfs_unlink unlink_inode unlock_mutex
  tfs_unlink-refused why = go why (Bool-cases (valid_pathname target))
    where
      go :
          (valid_pathname target ≡ false) ⊎ (lookup s v.root.0 name ≡ minus_one)
          → (valid_pathname target ≡ true) ⊎ (valid_pathname target ≡ false)
          → tfs_unlink target s ≡ ok minus_one s
      go why (inr bad) =
          rw (lock-ok s unlocked, bad) (ap (ok minus_one) (with_lock_same s unlocked))
      go (inl bad) (inl good) = absurd (let b = bad in cc)
      go (inr absent) (inl good) =
          rw
            (
              lock-ok s unlocked,
              good,
              root-inode_get locked_s v,
              tfs_lookup-lookup locked_s v target good,
              absent,
            )
            (ap (ok minus_one) (with_lock_same s unlocked))

  module _ (tidy : IsTidyFs s v) (good : valid_pathname target ≡ true)
      (is_name : IsName (after_slash target)) (j : ℕ) (n : Inode)
      (found : lookup s v.root.0 (after_slash target) ≡ pos j) (not_root : j ≢ 0)
      (holds : Holds s j n) (unused : NoHandle s j) where
    abbrev base : ℕ
    base = v.root.0 * block_size s

    -- `clear_dir_entry` behind the `inode_delete`.
    clear_dir_entry-unlinked :
        (k : ℕ)
        → EntryOf s v name j k
        → clear_dir_entry 0 name (deleted locked_s j n) ≡ ok (pos 0) (unlinked locked_s base j n k)
    unfolding clear_dir_entry
    clear_dir_entry-unlinked k (first, in_dir, here) = rw (
      at-ok s.inode_table 0 (deleted locked_s j n) v.root.1.1,
      data_block_get-ok (deleted locked_s j n) v.root.0
          (deleted-Shape locked_s j k n v tidy not_root holds in_dir here unused)
          (root_block-lt s v),
      clear_loop-cleared s.fs_data base name (max_dir_entries s) 0 k (is_name.2)
          (omega (arith, entries-inside s v))
          (First-spells s.fs_data base name (max_dir_entries s) k tidy is_name first in_dir)
          (omega arith),
    )

    run :
        (k : ℕ)
        → EntryOf s v name j k
        → tfs_unlink target s ≡ ok (pos 0) (with_lock false (unlinked s base j n k))
    unfolding tfs_unlink unlink_inode unlock_mutex
    run k entry = rw (
      lock-ok s unlocked,
      good,
      root-inode_get locked_s v,
      tfs_lookup-lookup locked_s v target good,
      found,
      inode_delete-deleted locked_s v j n holds,
      clear_dir_entry-unlinked k entry,
    )

    removed :
        (k : ℕ)
        → EntryOf s v name j k
        → Removed s v name j n (with_lock false (unlinked s base j n k))
    removed k (first, in_dir, here) = record {
      valid = valid;
      tidy = cleared-IsTidy s.fs_data base (max_dir_entries s) k in_dir (entries-inside s v) tidy;
      unlocked = refl;
      gone =
          find_loop-cleared s.fs_data base (max_dir_entries s) k in_dir (entries-inside s v) name
            tidy is_name first.passes;
      other_names = λ t is_t ne.
          find_loop-cleared_ne s.fs_data base (max_dir_entries s) k in_dir (entries-inside s v) name
            t is_name is_t ne first.passes;
      other_files = λ i o ne not_root_i held. (
        unlinked-Holds s j k n v tidy not_root holds in_dir here unused i o (λ p. ne (sym p)) held,
        unlinked-file_bytes s j k n v tidy not_root holds in_dir here unused i o held not_root_i,
      );
      inode_freed =
          get_elem?-set_self s.freeinode_ts j free (lt_of_get_elem? s.freeinode_ts j holds.0);
      block_freed = block_freed;
      handles = (refl, refl);
    }
      where
        valid : IsValid (with_lock false (unlinked s base j n k))
        valid =
            at_root (with_lock false (unlinked s base j n k)) v.root.0
              (unlinked-IsValid s j k n v tidy not_root holds in_dir here unused)
              (unlinked-Holds s j k n v tidy not_root holds in_dir here unused 0 _ not_root
                v.root.1)

        block_freed :
            (b : ℕ)
            → 0 < n.i_size
            → n.i_data_block ≡ pos b
            → get_elem? (freed_blocks s.free_blocks n) b ≡ some free
        block_freed b sized block =
            let (c, eq, state) = v.blocks j n holds sized in
            let same : c ≡ b = ap index (sym eq ∙ block) in
            rw (lt→ltb 0 n.i_size sized, block)
              (get_elem?-set_self s.free_blocks b free (
                subst (λ t. t < length s.free_blocks) same (lt_of_get_elem? s.free_blocks c state)))

    -- On a valid state with a tidy root directory and the mutex free, `tfs_unlink` of a path whose
    -- name of 1 to 39 bytes is found in the root directory, for an inode that no handle is on,
    -- returns 0. The state is valid, its directory tidy and the mutex free; the name is not found,
    -- every other name is found as before, the inode and the block of its bytes are FREE, and
    -- every other file and every handle is what it was.
    pub tfs_unlink_lem :
        (s' : Fs) × (tfs_unlink target s ≡ ok (pos 0) s') × Removed s v (after_slash target) j n s'
    tfs_unlink_lem =
        let (k, entry) = lookup-EntryOf s v name j found in
        (with_lock false (unlinked s base j n k), run k entry, removed k entry)
