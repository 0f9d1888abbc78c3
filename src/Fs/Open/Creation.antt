-- ===== src/Fs/Open/Creation.antt =====
-- About `open_create` of the model of `tfs_open`: its ends, and the branch of each.
use so.Prelude.{
  ℕ, ◌*◌, ◌≤◌, ◌<◌, ◌≡◌, refl, ap, ◌∙◌, ◌⊎◌, inl, inr, true, false, some, List, length, get_elem?,
  set, arith, ltb, ltb→lt, ◌==◌, get_elem?-set_ne, set-set, set_same, Bool-cases,
}
use so.Prelude.Int.{ℤ, pos, minus_one}
use so.Prelude.Run.{ok}
use so.Prelude.Returns.{Returns, returns, mono}
use so.Fs.Types.{t_file, Fs, free, taken}
use so.Fs.Access.{at-ok, block_size, max_dir_entries, inode_table_size}
use so.Fs.BlockLaws.{data_block_get-ok}
use so.Fs.Directory.{add_dir_entry}
use so.Fs.Directory.Search.{First, NoneOf, is_empty, AddsTo, add_loop-AddsTo}
use so.Fs.Handles.{with_lock}
use so.Fs.Inodes.{inode_create, inode_delete}
use so.Fs.Lookup.{root_inode, root_block-lt}
use so.Fs.Open.{Finished, open_finish-Finished}
use so.Fs.Open.Add.{added, added-IsValid, inode_delete-empty}
use so.Fs.Open.Create.{
  new_file, created, undone, created-Shape, new-Holds, ne_root, undone-IsValid, InodeCreated,
  inode_create-InodeCreated,
}
use so.Fs.Operations.{unlock_mutex, open_create}
use so.Fs.Scan.{AllTaken, FirstFree}
use so.Fs.Valid.{IsValid}

-- Where `add_dir_entry` has no place for the name: it is too long, or the directory is full.
abbrev pub NoPlace : (s : Fs) → IsValid s → List ℕ → Type 0
NoPlace s v name =
    (39 < length name) ⊎ NoneOf (is_empty s.fs_data (v.root.0 * block_size s)) 0 (max_dir_entries s)

-- The three ends of a creation.
abbrev pub Created : (s : Fs) → IsValid s → List ℕ → ℤ → Fs → Type 0
Created s v name r s' =
    ((r ≡ minus_one) × (s' ≡ with_lock false s) × AllTaken s.freeinode_ts 0 (inode_table_size s))
    ⊎ (((j : ℕ) × FirstFree s.freeinode_ts 0 j
          × (r ≡ minus_one)
          × (s' ≡ with_lock false (undone s j))
          × IsValid s'
          × NoPlace s v name)
        ⊎ ((j : ℕ) × (k : ℕ) × (first : FirstFree s.freeinode_ts 0 j) × (inside : j
              < inode_table_size s)
            × (empty : First (is_empty s.fs_data (v.root.0 * block_size s)) 0 k) × (in_dir : k
                < max_dir_entries s)
            × (length name ≤ 39)
            × Finished (added s (v.root.0 * block_size s) j k name) j 0 r s'))

-- What `add_dir_entry` does with a name of a good length for the new inode `j`.
abbrev EntryAdded : (s : Fs) → IsValid s → ℕ → List ℕ → Type 0
EntryAdded s v j name =
    (NoneOf (is_empty s.fs_data (v.root.0 * block_size s)) 0 (max_dir_entries s)
      × (add_dir_entry 0 name (pos j) (created s j) ≡ ok minus_one (created s j)))
    ⊎ ((k : ℕ) × First (is_empty s.fs_data (v.root.0 * block_size s)) 0 k
        × (k < max_dir_entries s)
        × (add_dir_entry 0 name (pos j) (created s j)
            ≡ ok (pos 0) (added s (v.root.0 * block_size s) j k name)))

module _ (s : Fs) (name : List ℕ) (v : IsValid s) (some_name : 0 < length name) where
  abbrev base : ℕ
  base = v.root.0 * block_size s

  module _ (j : ℕ) (first : FirstFree s.freeinode_ts 0 j) (inside : j < inode_table_size s) where
    -- The root directory is where it was.
    root_there : get_elem? (set s.inode_table j new_file) 0 ≡ some (root_inode s v.root.0)
    root_there =
        get_elem?-set_ne s.inode_table j 0 new_file (ne_root s j v first inside) ∙ v.root.1.1

    deleted : inode_delete (pos j) (created s j) ≡ ok tt (undone s j)
    deleted =
        inode_delete-empty (created s j) j new_file (new-Holds s j v first inside) refl inside
        ∙ ap (λ t. ok tt (record (undone s j) { freeinode_ts = t }))
            (set-set s.freeinode_ts j taken free ∙ set_same s.freeinode_ts j free first.is_free)

    no_name : (length name == 0) ≡ false
    no_name = ground arith

    add-long :
        ltb 39 (length name) ≡ true
        → add_dir_entry 0 name (pos j) (created s j) ≡ ok minus_one (created s j)
    unfolding add_dir_entry
    add-long long = rw (no_name, long)

    add-loop :
        ltb 39 (length name) ≡ false
        → AddsTo s.fs_data base name (pos j) (max_dir_entries s) 0
        → EntryAdded s v j name
    unfolding add_dir_entry
    add-loop short (inl (full, e)) = inl (
      full,
      rw (
        no_name,
        short,
        at-ok (set s.inode_table j new_file) 0 (created s j) root_there,
        data_block_get-ok (created s j) v.root.0 (created-Shape s j v first inside)
            (root_block-lt s v),
        e,
      ),
    )
    add-loop short (inr (k, empty, hi, e)) = inr (
      k,
      empty,
      omega arith,
      rw (
        no_name,
        short,
        at-ok (set s.inode_table j new_file) 0 (created s j) root_there,
        data_block_get-ok (created s j) v.root.0 (created-Shape s j v first inside)
            (root_block-lt s v),
        e,
      ),
    )

    -- Where `add_dir_entry` has no place, the new inode is given back.
    no-place :
        inode_create t_file s ≡ ok (pos j) (created s j)
        → add_dir_entry 0 name (pos j) (created s j) ≡ ok minus_one (created s j)
        → NoPlace s v name
        → Returns (Created s v name) (open_create 0 name s)
    unfolding open_create unlock_mutex
    no-place taken_one e why =
        rw (taken_one, e, deleted)
          (returns (inr (inl (j, first, refl, refl, undone-IsValid s j v first inside, why))))

    short_name : ltb 39 (length name) ≡ false → length name ≤ 39
    short_name short = ground arith

    placed :
        (k : ℕ)
        → inode_create t_file s ≡ ok (pos j) (created s j)
        → ltb 39 (length name) ≡ false
        → First (is_empty s.fs_data base) 0 k
        → k < max_dir_entries s
        → add_dir_entry 0 name (pos j) (created s j) ≡ ok (pos 0) (added s base j k name)
        → Returns (Created s v name) (open_create 0 name s)
    unfolding open_create
    placed k taken_one short empty in_dir e =
        rw (taken_one, e)
          (mono
            (open_finish-Finished (added s base j k name) j 0 new_file
              (added-IsValid s j k name v first inside empty in_dir) (ne_root s j v first inside)
              (new-Holds s j v first inside) (omega arith))
            (λ r s' end. inr (inr (j, k, first, inside, empty, in_dir, short_name short, end))))

    open_create-at :
        inode_create t_file s ≡ ok (pos j) (created s j)
        → Returns (Created s v name) (open_create 0 name s)
    open_create-at taken_one = go (Bool-cases (ltb 39 (length name)))
      where
        go :
            (ltb 39 (length name) ≡ true) ⊎ (ltb 39 (length name) ≡ false)
            → Returns (Created s v name) (open_create 0 name s)
        go (inl long) = no-place taken_one (add-long long) (inl (ltb→lt 39 (length name) long))
        go (inr short) =
            at_loop short
              (add-loop short (add_loop-AddsTo s.fs_data base name (pos j) (max_dir_entries s) 0))
          where
            at_loop :
                ltb 39 (length name) ≡ false
                → EntryAdded s v j name
                → Returns (Created s v name) (open_create 0 name s)
            at_loop short (inl (full, e)) = no-place taken_one e (inr full)
            at_loop short (inr (k, empty, in_dir, e)) = placed k taken_one short empty in_dir e

  pub open_create-Created : Returns (Created s v name) (open_create 0 name s)
  unfolding open_create unlock_mutex
  open_create-Created = go (inode_create-InodeCreated s v.shape)
    where
      go : InodeCreated s → Returns (Created s v name) (open_create 0 name s)
      go (inl (all, e)) = rw e (returns (inl (refl, refl, all)))
      go (inr (j, first, inside, e)) = open_create-at j first inside e
