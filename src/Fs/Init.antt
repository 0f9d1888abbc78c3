-- ===== src/Fs/Init.antt =====
-- `tfs_init`: what it makes of the memory that `malloc` hands it.
use so.Prelude.{
  ℕ, zero, suc, ◌*◌, ◌^◌, ◌≤◌, ◌<◌, ◌≡◌, ◌≢◌, refl, sym, ap, ◌∙◌, inl, true, false, some, Option,
  List, length, get_elem?, get_elem?_of_lt, get_elem?-replicate, get_elem?-set_self,
  get_elem?-set_cases, set, set-set, length-set, length-replicate, replicate, arith,
  lt_of_get_elem?, ◌⊎◌, inr,
}
use so.Prelude.Int.{ℤ, pos, minus_one}
use so.Prelude.Run.{ok}
use so.Prelude.Returns.{Returns, returns}
use so.Fs.Types.{
  t_directory, Params, Inode, OpenFileEntry, Fs, Allocation, AllocationState, free, taken,
}
use so.Fs.Access.{at-ok, max_dir_entries, scan_free}
use so.Fs.Blocks.{fresh_tables, state_init, data_block_alloc}
use so.Fs.BlockLaws.{block_before, data_block_get-ok}
use so.Fs.Directory.{empty_entries, entry_inumber, entry_at}
use so.Fs.Directory.Search.{FindsIn, find_loop-FindsIn, length-empty_entries, empty_entries-empty}
use so.Fs.Inodes.{inode_alloc, inode_create, init_directory}
use so.Fs.Lookup.{root_inode, lookup}
use so.Fs.Operations.{params_of, tfs_init}
use so.Fs.Valid.{Shape, Holds, IsOpen, IsValid}
use so.Fs.Write.{set_inode-ok}

-- The arrays that `malloc` returns are as long as asked for, and the sizes are sensible.
abbrev pub IsAllocated : Params → Allocation → Type 0
IsAllocated params mem = record {
  succeeds : mem.succeeds ≡ true;
  inodes : length mem.inodes ≡ params.max_inode_count;
  bytes : length mem.bytes ≡ params.max_block_count * params.block_size;
  entries : length mem.entries ≡ params.max_open_files_count;
  some_inodes : 0 < params.max_inode_count;
  few_inodes : params.max_inode_count ≤ 2 ^ 31;
  some_blocks : 0 < params.max_block_count;
  some_bytes : 0 < params.block_size;
  small_blocks : params.block_size < 2 ^ 62;
}

scan_free-first :
    (table : List AllocationState) (n : ℕ) (s : Fs)
    → 0 < n
    → get_elem? table 0 ≡ some free
    → scan_free table n 0 s ≡ ok (pos 0) s
unfolding scan_free
scan_free-first table zero s h e = absurd (omega arith)
scan_free-first table (suc n) s h e = rw (e, scan_free)

none_taken : (n i : ℕ) → get_elem? (replicate n free) i ≡ some taken → ⊥
none_taken n i h =
    let inside : i < n =
      omega (arith, lt_of_get_elem? (replicate n free) i h, length-replicate n free) in
    let there = get_elem?-replicate n free i inside in let wrong : free ≡ taken = cc in cc

-- The state of a new file system: the root directory in inode 0 and block 0, every entry empty.
abbrev pub mounted : Params → Allocation → Fs → Fs
mounted params mem s = record (fresh_tables params mem s) {
  freeinode_ts = set (replicate params.max_inode_count free) 0 taken;
  free_blocks = set (replicate params.max_block_count free) 0 taken;
  inode_table = set mem.inodes 0 (root_inode (fresh_tables params mem s) 0);
  fs_data =
      empty_entries (0 * params.block_size) (max_dir_entries (fresh_tables params mem s)) 0
        mem.bytes;
}

module _ (params : Params) (mem : Allocation) (s : Fs) (allocated : IsAllocated params mem) where
  abbrev fresh : Fs
  fresh = fresh_tables params mem s

  abbrev after : Fs
  after = mounted params mem s

  -- The shape, for any contents of the inode table and of the blocks.
  tables-Shape :
      (table : List Inode) (mem' : List ℕ)
      → length table ≡ params.max_inode_count
      → length mem' ≡ length mem.bytes
      → Shape (record after { inode_table = table; fs_data = mem' })
  tables-Shape table mem' inodes bytes = record {
    inodes = inodes;
    inode_states =
        length-set (replicate params.max_inode_count free) 0 taken
        ∙ length-replicate params.max_inode_count free;
    bytes = bytes ∙ allocated.bytes;
    block_states =
        length-set (replicate params.max_block_count free) 0 taken
        ∙ length-replicate params.max_block_count free;
    files = allocated.entries;
    file_states = length-replicate params.max_open_files_count free;
    some_bytes = allocated.some_bytes;
    small_blocks = allocated.small_blocks;
    few_inodes = allocated.few_inodes;
  }

  mounted-Shape : Shape after
  mounted-Shape =
      tables-Shape (set mem.inodes 0 (root_inode fresh 0)) after.fs_data
        (length-set mem.inodes 0 (root_inode fresh 0) ∙ allocated.inodes)
        (length-empty_entries (0 * params.block_size) (max_dir_entries fresh) 0 mem.bytes)

  -- No inode is in use but the root, and no handle is open.
  only_root : (k : ℕ) (n : Inode) → Holds after k n → (k ≡ 0) × (n ≡ root_inode fresh 0)
  only_root k n h =
      go (get_elem?-set_cases (replicate params.max_inode_count free) 0 k taken h.0)
        (get_elem?-set_cases mem.inodes 0 k (root_inode fresh 0) h.1)
    where
      go :
          ((0 ≡ k) × (taken ≡ taken))
            ⊎ ((0 ≢ k) × (get_elem? (replicate params.max_inode_count free) k ≡ some taken))
          → ((0 ≡ k) × (root_inode fresh 0 ≡ n)) ⊎ ((0 ≢ k) × (get_elem? mem.inodes k ≡ some n))
          → (k ≡ 0) × (n ≡ root_inode fresh 0)
      go (inr (ne, h)) other = absurd (none_taken params.max_inode_count k h)
      go (inl p) (inl (e, same)) = (sym e, sym same)
      go (inl (e, p)) (inr (ne, h)) = absurd (ne e)

  no_handle : (h : ℕ) (e : OpenFileEntry) → IsOpen after h e → ⊥
  no_handle h e opened = none_taken params.max_open_files_count h opened.0

  pub root-Holds : Holds after 0 (root_inode fresh 0)
  root-Holds = (
    get_elem?-set_self (replicate params.max_inode_count free) 0 taken
        (omega (arith, allocated.some_inodes, length-replicate params.max_inode_count free)),
    get_elem?-set_self mem.inodes 0 (root_inode fresh 0)
        (omega (arith, allocated.some_inodes, allocated.inodes)),
  )

  pub all_empty :
      (i : ℕ)
      → i < max_dir_entries fresh
      → entry_inumber after.fs_data (entry_at (0 * params.block_size) i) ≡ minus_one
  all_empty i lt =
      empty_entries-empty (0 * params.block_size) (max_dir_entries fresh) 0 i mem.bytes
        (omega (
          arith,
          block_before 0 params.max_block_count params.block_size allocated.some_blocks,
          allocated.bytes,
        ))
        (omega arith) (omega arith)

  no_name : (name : List ℕ) → lookup after 0 name ≡ minus_one
  no_name name =
      go (find_loop-FindsIn after.fs_data (0 * params.block_size) name (max_dir_entries fresh) 0)
    where
      go :
          FindsIn after.fs_data (0 * params.block_size) name (max_dir_entries fresh) 0
          → lookup after 0 name ≡ minus_one
      go (inl (all, e)) = e
      go (inr (k, f, hi, e)) = e ∙ all_empty k (omega arith)

  pub mounted-IsValid : IsValid after
  mounted-IsValid = record {
    shape = mounted-Shape;
    sizes = λ k n h. omega (arith, ap (λ t. t.i_size) (only_root k n h).1);
    blocks = λ k n h some_bytes. (
      0,
      ap (λ t. t.i_data_block) (only_root k n h).1,
      get_elem?-set_self (replicate params.max_block_count free) 0 taken
          (omega (arith, allocated.some_blocks, length-replicate params.max_block_count free)),
    );
    apart = λ j k m n hj hk some_m some_n same. (only_root j m hj).0 ∙ sym (only_root k n hk).0;
    root = (0, root-Holds);
    entries = λ i lt. inl (all_empty i lt);
    handles = λ h e opened. absurd (no_handle h e opened);
  }

  named : Inode → Inode
  named n = record n { i_node_type = t_directory }

  root_created : inode_create t_directory fresh ≡ ok (pos 0) after
  unfolding inode_create inode_alloc init_directory data_block_alloc named
  root_created =
      let (n, e) =
        get_elem?_of_lt mem.inodes 0 (omega (arith, allocated.some_inodes, allocated.inodes)) in
      let in_table : 0 < length mem.inodes = lt_of_get_elem? mem.inodes 0 e in
      let taken_one : Fs = record fresh { freeinode_ts = set fresh.freeinode_ts 0 taken } in
      let as_dir : Fs = record taken_one { inode_table = set mem.inodes 0 (named n) } in
      let with_block : Fs = record as_dir { free_blocks = set fresh.free_blocks 0 taken } in
      let as_root : Fs = record with_block {
        inode_table = set (set mem.inodes 0 (named n)) 0 (root_inode fresh 0);
      } in
      let there = get_elem?-set_self mem.inodes 0 (named n) in_table in
      rw
        (
          scan_free-first fresh.freeinode_ts params.max_inode_count fresh allocated.some_inodes
              (get_elem?-replicate params.max_inode_count free 0 allocated.some_inodes),
          at-ok mem.inodes 0 taken_one e,
          set_inode-ok 0 (named n) taken_one e,
          scan_free-first fresh.free_blocks params.max_block_count as_dir allocated.some_blocks
              (get_elem?-replicate params.max_block_count free 0 allocated.some_blocks),
          at-ok (set mem.inodes 0 (named n)) 0 with_block there,
          set_inode-ok 0 (root_inode fresh 0) with_block there,
          data_block_get-ok as_root 0
              (tables-Shape (set (set mem.inodes 0 (named n)) 0 (root_inode fresh 0)) mem.bytes
                (length-set (set mem.inodes 0 (named n)) 0 (root_inode fresh 0)
                  ∙ length-set mem.inodes 0 (named n)
                  ∙ allocated.inodes)
                refl)
              allocated.some_blocks,
        )
        (ap (λ t. ok (pos 0) (record after { inode_table = t }))
          (set-set mem.inodes 0 (named n) (root_inode fresh 0)))

-- What a fresh file system is: a valid state, the mutex released, with no file, no open handle and
-- no name in the root directory.
abbrev pub IsFresh : ℤ → Fs → Type 0
IsFresh r s = record {
  success : r ≡ pos 0;
  valid : IsValid s;
  unlocked : s.locked ≡ false;
  no_file : (k : ℕ) (n : Inode) → Holds s k n → k ≡ 0;
  no_handle : (h : ℕ) (e : OpenFileEntry) → IsOpen s h e → ⊥;
  root : Holds s 0 (root_inode s 0);
  no_name : (name : List ℕ) → lookup s 0 name ≡ minus_one;
}

-- Before any `tfs_init`, where `malloc` succeeds, the file system is mounted.
pub tfs_init-mounted :
    (params : Option Params) (mem : Allocation) (s : Fs)
    → IsAllocated (params_of params) mem
    → s.ready ≡ false
    → tfs_init params mem s ≡ ok (pos 0) (mounted (params_of params) mem s)
unfolding tfs_init state_init
tfs_init-mounted params mem s allocated off =
    rw (off, allocated.succeeds, root_created (params_of params) mem s allocated)

-- Before any `tfs_init` and with the mutex free, where `malloc` returns arrays of the sizes asked
-- for, with at least one inode, at most 2^31, at least one block and block sizes from 1 to below
-- 2^62, `tfs_init` returns 0 in a valid state, the mutex free, in which no inode but the root is
-- TAKEN, no handle is open and no name is found.
pub tfs_init-IsFresh :
    (params : Option Params) (mem : Allocation) (s : Fs)
    → IsAllocated (params_of params) mem
    → s.ready ≡ false
    → s.locked ≡ false
    → Returns IsFresh (tfs_init params mem s)
tfs_init-IsFresh params mem s allocated off unlocked =
    rw (tfs_init-mounted params mem s allocated off) (
      returns (record {
        success = refl;
        valid = mounted-IsValid (params_of params) mem s allocated;
        unlocked = unlocked;
        no_file = λ k n h. (only_root (params_of params) mem s allocated k n h).0;
        no_handle = no_handle (params_of params) mem s allocated;
        root = root-Holds (params_of params) mem s allocated;
        no_name = no_name (params_of params) mem s allocated;
      }))
