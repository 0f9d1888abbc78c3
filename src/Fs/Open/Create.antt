-- ===== src/Fs/Open/Create.antt =====
-- `tfs_open` on a file to be created: the new inode, and its entry in the root directory.
use so.Prelude.{
  ℕ, ◌<◌, ◌≡◌, ◌≢◌, sym, ap, ◌∙◌, ◌⊎◌, inl, inr, some, length, get_elem?, get_elem?-set_cases,
  get_elem?_of_lt, get_elem?-set_ne, get_elem?-set_self, set, set-set, arith, length-set,
  lt_of_get_elem?, subst,
}
use so.Prelude.Int.{ℤ, pos, minus_one}
use so.Prelude.Run.{ok}
use so.Fs.Types.{t_file, Inode, Fs, taken}
use so.Fs.Access.{at-ok, inode_table_size}
use so.Fs.Inodes.{create_at, inode_alloc, inode_create, init_file}
use so.Fs.Scan.{AllTaken, FirstFree, Scanned, scan_free-Scanned}
use so.Fs.Valid.{Shape, Holds, IsEntry, IsValid}
use so.Fs.Write.{set_inode-ok}

abbrev pub new_file : Inode
new_file = record { i_node_type = t_file; i_size = 0; i_data_block = minus_one }

-- The state with a new, empty file in inode `j`.
abbrev pub created : Fs → ℕ → Fs
created s j = record s {
  freeinode_ts = set s.freeinode_ts j taken;
  inode_table = set s.inode_table j new_file;
}

-- The state behind the deletion of that inode: only the FREE inode's contents have changed.
abbrev pub undone : Fs → ℕ → Fs
undone s j = record s { inode_table = set s.inode_table j new_file }

-- Both assignments of `inode_create` to the new inode's fields.
init_new_file :
    (s : Fs) (j : ℕ)
    → j < length s.inode_table
    → create_at t_file (pos j) s ≡ ok (pos j) (undone s j)
unfolding init_file
init_new_file s j h =
    let (n, e) = get_elem?_of_lt s.inode_table j h in
    let named : Inode = record n { i_node_type = t_file } in
    let mid : Fs = record s { inode_table = set s.inode_table j named } in
    let there = get_elem?-set_self s.inode_table j named h in
    rw
      (
        at-ok s.inode_table j s e,
        set_inode-ok j named s e,
        at-ok (set s.inode_table j named) j mid there,
        set_inode-ok j new_file mid there,
      )
      (ap (λ t. ok (pos j) (record s { inode_table = t })) (set-set s.inode_table j named new_file))

abbrev pub InodeCreated : Fs → Type 0
InodeCreated s =
    (AllTaken s.freeinode_ts 0 (inode_table_size s) × (inode_create t_file s ≡ ok minus_one s))
    ⊎ ((j : ℕ) × FirstFree s.freeinode_ts 0 j
        × (j < inode_table_size s)
        × (inode_create t_file s ≡ ok (pos j) (created s j)))

-- Where the arrays have their sizes, `inode_create(T_FILE)` puts an empty file without a block into
-- the first FREE inode and returns it, or returns -1 and changes nothing where every inode is
-- TAKEN.
pub inode_create-InodeCreated : (s : Fs) → Shape s → InodeCreated s
unfolding inode_create inode_alloc init_file
inode_create-InodeCreated s shape =
    go (
      scan_free-Scanned s.freeinode_ts (inode_table_size s) 0 s (omega (arith, shape.inode_states)))
  where
    go : Scanned s.freeinode_ts (inode_table_size s) 0 s → InodeCreated s
    go (inl (all, e)) = inl (all, rw e)
    go (inr (j, first, hi, e)) = inr (
      j,
      first,
      omega arith,
      rw e (
          init_new_file (record s { freeinode_ts = set s.freeinode_ts j taken }) j
            (omega (arith, shape.inodes))),
    )

module _ (s : Fs) (j : ℕ) (v : IsValid s) (first : FirstFree s.freeinode_ts 0 j)
    (inside : j < inode_table_size s) where
  -- The new inode is none of those that were in use.
  pub differs : (i : ℕ) → get_elem? s.freeinode_ts i ≡ some taken → j ≢ i
  differs i state p =
      let there : get_elem? s.freeinode_ts j ≡ some taken =
        subst (λ t. get_elem? s.freeinode_ts t ≡ some taken) (sym p) state in
      let freed = first.is_free in cc

  pub ne_root : j ≢ 0
  ne_root = differs 0 v.root.1.0

  pub undone-Holds : (i : ℕ) (o : Inode) → Holds s i o → Holds (undone s j) i o
  undone-Holds i o h = (h.0, get_elem?-set_ne s.inode_table j i new_file (differs i h.0) ∙ h.1)

  Holds-undone : (i : ℕ) (o : Inode) → Holds (undone s j) i o → Holds s i o
  Holds-undone i o h =
      (h.0, sym (get_elem?-set_ne s.inode_table j i new_file (differs i h.0)) ∙ h.1)

  undone-Shape : Shape (undone s j)
  undone-Shape = record {
    inodes = length-set s.inode_table j new_file ∙ v.shape.inodes;
    inode_states = v.shape.inode_states;
    bytes = v.shape.bytes;
    block_states = v.shape.block_states;
    files = v.shape.files;
    file_states = v.shape.file_states;
    some_bytes = v.shape.some_bytes;
    small_blocks = v.shape.small_blocks;
    few_inodes = v.shape.few_inodes;
  }

  undone-IsEntry : (number : ℤ) → IsEntry s number → IsEntry (undone s j) number
  undone-IsEntry number (inl e) = inl e
  undone-IsEntry number (inr (i, o, eq, ne, small, held)) =
      inr (i, o, eq, ne, small, undone-Holds i o held)

  -- An inode that was taken and given back leaves the state valid.
  pub undone-IsValid : IsValid (undone s j)
  undone-IsValid = record {
    shape = undone-Shape;
    sizes = λ i o h. v.sizes i o (Holds-undone i o h);
    blocks = λ i o h. v.blocks i o (Holds-undone i o h);
    apart = λ i k o o' h h'. v.apart i k o o' (Holds-undone i o h) (Holds-undone k o' h');
    root = (v.root.0, undone-Holds 0 _ v.root.1);
    entries = λ i lt. undone-IsEntry _ (v.entries i lt);
    handles = λ h e opened.
        let (i, o, eq, ne, held, le) = v.handles h e opened in
        (i, o, eq, ne, undone-Holds i o held, le);
  }

  pub created-Shape : Shape (created s j)
  created-Shape = record {
    inodes = length-set s.inode_table j new_file ∙ v.shape.inodes;
    inode_states = length-set s.freeinode_ts j taken ∙ v.shape.inode_states;
    bytes = v.shape.bytes;
    block_states = v.shape.block_states;
    files = v.shape.files;
    file_states = v.shape.file_states;
    some_bytes = v.shape.some_bytes;
    small_blocks = v.shape.small_blocks;
    few_inodes = v.shape.few_inodes;
  }

  pub created-Holds : (i : ℕ) (o : Inode) → Holds s i o → Holds (created s j) i o
  created-Holds i o h = (
    get_elem?-set_ne s.freeinode_ts j i taken (differs i h.0) ∙ h.0,
    get_elem?-set_ne s.inode_table j i new_file (differs i h.0) ∙ h.1,
  )

  pub new-Holds : Holds (created s j) j new_file
  new-Holds = (
    get_elem?-set_self s.freeinode_ts j taken (lt_of_get_elem? s.freeinode_ts j first.is_free),
    get_elem?-set_self s.inode_table j new_file (omega (arith, v.shape.inodes)),
  )

  pub Holds-created :
      (i : ℕ) (o : Inode) → Holds (created s j) i o → ((j ≡ i) × (new_file ≡ o)) ⊎ Holds s i o
  Holds-created i o h = go (get_elem?-set_cases s.inode_table j i new_file h.1)
    where
      go :
          ((j ≡ i) × (new_file ≡ o)) ⊎ ((j ≢ i) × (get_elem? s.inode_table i ≡ some o))
          → ((j ≡ i) × (new_file ≡ o)) ⊎ Holds s i o
      go (inl p) = inl p
      go (inr (p, q)) = inr (sym (get_elem?-set_ne s.freeinode_ts j i taken p) ∙ h.0, q)

  -- With bytes an inode is not the new one.
  pub old-Holds : (i : ℕ) (o : Inode) → Holds (created s j) i o → 0 < o.i_size → Holds s i o
  old-Holds i o h some_bytes = go (Holds-created i o h)
    where
      go : ((j ≡ i) × (new_file ≡ o)) ⊎ Holds s i o → Holds s i o
      go (inl (p, q)) = let empty : 0 ≡ o.i_size = ap (λ t. t.i_size) q in absurd (omega arith)
      go (inr p) = p
