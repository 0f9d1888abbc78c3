-- ===== src/Fs/Open/Truncate.antt =====
-- `tfs_open` on a file that exists: where it starts, and its truncation.
use so.Prelude.{
  ℕ, ◌≤◌, ◌<◌, ◌≡◌, ◌≢◌, refl, sym, ap, ◌∙◌, ◌⊎◌, inl, inr, Bool, true, false, ◌&&◌, some,
  get_elem?, get_elem?-set_cases, get_elem?-set_ne, get_elem?-set_self, set, arith, length-set,
  lt_of_get_elem?, ltb, subst, if◌then◌else◌,
}
use native.Mathlib.Decide.{ℕ_discrete}
use so.Prelude.Int.{ℤ, pos}
use so.Prelude.Run.{Run, ok}
use so.Fs.Types.{Inode, OpenFileEntry, Fs, FileMode, free}
use so.Fs.Access.{at-ok, block_size, data_blocks}
use so.Fs.Blocks.{data_block_free}
use so.Fs.BlockLaws.{data_block_free-ok}
use so.Fs.Operations.{open_existing}
use so.Fs.Valid.{HasBlock, Holds, IsOpen, IsHandle, IsEntry, IsValid}
use so.Fs.Write.{set_inode-ok}

abbrev pub start_of : FileMode → Inode → ℕ
start_of mode n = if mode.o_append then n.i_size else 0

abbrev pub emptied : Inode → Inode
emptied n = record n { i_size = 0 }

-- The state in which the file in inode `k` has lost its block `b`.
abbrev pub truncated : Fs → ℕ → Inode → ℕ → Fs
truncated s k n b = record s {
  free_blocks = set s.free_blocks b free;
  inode_table = set s.inode_table k (emptied n);
}

-- No open handle is on inode `k`.
abbrev pub NoHandle : Fs → ℕ → Type 0
NoHandle s k = (h : ℕ) (e : OpenFileEntry) → IsOpen s h e → e.of_inumber ≢ pos k

pub open_existing-keeps :
    (s : Fs) (mode : FileMode) (k : ℕ) (n : Inode)
    → get_elem? s.inode_table k ≡ some n
    → (mode.o_trunc && ltb 0 n.i_size) ≡ false
    → open_existing mode k s ≡ ok (start_of mode n) s
unfolding open_existing
open_existing-keeps s mode k n inode keeps =
    rw (at-ok s.inode_table k s inode, keeps, at-ok s.inode_table k s inode)

pub open_existing-truncates :
    (s : Fs) (mode : FileMode) (k b : ℕ) (n : Inode)
    → get_elem? s.inode_table k ≡ some n
    → (mode.o_trunc && ltb 0 n.i_size) ≡ true
    → n.i_data_block ≡ pos b
    → b < data_blocks s
    → open_existing mode k s ≡ ok 0 (truncated s k n b)
unfolding open_existing
open_existing-truncates s mode k b n inode truncates block inside =
    let freed : data_block_free n.i_data_block s
        ≡ ok tt (record s { free_blocks = set s.free_blocks b free }) =
      ap (λ z. data_block_free z s) block ∙ data_block_free-ok s b inside in
    rw
      (
        at-ok s.inode_table k s inode,
        truncates,
        freed,
        set_inode-ok k (emptied n) (record s { free_blocks = set s.free_blocks b free }) inode,
        at-ok (set s.inode_table k (emptied n)) k (truncated s k n b) (
            get_elem?-set_self s.inode_table k (emptied n) (lt_of_get_elem? s.inode_table k inode)),
      )
      (if_same mode.o_append)
  where
    if_same :
        (c : Bool)
        → ◌≡◌ {A = Run Fs ℕ}
            (ok (if c then 0 else 0) (truncated s k n b))
            (ok 0 (truncated s k n b))
    if_same true = refl
    if_same false = refl

module _ (s : Fs) (k b : ℕ) (n : Inode) (v : IsValid s) (ne_root : k ≢ 0) (holds : Holds s k n)
    (sized : 0 < n.i_size) (block : n.i_data_block ≡ pos b) (unused : NoHandle s k) where
  abbrev after : Fs
  after = truncated s k n b

  truncated-cases :
      (j : ℕ) (o : Inode) → Holds after j o → ((k ≡ j) × (emptied n ≡ o)) ⊎ ((k ≢ j) × Holds s j o)
  truncated-cases j o h = go (get_elem?-set_cases s.inode_table k j (emptied n) h.1)
    where
      go :
          ((k ≡ j) × (emptied n ≡ o)) ⊎ ((k ≢ j) × (get_elem? s.inode_table j ≡ some o))
          → ((k ≡ j) × (emptied n ≡ o)) ⊎ ((k ≢ j) × Holds s j o)
      go (inl p) = inl p
      go (inr (p, q)) = inr (p, (h.0, q))

  -- With bytes an inode is not the truncated one.
  kept : (j : ℕ) (o : Inode) → Holds after j o → 0 < o.i_size → (k ≢ j) × Holds s j o
  kept j o h some_bytes = go (truncated-cases j o h)
    where
      go : ((k ≡ j) × (emptied n ≡ o)) ⊎ ((k ≢ j) × Holds s j o) → (k ≢ j) × Holds s j o
      go (inl (p, q)) = let empty : 0 ≡ o.i_size = ap (λ t. t.i_size) q in absurd (omega arith)
      go (inr p) = p

  pub truncated-Holds : (j : ℕ) (o : Inode) → k ≢ j → Holds s j o → Holds after j o
  truncated-Holds j o ne h = (h.0, get_elem?-set_ne s.inode_table k j (emptied n) ne ∙ h.1)

  pub emptied-Holds : Holds after k (emptied n)
  emptied-Holds = (
    holds.0,
    get_elem?-set_self s.inode_table k (emptied n) (lt_of_get_elem? s.inode_table k holds.1),
  )

  truncated-blocks : (j : ℕ) (o : Inode) → Holds after j o → 0 < o.i_size → HasBlock after o
  truncated-blocks j o h some_bytes =
      let (ne, held) = kept j o h some_bytes in
      let (c, eq, state) = v.blocks j o held some_bytes in
      (
        c,
        eq,
        get_elem?-set_ne s.free_blocks b c free
              (λ p. ne (v.apart k j n o holds held sized some_bytes (block ∙ ap pos p ∙ sym eq)))
            ∙ state,
      )

  truncated-IsEntry : (number : ℤ) → IsEntry s number → IsEntry after number
  truncated-IsEntry number (inl e) = inl e
  truncated-IsEntry number (inr (j, o, eq, ne, small, held)) = elim (ℕ_discrete k j) [
    | yes p ↦
        inr (j, emptied n, eq, ne, small, subst (λ t. Holds after t (emptied n)) p emptied-Holds)
    | no differ ↦ inr (j, o, eq, ne, small, truncated-Holds j o differ held)
  ]

  truncated-IsHandle : (h : ℕ) (e : OpenFileEntry) → IsOpen s h e → IsHandle s e → IsHandle after e
  truncated-IsHandle h e opened (j, o, eq, ne, held, le) =
      let differ : k ≢ j = λ p. unused h e opened (eq ∙ ap pos (sym p)) in
      (j, o, eq, ne, truncated-Holds j o differ held, le)

  -- A file that no handle is on can be truncated.
  pub truncated-IsValid : IsValid after
  truncated-IsValid = record {
    shape = record {
      inodes = length-set s.inode_table k (emptied n) ∙ v.shape.inodes;
      inode_states = v.shape.inode_states;
      bytes = v.shape.bytes;
      block_states = length-set s.free_blocks b free ∙ v.shape.block_states;
      files = v.shape.files;
      file_states = v.shape.file_states;
      some_bytes = v.shape.some_bytes;
      small_blocks = v.shape.small_blocks;
      few_inodes = v.shape.few_inodes;
    };
    sizes = λ j o h. truncated-sizes j o (truncated-cases j o h);
    blocks = truncated-blocks;
    apart = λ i j o o' h h' some_o some_o' eq.
        v.apart i j o o' (kept i o h some_o).1 (kept j o' h' some_o').1 some_o some_o' eq;
    root = (v.root.0, truncated-Holds 0 _ ne_root v.root.1);
    entries = λ i inside. truncated-IsEntry _ (v.entries i inside);
    handles = λ h e opened. truncated-IsHandle h e opened (v.handles h e opened);
  }
    where
      truncated-sizes :
          (j : ℕ) (o : Inode)
          → ((k ≡ j) × (emptied n ≡ o)) ⊎ ((k ≢ j) × Holds s j o)
          → o.i_size ≤ block_size s
      truncated-sizes j o (inl (p, q)) =
          let empty : 0 ≡ o.i_size = ap (λ t. t.i_size) q in omega arith
      truncated-sizes j o (inr (p, q)) = v.sizes j o q
