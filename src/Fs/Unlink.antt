-- ===== src/Fs/Unlink.antt =====
-- The state behind `tfs_unlink`, and the invariant of it.
pub mod Spec
use so.Prelude.{
  ℕ, ◌+◌, ◌*◌, ◌^◌, ◌≤◌, ◌<◌, ◌≡◌, ◌≢◌, refl, sym, ap, ◌∙◌, ◌⊎◌, inl, inr, true, false, List, [],
  ◌∷◌, some, length, length-set, get_elem?, get_elem?-set_cases, get_elem?-set_ne,
  get_elem?-set_self, lt_of_get_elem?, set, replicate, arith, ltb, lt→ltb, subst, Bool-cases,
  if◌then◌else◌,
}
use native.Mathlib.Decide.{ℕ_discrete, dec_lt}
use so.Prelude.Int.{ℤ, pos, negsuc, minus_one}
use so.Fs.Types.{AllocationState, Inode, OpenFileEntry, Fs, free, taken}
use so.Fs.Access.{index, block_size, max_dir_entries}
use so.Fs.Directory.{entry_at, entry_inumber}
use so.Fs.Directory.Entries.{IsSmall, length-filled, entry_inumber-filled, entry_inumber-filled_ne}
use so.Fs.Directory.Search.{entry-Apart}
use so.Fs.Directory.Tidy.{IsTidy, cleared}
use so.Fs.DirBlock.{entries-inside, entry_in_data, filled-file_bytes}
use so.Fs.Open.Truncate.{NoHandle}
use so.Fs.Valid.{Shape, Shape-data, HasBlock, Holds, IsOpen, IsHandle, IsEntry, IsValid, file_bytes}

-- The root directory is tidy.
abbrev pub IsTidyFs : (s : Fs) → IsValid s → Type 0
IsTidyFs s v = IsTidy s.fs_data (v.root.0 * block_size s) (max_dir_entries s)

-- The state of the blocks behind `inode_delete`.
abbrev pub freed_blocks : List AllocationState → Inode → List AllocationState
freed_blocks blocks n = if ltb 0 n.i_size then set blocks (index n.i_data_block) free else blocks

-- The state behind `inode_delete` of inode `j`, which is `n`.
abbrev pub deleted : Fs → ℕ → Inode → Fs
deleted s j n = record s {
  free_blocks = freed_blocks s.free_blocks n;
  freeinode_ts = set s.freeinode_ts j free;
}

-- The state with inode `j` deleted and entry `k` of the directory at `base` cleared.
abbrev pub unlinked : Fs → ℕ → ℕ → Inode → ℕ → Fs
unlinked s base j n k = record (deleted s j n) { fs_data = cleared base k s.fs_data }

length-freed_blocks :
    (blocks : List AllocationState) (n : Inode) → length (freed_blocks blocks n) ≡ length blocks
length-freed_blocks blocks n = elim (Bool-cases (ltb 0 n.i_size)) [
  | inl sized ↦ rw sized (length-set blocks (index n.i_data_block) free)
  | inr empty ↦ rw empty
]

-- The block of another file keeps its state.
freed_blocks-ne :
    (blocks : List AllocationState) (n : Inode) (c : ℕ)
    → (0 < n.i_size → index n.i_data_block ≢ c)
    → get_elem? (freed_blocks blocks n) c ≡ get_elem? blocks c
freed_blocks-ne blocks n c ne = elim (dec_lt 0 n.i_size) [
  | yes sized ↦
      rw (lt→ltb 0 n.i_size sized)
        (get_elem?-set_ne blocks (index n.i_data_block) c free (ne sized))
  | no empty ↦ let no_bytes : ltb 0 n.i_size ≡ false = ground arith in rw no_bytes
]

module _ (s : Fs) (j k : ℕ) (n : Inode) (v : IsValid s) (tidy : IsTidyFs s v) (not_root : j ≢ 0)
    (holds : Holds s j n) (in_dir : k < max_dir_entries s)
    (here : entry_inumber s.fs_data (entry_at (v.root.0 * block_size s) k) ≡ pos j)
    (unused : NoHandle s j) where
  abbrev base : ℕ
  base = v.root.0 * block_size s

  abbrev after : Fs
  after = unlinked s base j n k

  none-IsSmall : IsSmall minus_one
  none-IsSmall = inl refl

  in_data : entry_at base k + 44 ≤ length s.fs_data
  in_data = entry_in_data s k (replicate 40 0) minus_one v none-IsSmall refl in_dir

  pub deleted-Shape : Shape (deleted s j n)
  deleted-Shape = record {
    inodes = v.shape.inodes;
    inode_states = length-set s.freeinode_ts j free ∙ v.shape.inode_states;
    bytes = v.shape.bytes;
    block_states = length-freed_blocks s.free_blocks n ∙ v.shape.block_states;
    files = v.shape.files;
    file_states = v.shape.file_states;
    some_bytes = v.shape.some_bytes;
    small_blocks = v.shape.small_blocks;
    few_inodes = v.shape.few_inodes;
  }

  -- The inodes that are TAKEN are the others.
  pub Holds-unlinked :
      (i : ℕ) (o : Inode)
      → Holds (unlinked s (v.root.0 * block_size s) j n k) i o
      → (j ≢ i) × Holds s i o
  Holds-unlinked i o h = go (get_elem?-set_cases s.freeinode_ts j i free h.0)
    where
      go :
          ((j ≡ i) × (free ≡ taken)) ⊎ ((j ≢ i) × (get_elem? s.freeinode_ts i ≡ some taken))
          → (j ≢ i) × Holds s i o
      go (inl (p, wrong)) = absurd (let q = wrong in cc)
      go (inr (ne, state)) = (ne, (state, h.1))

  pub unlinked-Holds :
      (i : ℕ) (o : Inode)
      → j ≢ i
      → Holds s i o
      → Holds (unlinked s (v.root.0 * block_size s) j n k) i o
  unlinked-Holds i o ne h = (get_elem?-set_ne s.freeinode_ts j i free ne ∙ h.0, h.1)

  own_block : 0 < n.i_size → (c : ℕ) × (n.i_data_block ≡ pos c) × (index n.i_data_block ≡ c)
  own_block sized = let (c, eq, state) = v.blocks j n holds sized in (c, eq, ap index eq)

  unlinked-blocks : (i : ℕ) (o : Inode) → Holds after i o → 0 < o.i_size → HasBlock after o
  unlinked-blocks i o h some_bytes =
      let (ne, held) = Holds-unlinked i o h in
      let (c, eq, state) = v.blocks i o held some_bytes in
      let differs : 0 < n.i_size → index n.i_data_block ≢ c = λ sized same.
        let (d, own, at_d) = own_block sized in
        ne
          (v.apart j i n o holds held sized some_bytes (own ∙ ap pos (sym at_d ∙ same) ∙ sym eq)) in
      (c, eq, freed_blocks-ne s.free_blocks n c differs ∙ state)

  unlinked-entries :
      (i : ℕ)
      → i < max_dir_entries s
      → IsEntry after (entry_inumber after.fs_data (entry_at base i))
  unlinked-entries i lt = elim (ℕ_discrete k i) [
    | yes p ↦
        subst (λ t. IsEntry after (entry_inumber after.fs_data (entry_at base t))) p
          (inl (
            entry_inumber-filled (entry_at base k) (replicate 40 0) minus_one s.fs_data none-IsSmall
              refl in_data))
    | no ne ↦
        rw
          (entry_inumber-filled_ne (entry_at base k) (replicate 40 0) minus_one s.fs_data
            none-IsSmall refl in_data (entry_at base i) (entry-Apart base k i ne))
          (kept ne (entry_inumber s.fs_data (entry_at base i)) refl (v.entries i lt))
  ]
    where
      kept :
          k ≢ i
          → (number : ℤ) → entry_inumber s.fs_data (entry_at base i) ≡ number
          → IsEntry s number
          → IsEntry after number
      kept ne number at_i (inl e) = inl e
      kept ne number at_i (inr (q, o, eq, ne_root, small, held)) = inr (
        q,
        o,
        eq,
        ne_root,
        small,
        unlinked-Holds q o
            (λ p. ne (tidy.one_name k i j in_dir lt here (at_i ∙ eq ∙ ap pos (sym p)))) held,
      )

  unlinked-IsHandle : (h : ℕ) (e : OpenFileEntry) → IsOpen s h e → IsHandle s e → IsHandle after e
  unlinked-IsHandle h e opened (q, o, eq, ne, held, le) =
      let differ : j ≢ q = λ p. unused h e opened (eq ∙ ap pos (sym p)) in
      (q, o, eq, ne, unlinked-Holds q o differ held, le)

  pub unlinked-IsValid : IsValid (unlinked s (v.root.0 * block_size s) j n k)
  unlinked-IsValid = record {
    shape = Shape-data (deleted s j n) after.fs_data deleted-Shape (
        length-filled (entry_at base k) (replicate 40 0) minus_one s.fs_data none-IsSmall refl
          in_data);
    sizes = λ i o h. v.sizes i o (Holds-unlinked i o h).1;
    blocks = unlinked-blocks;
    apart = λ i i' o o' h h' some_o some_o' eq.
        v.apart i i' o o' (Holds-unlinked i o h).1 (Holds-unlinked i' o' h').1 some_o some_o' eq;
    root = (v.root.0, unlinked-Holds 0 _ not_root v.root.1);
    entries = unlinked-entries;
    handles = λ h e opened. unlinked-IsHandle h e opened (v.handles h e opened);
  }

  pub unlinked-file_bytes :
      (i : ℕ) (o : Inode)
      → Holds s i o
      → i ≢ 0
      → file_bytes (unlinked s (v.root.0 * block_size s) j n k) o ≡ file_bytes s o
  unlinked-file_bytes i o held ne =
      filled-file_bytes s k (replicate 40 0) minus_one v none-IsSmall refl in_dir i o held ne
