-- ===== src/Fs/Write/Keeps.antt =====
-- About the branches of a write and the invariant of the file system.
use so.Prelude.{
  ℕ, ◌+◌, ◌*◌, ◌≤◌, ◌<◌, ◌≡◌, ◌≢◌, refl, sym, ap, ◌∙◌, ◌⊎◌, inl, inr, some, List, length, get_elem?,
  get_elem?-set_ne, get_elem?-set_self, get_elem?-set_cases, take, max, arith, length-set,
  length-take, lt_of_get_elem?, subst,
}
use native.Mathlib.Decide.{ℕ_discrete, dec_lt}
use so.Prelude.Int.{pos, of_word}
use so.Prelude.Bytes.{slice, length-splice, slice-splice_before, slice-splice_after}
use so.Fs.Types.{Inode, OpenFileEntry, Fs, AllocationState, taken}
use so.Fs.Access.{block_size, data_blocks, max_dir_entries}
use so.Fs.BlockLaws.{block_before}
use so.Fs.Directory.{entry_at, entry_inumber, word_of}
use so.Fs.Valid.{Shape, Holds, IsOpen, HasBlock, IsEntry, IsHandle, IsValid}
use so.Fs.Write.{moved, grown}
use so.Fs.Write.Outcome.{written}

-- What the write is given: the file of a handle, and a block that no other file has.
abbrev pub Target :
    Fs → ℕ → OpenFileEntry → ℕ → Inode → ℕ → ℕ → List ℕ → List AllocationState → Type 0
Target s file e k n b m buffer blocks = record {
  opened : IsOpen s file e;
  number : e.of_inumber ≡ pos k;
  not_root : k ≢ 0;
  holds : Holds s k n;
  home : (n.i_size ≡ 0) ⊎ (n.i_data_block ≡ pos b);
  at_most_size : e.of_offset ≤ n.i_size;
  in_blocks : b < data_blocks s;
  fits : e.of_offset + m ≤ block_size s;
  bytes : m ≤ length buffer;
  kept : (c : ℕ) → get_elem? s.free_blocks c ≡ some taken → get_elem? blocks c ≡ some taken;
  own : get_elem? blocks b ≡ some taken;
  block_count : length blocks ≡ data_blocks s;
  alone : (j : ℕ) (o : Inode) → Holds s j o → 0 < o.i_size → o.i_data_block ≡ pos b → j ≡ k;
}

module _ (s : Fs) (file : ℕ) (e : OpenFileEntry) (k : ℕ) (n : Inode) (b m : ℕ) (buffer : List ℕ)
    (blocks : List AllocationState) (v : IsValid s)
    (target : Target s file e k n b m buffer blocks) where
  abbrev pub after : Fs
  after = written s file e k n b m buffer blocks

  abbrev pub new : Inode
  new = grown n b (e.of_offset + m)

  after-Shape : Shape after
  after-Shape = record {
    inodes = length-set s.inode_table k new ∙ v.shape.inodes;
    inode_states = v.shape.inode_states;
    bytes =
        length-splice (b * block_size s + e.of_offset) (take m buffer) s.fs_data ∙ v.shape.bytes;
    block_states = target.block_count;
    files = length-set s.open_file_table file (moved e m) ∙ v.shape.files;
    file_states = v.shape.file_states;
    some_bytes = v.shape.some_bytes;
    small_blocks = v.shape.small_blocks;
    few_inodes = v.shape.few_inodes;
  }

  -- An inode of the new state is the written one, or as before.
  Holds-cases :
      (j : ℕ) (o : Inode) → Holds after j o → ((k ≡ j) × (new ≡ o)) ⊎ ((k ≢ j) × Holds s j o)
  Holds-cases j o h = go (get_elem?-set_cases s.inode_table k j new h.1)
    where
      go :
          ((k ≡ j) × (new ≡ o)) ⊎ ((k ≢ j) × (get_elem? s.inode_table j ≡ some o))
          → ((k ≡ j) × (new ≡ o)) ⊎ ((k ≢ j) × Holds s j o)
      go (inl p) = inl p
      go (inr (p, q)) = inr (p, (h.0, q))

  pub new-Holds : Holds after k new
  new-Holds = (
    target.holds.0,
    get_elem?-set_self s.inode_table k new (lt_of_get_elem? s.inode_table k target.holds.1),
  )

  same_inode : (j : ℕ) (o : Inode) → Holds s j o → k ≡ j → o ≡ n
  same_inode j o h p = let held = target.holds.1 in let here = h.1 in cc

  -- Each inode that was there is there, and has not shrunk.
  Holds-after :
      (j : ℕ) (o : Inode) → Holds s j o → (o' : Inode) × Holds after j o' × (o.i_size ≤ o'.i_size)
  Holds-after j o h = elim (ℕ_discrete k j) [
    | yes p ↦
        let size : o.i_size ≡ n.i_size = ap (λ t. t.i_size) (same_inode j o h p) in
        (new, subst (λ t. Holds after t new) p new-Holds, omega arith)
    | no ne ↦ (o, (h.0, get_elem?-set_ne s.inode_table k j new ne ∙ h.1), omega arith)
  ]

  after-sizes : (j : ℕ) (o : Inode) → Holds after j o → o.i_size ≤ block_size s
  after-sizes j o h = go (Holds-cases j o h)
    where
      go : ((k ≡ j) × (new ≡ o)) ⊎ ((k ≢ j) × Holds s j o) → o.i_size ≤ block_size s
      go (inl (p, q)) =
          let size : max n.i_size (e.of_offset + m) ≡ o.i_size = ap (λ t. t.i_size) q in
          omega (arith, v.sizes k n target.holds, target.fits)
      go (inr (p, q)) = v.sizes j o q

  after-blocks : (j : ℕ) (o : Inode) → Holds after j o → 0 < o.i_size → HasBlock after o
  after-blocks j o h some_bytes = go (Holds-cases j o h)
    where
      go : ((k ≡ j) × (new ≡ o)) ⊎ ((k ≢ j) × Holds s j o) → HasBlock after o
      go (inl (p, q)) = (b, sym (ap (λ t. t.i_data_block) q), target.own)
      go (inr (p, q)) =
          let (c, eq, state) = v.blocks j o q some_bytes in (c, eq, target.kept c state)

  after-apart :
      (i j : ℕ) (o o' : Inode)
      → Holds after i o
      → Holds after j o'
      → 0 < o.i_size
      → 0 < o'.i_size
      → o.i_data_block ≡ o'.i_data_block
      → i ≡ j
  after-apart i j o o' h h' pos_o pos_o' eq = go (Holds-cases i o h) (Holds-cases j o' h')
    where
      go :
          ((k ≡ i) × (new ≡ o)) ⊎ ((k ≢ i) × Holds s i o)
          → ((k ≡ j) × (new ≡ o')) ⊎ ((k ≢ j) × Holds s j o')
          → i ≡ j
      go (inl (p, q)) (inl (p', q')) = sym p ∙ p'
      go (inl (p, q)) (inr (p', q')) =
          let own : pos b ≡ o.i_data_block = ap (λ t. t.i_data_block) q in
          absurd (p' (sym (target.alone j o' q' pos_o' (sym (own ∙ eq)))))
      go (inr (p, q)) (inl (p', q')) =
          let own : pos b ≡ o'.i_data_block = ap (λ t. t.i_data_block) q' in
          absurd (p (sym (target.alone i o q pos_o (eq ∙ sym own))))
      go (inr (p, q)) (inr (p', q')) = v.apart i j o o' q q' pos_o pos_o' eq

  after-handles : (h : ℕ) (e' : OpenFileEntry) → IsOpen after h e' → IsHandle after e'
  after-handles h e' opened = go (get_elem?-set_cases s.open_file_table file h (moved e m) opened.1)
    where
      go :
          ((file ≡ h) × (moved e m ≡ e')) ⊎ ((file ≢ h) × (get_elem? s.open_file_table h ≡ some e'))
          → IsHandle after e'
      go (inl (p, q)) =
          let offset : e.of_offset + m ≡ e'.of_offset = ap (λ t. t.of_offset) q in
          (
            k,
            new,
            sym (ap (λ t. t.of_inumber) q) ∙ target.number,
            target.not_root,
            new-Holds,
            omega arith,
          )
      go (inr (p, q)) =
          let (j, o, number, ne, held, le) = v.handles h e' (opened.0, q) in
          let (o', held', grows) = Holds-after j o held in (j, o', number, ne, held', omega arith)

  -- Bytes of another block stay as they are.
  pub other_block :
      (c a l : ℕ)
      → c ≢ b
      → c * block_size s ≤ a
      → a + l ≤ c * block_size s + block_size s
      → slice a l after.fs_data ≡ slice a l s.fs_data
  other_block c a l ne lo hi = elim (dec_lt c b) [
    | yes below ↦
        slice-splice_before a l (b * block_size s + e.of_offset) (take m buffer) s.fs_data
          (omega (arith, block_before c b (block_size s) below))
    | no above ↦ slice-splice_after a l (b * block_size s + e.of_offset) (take m buffer) s.fs_data (
        omega (
          arith,
          block_before b c (block_size s) (omega arith),
          length-take m buffer,
          target.fits,
          target.bytes,
        ))
  ]

  -- The block of another file with bytes is another block.
  pub other_file :
      (j c : ℕ) (o : Inode) → Holds s j o → 0 < o.i_size → o.i_data_block ≡ pos c → k ≢ j → c ≢ b
  other_file j c o h some_bytes eq ne same =
      ne (sym (target.alone j o h some_bytes (eq ∙ ap pos same)))

  after-entry :
      (i : ℕ)
      → i < max_dir_entries s
      → entry_inumber after.fs_data (entry_at (v.root.0 * block_size s) i)
        ≡ entry_inumber s.fs_data (entry_at (v.root.0 * block_size s) i)
  unfolding entry_inumber
  after-entry i inside =
      ap (λ t. of_word (word_of t))
        (other_block v.root.0 (v.root.0 * block_size s + i * 44 + 40) 4
          (other_file 0 v.root.0 _ v.root.1 v.shape.some_bytes refl target.not_root) (omega arith)
          (omega arith))

  after-entries :
      (i : ℕ)
      → i < max_dir_entries s
      → IsEntry after (entry_inumber after.fs_data (entry_at (v.root.0 * block_size s) i))
  after-entries i inside = rw (after-entry i inside) (go (v.entries i inside))
    where
      go :
          IsEntry s (entry_inumber s.fs_data (entry_at (v.root.0 * block_size s) i))
          → IsEntry after (entry_inumber s.fs_data (entry_at (v.root.0 * block_size s) i))
      go (inl none_there) = inl none_there
      go (inr (j, o, eq, ne, small, held)) =
          let (o', held', grows) = Holds-after j o held in inr (j, o', eq, ne, small, held')

  -- The state behind the write is valid.
  pub after-IsValid : IsValid after
  after-IsValid = record {
    shape = after-Shape;
    sizes = after-sizes;
    blocks = after-blocks;
    apart = after-apart;
    root = (
      v.root.0,
      (v.root.1.0, get_elem?-set_ne s.inode_table k 0 new target.not_root ∙ v.root.1.1),
    );
    entries = after-entries;
    handles = after-handles;
  }
