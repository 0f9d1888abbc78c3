-- ===== src/Fs/Write/Contents.antt =====
-- The bytes of a file behind a write.
use so.Prelude.{
  ℕ, ◌+◌, ◌*◌, ◌≤◌, ◌<◌, ◌≡◌, ◌≢◌, refl, sym, ap, ◌∙◌, ◌⊎◌, inl, inr, List, ◌++◌, length,
  get_elem?-set_ne, get_elem?-set_self, take, drop, max, arith, length-take, lt_of_get_elem?, false,
}
use native.Mathlib.Decide.{dec_lt}
use so.Prelude.Int.{pos}
use so.Prelude.Bytes.{
  slice, slice-splice_inside, splice-eq-append, take-slice, drop_all, overwrite, length-slice,
}
use so.Fs.Types.{Inode, OpenFileEntry, Fs, AllocationState}
use so.Fs.Access.{block_size, index}
use so.Fs.BlockLaws.{Block-inside}
use so.Fs.Valid.{Holds, IsOpen, IsValid, file_bytes}
use so.Fs.Write.{moved, grown}
use so.Fs.Write.Keeps.{Target, after-IsValid, other_block, other_file, new-Holds}
use so.Fs.Write.Outcome.{written}

-- What holds behind a write of the first `m` bytes of the buffer.
abbrev pub Wrote : Fs → ℕ → OpenFileEntry → ℕ → Inode → List ℕ → ℕ → Fs → Type 0
Wrote s file e k n buffer m s' = record {
  params : s'.fs_params ≡ s.fs_params;
  valid : IsValid s';
  unlocked : s'.locked ≡ false;
  contents :
      (n' : Inode) × Holds s' k n'
      × (file_bytes s' n' ≡ overwrite (file_bytes s n) e.of_offset (take m buffer));
  handle : IsOpen s' file (moved e m);
  other_files :
      (j : ℕ) (o : Inode) → j ≢ k → Holds s j o → Holds s' j o × (file_bytes s' o ≡ file_bytes s o);
  other_handles : (h : ℕ) (e' : OpenFileEntry) → h ≢ file → IsOpen s h e' → IsOpen s' h e';
  old_handles : (h : ℕ) (e' : OpenFileEntry) → h ≢ file → IsOpen s' h e' → IsOpen s h e';
}

module _ (s : Fs) (file : ℕ) (e : OpenFileEntry) (k : ℕ) (n : Inode) (b m : ℕ) (buffer : List ℕ)
    (blocks : List AllocationState) (v : IsValid s)
    (target : Target s file e k n b m buffer blocks) where
  abbrev base : ℕ
  base = b * block_size s

  abbrev bytes : List ℕ
  bytes = take m buffer

  length-bytes : length bytes ≡ m
  length-bytes = omega (arith, length-take m buffer, target.bytes)

  abbrev size : ℕ
  size = max n.i_size (e.of_offset + m)

  room_in_block : base + size ≤ length s.fs_data
  room_in_block =
      omega
        (arith, Block-inside s b v.shape target.in_blocks, v.sizes k n target.holds, target.fits)

  front_same : slice base e.of_offset s.fs_data ≡ take e.of_offset (file_bytes s n)
  front_same = go target.home
    where
      go :
          (n.i_size ≡ 0) ⊎ (n.i_data_block ≡ pos b)
          → slice base e.of_offset s.fs_data ≡ take e.of_offset (file_bytes s n)
      go (inl empty) =
          let zero_off : e.of_offset ≡ 0 = omega (arith, target.at_most_size) in rw zero_off
      go (inr same) = sym (
          ap (λ t. take e.of_offset (slice (index t * block_size s) n.i_size s.fs_data)) same
          ∙ take-slice e.of_offset n.i_size base s.fs_data target.at_most_size)

  back_same :
      drop (e.of_offset + m) (slice base size s.fs_data) ≡ drop (e.of_offset + m) (file_bytes s n)
  back_same = elim (dec_lt (e.of_offset + m) n.i_size) [
    | yes inside ↦ ap (drop (e.of_offset + m)) (go target.home inside)
    | no past ↦
        drop_all (e.of_offset + m) (slice base size s.fs_data)
          (omega (arith, length-take size (drop base s.fs_data)))
        ∙ sym (
            drop_all (e.of_offset + m) (file_bytes s n) (
              omega (
                arith,
                length-take n.i_size (drop (index n.i_data_block * block_size s) s.fs_data),
              )))
  ]
    where
      go :
          (n.i_size ≡ 0) ⊎ (n.i_data_block ≡ pos b)
          → e.of_offset + m < n.i_size
          → slice base size s.fs_data ≡ file_bytes s n
      go (inl empty) inside = absurd (omega arith)
      go (inr same) inside =
          let kept : size ≡ n.i_size = omega arith in
          ap (λ t. slice base t s.fs_data) kept
          ∙ sym (ap (λ t. slice (index t * block_size s) n.i_size s.fs_data) same)

  contents_after :
      file_bytes (written s file e k n b m buffer blocks) (grown n b (e.of_offset + m))
      ≡ overwrite (file_bytes s n) e.of_offset bytes
  contents_after =
      slice-splice_inside base e.of_offset size bytes s.fs_data (omega (arith, length-bytes))
      ∙ splice-eq-append e.of_offset bytes (slice base size s.fs_data)
          (omega (arith, length-bytes, length-slice base size s.fs_data room_in_block))
      ∙ ap (λ t. t ++ (bytes ++ drop (e.of_offset + length bytes) (slice base size s.fs_data)))
          (take-slice e.of_offset size base s.fs_data (omega arith) ∙ front_same)
      ∙ ap (λ t. take e.of_offset (file_bytes s n) ++ (bytes ++ t))
          (ap (λ t. drop (e.of_offset + t) (slice base size s.fs_data)) length-bytes
            ∙ back_same
            ∙ ap (λ t. drop (e.of_offset + t) (file_bytes s n)) (sym length-bytes))

  other_bytes :
      (j : ℕ) (o : Inode)
      → j ≢ k
      → Holds s j o
      → file_bytes (written s file e k n b m buffer blocks) o ≡ file_bytes s o
  other_bytes j o ne held = elim (dec_lt 0 o.i_size) [
    | no empty ↦ let none_there : o.i_size ≡ 0 = omega arith in rw none_there
    | yes some_bytes ↦
        let (c, eq, state) = v.blocks j o held some_bytes in
        rw eq (
          other_block s file e k n b m buffer blocks v target c (c * block_size s) o.i_size
            (other_file s file e k n b m buffer blocks v target j c o held some_bytes eq
              (λ p. ne (sym p)))
            (omega arith) (omega (arith, v.sizes j o held)))
  ]

  pub written-Wrote : Wrote s file e k n buffer m (written s file e k n b m buffer blocks)
  written-Wrote = record {
    params = refl;
    valid = after-IsValid s file e k n b m buffer blocks v target;
    unlocked = refl;
    contents = (
      grown n b (e.of_offset + m),
      new-Holds s file e k n b m buffer blocks v target,
      contents_after,
    );
    handle = (
      target.opened.0,
      get_elem?-set_self s.open_file_table file (moved e m)
          (lt_of_get_elem? s.open_file_table file target.opened.1),
    );
    other_files = λ j o ne held. (
      (
        held.0,
        get_elem?-set_ne s.inode_table k j (grown n b (e.of_offset + m)) (λ p. ne (sym p)) ∙ held.1,
      ),
      other_bytes j o ne held,
    );
    other_handles = λ h e' ne opened. (
      opened.0,
      get_elem?-set_ne s.open_file_table file h (moved e m) (λ p. ne (sym p)) ∙ opened.1,
    );
    old_handles = λ h e' ne opened. (
      opened.0,
      sym (get_elem?-set_ne s.open_file_table file h (moved e m) (λ p. ne (sym p))) ∙ opened.1,
    );
  }
