-- ===== src/Fs/Write/Spec.antt =====
-- About `tfs_write` of fs/operations.c on a valid state.
use so.Prelude.{
  ℕ, ◌+◌, ◌-◌, ◌^◌, ◌≤◌, ◌<◌, ◌≡◌, ◌≢◌, refl, sym, ap, ◌∙◌, ◌⊎◌, inl, inr, some, List, [], length,
  get_elem?, get_elem?-set_self, set, take, min, arith, lt_of_get_elem?, length-set, subst, true,
  false,
}
use native.Mathlib.Decide.{dec_lt}
use so.Prelude.Int.{ℤ, pos, minus_one}
use so.Prelude.Returns.{Returns, returns}
use so.Prelude.Bytes.{overwrite, overwrite-nil}
use so.Fs.Types.{Inode, OpenFileEntry, Fs, taken}
use so.Fs.Access.{block_size, data_blocks, index}
use so.Fs.BlockLaws.{data_block_alloc-cases, BlockAllocated}
use so.Fs.Handles.{with_lock}
use so.Fs.Operations.{tfs_write}
use so.Fs.Scan.{AllTaken, FirstFree, taken-set}
use so.Fs.Valid.{HasBlock, Holds, IsOpen, IsOpen-Holds, IsValid, file_bytes}
use so.Fs.Write.Keeps.{Target}
use so.Fs.Write.Outcome.{tfs_write-none, tfs_write-old, tfs_write-full, tfs_write-new}
use so.Fs.Write.Contents.{Wrote, written-Wrote}

-- How many bytes of `len` fit behind the offset.
abbrev pub room : Fs → OpenFileEntry → ℕ → ℕ
room s e len = min len (block_size s - e.of_offset)

-- The file is empty, and no block is free for it.
abbrev pub NoSpace : Fs → Inode → Type 0
NoSpace s n = (n.i_size ≡ 0) × AllTaken s.free_blocks 0 (data_blocks s)

-- The two ends of a write: so many bytes are written, or there is no block for them.
abbrev pub Outcome : Fs → ℕ → OpenFileEntry → ℕ → Inode → List ℕ → ℕ → ℤ → Fs → Type 0
Outcome s file e k n buffer len r s' =
    ((r ≡ pos (room s e len)) × Wrote s file e k n buffer (room s e len) s')
    ⊎ ((r ≡ minus_one) × (s' ≡ s) × (0 < room s e len) × NoSpace s n)

module _ (s : Fs) (file k len : ℕ) (e : OpenFileEntry) (n : Inode) (buffer : List ℕ) (v : IsValid s)
    (unlocked : s.locked ≡ false) (opened : IsOpen s file e) (number : e.of_inumber ≡ pos k)
    (holds : Holds s k n) (small : len < 2 ^ 63) (bytes : len ≤ length buffer) where
  facts : (k ≢ 0) × (e.of_offset ≤ n.i_size)
  facts = IsOpen-Holds s file k e n v opened number holds

  in_block : e.of_offset ≤ block_size s
  in_block = omega (arith, facts.1, v.sizes k n holds)

  Wrote-none : room s e len ≡ 0 → Wrote s file e k n buffer (room s e len) s
  Wrote-none none =
      let no_bytes : take (room s e len) buffer ≡ [] = ap (λ t. take t buffer) none in
      let still : e.of_offset + room s e len ≡ e.of_offset = omega arith in
      record {
        params = refl;
        valid = v;
        unlocked = unlocked;
        contents = (
          n,
          holds,
          sym (
              ap (overwrite (file_bytes s n) e.of_offset) no_bytes
              ∙ overwrite-nil (file_bytes s n) e.of_offset),
        );
        handle = (opened.0, opened.1 ∙ ap (λ t. some (record e { of_offset = t })) (sym still));
        other_files = λ j o ne held. (held, refl);
        other_handles = λ h e' ne o. o;
        old_handles = λ h e' ne o. o;
      }

  -- A file with bytes is written in its own block.
  old-Target :
      (b : ℕ)
      → 0 < n.i_size
      → n.i_data_block ≡ pos b
      → get_elem? s.free_blocks b ≡ some taken
      → Target s file e k n b (room s e len) buffer s.free_blocks
  old-Target b sized same state = record {
    opened = opened;
    number = number;
    not_root = facts.0;
    holds = holds;
    home = inr same;
    at_most_size = facts.1;
    in_blocks = omega (arith, lt_of_get_elem? s.free_blocks b state, v.shape.block_states);
    fits = omega (arith, in_block);
    bytes = omega arith;
    kept = λ c t. t;
    own = state;
    block_count = v.shape.block_states;
    alone = λ j o held some_bytes eq. v.apart j k o n held holds some_bytes sized (eq ∙ sym same);
  }

  free_unused :
      (o : Inode) (b : ℕ) → FirstFree s.free_blocks 0 b → HasBlock s o → o.i_data_block ≡ pos b → ⊥
  free_unused o b first (c, eq, state) same =
      let c_b : c ≡ b = ap index (sym eq ∙ same) in
      let there : get_elem? s.free_blocks b ≡ some taken =
        subst (λ t. get_elem? s.free_blocks t ≡ some taken) c_b state in
      let freed = first.is_free in cc

  -- A block that was FREE belongs to no file.
  new-Target :
      (b : ℕ)
      → n.i_size ≡ 0
      → FirstFree s.free_blocks 0 b
      → b < data_blocks s
      → Target s file e k n b (room s e len) buffer (set s.free_blocks b taken)
  new-Target b empty first inside = record {
    opened = opened;
    number = number;
    not_root = facts.0;
    holds = holds;
    home = inl empty;
    at_most_size = facts.1;
    in_blocks = inside;
    fits = omega (arith, in_block);
    bytes = omega arith;
    kept = λ c t. taken-set s.free_blocks b c (omega (arith, v.shape.block_states)) t;
    own = get_elem?-set_self s.free_blocks b taken (omega (arith, v.shape.block_states));
    block_count = length-set s.free_blocks b taken ∙ v.shape.block_states;
    alone =
        λ j o held some_bytes eq. absurd (free_unused o b first (v.blocks j o held some_bytes) eq);
  }

  write_sized :
      0 < room s e len
      → 0 < n.i_size
      → Returns (Outcome s file e k n buffer len) (tfs_write (pos file) buffer len s)
  write_sized some_room sized =
      let (b, same, state) = v.blocks k n holds sized in
      let target = old-Target b sized same state in
      rw
        (tfs_write-old s file k len e n buffer v.shape unlocked opened number holds.1 in_block small
          bytes b some_room sized same target.in_blocks)
        (returns
          (inl (refl, written-Wrote s file e k n b (room s e len) buffer s.free_blocks v target)))

  write_empty :
      0 < room s e len
      → n.i_size ≡ 0
      → BlockAllocated (with_lock true s)
      → Returns (Outcome s file e k n buffer len) (tfs_write (pos file) buffer len s)
  write_empty some_room empty (inl (all, full)) =
      rw
        (tfs_write-full s file k len e n buffer v.shape unlocked opened number holds.1 in_block
          small bytes some_room empty full)
        (returns (inr (refl, refl, some_room, (empty, all))))
  write_empty some_room empty (inr (b, first, inside, allocated)) =
      rw
        (tfs_write-new s file k len e n buffer v.shape unlocked opened number holds.1 in_block small
          bytes b some_room empty allocated inside)
        (returns (
          inl (
            refl,
            written-Wrote s file e k n b (room s e len) buffer (set s.free_blocks b taken) v
                (new-Target b empty first inside),
          )))

  -- On a valid state with the mutex free, with `len` below 2^63 and at most the buffer's length,
  -- `tfs_write` on an open handle returns in one of two ways. Either it writes as many of the `len`
  -- bytes as fit into the block behind the offset over the file's bytes at the offset, moves the
  -- offset behind them and returns their number; the other files, handles and the parameters stay
  -- as they are, the state is valid and the mutex free. Or there are bytes to write, the file is
  -- empty and every block is TAKEN: then it returns -1 and the state is as before.
  pub tfs_write_lem : Returns (Outcome s file e k n buffer len) (tfs_write (pos file) buffer len s)
  tfs_write_lem = elim (dec_lt 0 (room s e len)) [
    | no none ↦
        let zero_room : room s e len ≡ 0 = omega arith in
        rw
          (tfs_write-none s file k len e n buffer v.shape unlocked opened number holds.1 in_block
            small bytes zero_room)
          (returns (inl (ap pos (sym zero_room), Wrote-none zero_room)))
    | yes some_room ↦ elim (dec_lt 0 n.i_size) [
      | yes sized ↦ write_sized some_room sized
      | no empty ↦
          write_empty some_room (omega arith) (data_block_alloc-cases (with_lock true s) v.shape)
    ]
  ]
