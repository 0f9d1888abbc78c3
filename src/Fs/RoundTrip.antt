-- ===== src/Fs/RoundTrip.antt =====
-- About `tfs_write`, `tfs_close`, `tfs_open` and `tfs_read` of fs/operations.c in a row.
use so.Prelude.{
  ℕ, zero, suc, ◌*◌, ◌^◌, ◌/◌, ◌≤◌, ◌<◌, ◌≡◌, ◌≢◌, refl, sym, ap, ◌∙◌, inl, inr, true, false, [],
  ◌∷◌, List, length, get_elem?-set_self, set, take, min, arith, lt_of_get_elem?, subst,
}
use so.Prelude.Int.{ℤ, pos}
use so.Prelude.Run.{◌>>=◌}
use so.Prelude.Returns
use so.Prelude.Returns.{Returns, returns, mono}
use so.Prelude.Bytes.{slice, overwrite, length-slice}
use so.Fs.Types.{Inode, OpenFileEntry, Fs, FsCmd, FileMode, free, taken}
use so.Fs.Access.{block_size, data_blocks, index}
use native.Mathlib.Decide.{dec_lt}
use so.Fs.BlockLaws.{Block-inside}
use so.Fs.Directory.{find_loop}
use so.Fs.Directory.Slices.{find_loop-block}
use so.Fs.Lookup.{root_block_unique, lookup, root_inode}
use so.Fs.Operations.{
  CString, valid_pathname, after_slash, tfs_write, tfs_close, tfs_open, tfs_read,
}
use so.Fs.Write.Contents.{Wrote}
use so.Fs.Write.Spec.{room, NoSpace, Outcome, tfs_write_lem}
use so.Fs.Read.{left, tfs_read_lem}
use so.Fs.Close.{tfs_close_lem}
use so.Fs.Handles.{closed}
use so.Fs.Open.{Finished, with_handle, entry_of}
use so.Fs.Open.Spec.{tfs_open-existing}
use so.Fs.Valid.{IsOpen-Holds, Holds, IsOpen, IsValid, file_bytes}

-- A read-only mode: no flag is set.
abbrev pub read_mode : FileMode
read_mode = record { o_creat = false; o_trunc = false; o_append = false }

-- A client's sequence of calls: it writes to an open handle, closes it, opens the file by its name
-- and reads from the start.
unfoldable pub close_and_reread : ℤ → CString → ℕ → FsCmd (ℤ × List ℕ)
close_and_reread fhandle name limit = do
  c ← tfs_close fhandle
  again ← tfs_open name read_mode
  tfs_read again limit

unfoldable pub write_and_reread : ℤ → List ℕ → ℕ → CString → ℕ → FsCmd (ℤ × List ℕ)
write_and_reread fhandle buffer len name limit = do
  n ← tfs_write fhandle buffer len
  close_and_reread fhandle name limit

pub take-min : (limit : ℕ) (xs : List ℕ) → take (min limit (length xs)) xs ≡ take limit xs
take-min zero [] = refl
take-min zero (x ∷ xs) =
    let nothing : min 0 (suc (length xs)) ≡ 0 = omega arith in ap (λ t. take t (x ∷ xs)) nothing
take-min (suc limit) [] =
    let nothing : min (suc limit) 0 ≡ 0 = omega arith in ap (λ t. take t []) nothing
take-min (suc limit) (x ∷ xs) =
    let one_less : min (suc limit) (suc (length xs)) ≡ suc (min limit (length xs)) = omega arith in
    ap (λ t. take t (x ∷ xs)) one_less ∙ ap (λ t. x ∷ t) (take-min limit xs)

-- The bytes of a file are as many as its size.
pub length-file_bytes :
    (s : Fs) (k : ℕ) (n : Inode) → IsValid s → Holds s k n → length (file_bytes s n) ≡ n.i_size
length-file_bytes s k n v holds = elim (dec_lt 0 n.i_size) [
  | no none_there ↦ let empty : n.i_size ≡ 0 = omega arith in rw empty
  | yes some_bytes ↦
      let (b, eq, state) = v.blocks k n holds some_bytes in
      let inside : b < data_blocks s =
        omega (arith, lt_of_get_elem? s.free_blocks b state, v.shape.block_states) in
      let at_block : index n.i_data_block ≡ b = ap index eq in
      ap (λ t. length (slice (t * block_size s) n.i_size s.fs_data)) at_block
      ∙ length-slice (b * block_size s) n.i_size s.fs_data
          (omega (arith, v.sizes k n holds, Block-inside s b v.shape inside))
]

module _ (s : Fs) (file k : ℕ) (e : OpenFileEntry) (n : Inode) (buffer : List ℕ) (v : IsValid s)
    (m : ℕ) (s' : Fs) (wrote : Wrote s file e k n buffer m s') where
  -- A write leaves every name in the root directory what it was.
  pub lookup-Wrote :
      k ≢ 0 → (name : List ℕ) → (lookup s' wrote.valid.root.0 name ≡ lookup s v.root.0 name)
  lookup-Wrote ne_root name =
      let (there, same) =
        wrote.other_files 0 (root_inode s v.root.0) (λ p. ne_root (sym p)) v.root.1 in
      let size : block_size s' ≡ block_size s = ap (λ t. t.block_size) wrote.params in
      let also = wrote.valid.root.1.1 in
      let held = there.1 in
      let one_inode : root_inode s' wrote.valid.root.0 ≡ root_inode s v.root.0 = cc in
      let block : wrote.valid.root.0 ≡ v.root.0 =
        ap (λ (t : Inode). index t.i_data_block) one_inode in
      ap (λ t. find_loop s'.fs_data (t * block_size s') name (block_size s' / 44) 0) block
      ∙ ap (λ t. find_loop s'.fs_data (v.root.0 * t) name (t / 44) 0) size
      ∙ find_loop-block s.fs_data s'.fs_data (v.root.0 * block_size s) (block_size s)
          (ap (λ t. slice (v.root.0 * t) (block_size s) s'.fs_data) (sym size) ∙ same) name

-- The file's bytes with as many bytes of the buffer as fit into the block written at the offset.
abbrev pub rewritten : Fs → OpenFileEntry → Inode → List ℕ → ℕ → List ℕ
rewritten s e n buffer len = overwrite (file_bytes s n) e.of_offset (take (room s e len) buffer)

-- The read returns the first `limit` of these bytes and their number, in a valid state.
abbrev pub Reread : List ℕ → ℕ → (ℤ × List ℕ) → Fs → Type 0
Reread bytes limit r s' =
    IsValid s' × (r.1 ≡ take limit bytes) × (r.0 ≡ pos (min limit (length bytes)))

module _ (s : Fs) (file k len limit : ℕ) (e : OpenFileEntry) (n : Inode) (buffer : List ℕ)
    (name : CString) (v : IsValid s) (unlocked : s.locked ≡ false) (opened : IsOpen s file e)
    (number : e.of_inumber ≡ pos k) (holds : Holds s k n) (small : len < 2 ^ 63)
    (bytes : len ≤ length buffer) (good : valid_pathname name ≡ true)
    (named : lookup s v.root.0 (after_slash name) ≡ pos k) where
  abbrev contents : List ℕ
  contents = rewritten s e n buffer len

  reread :
      (s' : Fs) (h : ℕ) (n' : Inode)
      → IsValid (with_handle s' h k 0)
      → Holds s' k n'
      → file_bytes s' n' ≡ contents
      → IsOpen (with_handle s' h k 0) h (entry_of k 0)
      → Returns (Reread contents limit) (tfs_read (pos h) limit (with_handle s' h k 0))
  reread s' h n' valid holds' same opened' =
      let (read, kept) =
        tfs_read_lem (with_handle s' h k 0) h k limit (entry_of k 0) n' valid refl opened' refl
          holds' in
      let size : length contents ≡ n'.i_size =
        ap length (sym same) ∙ length-file_bytes (with_handle s' h k 0) k n' valid holds' in
      let all_left : left (entry_of k 0) n' limit ≡ min limit (length contents) = omega arith in
      rw read (
        returns (
          kept,
          ap (λ t. take (left (entry_of k 0) n' limit) t) same
              ∙ ap (λ t. take t contents) all_left
              ∙ take-min limit contents,
          ap pos all_left,
        ))

  after_write :
      (s' : Fs)
      → Wrote s file e k n buffer (room s e len) s'
      → Returns (Reread contents limit) (close_and_reread (pos file) name limit s')
  unfolding close_and_reread
  after_write s' wrote =
      let (n', holds', same) = wrote.contents in
      let (close, valid') = tfs_close_lem s' file wrote.valid wrote.unlocked wrote.handle.0 in
      let found : lookup (closed s' file) valid'.root.0 (after_slash name) ≡ pos k =
        ap (λ b. lookup s' b (after_slash name))
          (root_block_unique (closed s' file) wrote.valid.root.0 valid' wrote.valid.root.1)
        ∙ lookup-Wrote s file k e n buffer v (room s e len) s' wrote ne_root (after_slash name)
        ∙ named in
      rw close (
        Returns.bind
          (tfs_open-existing (closed s' file) name read_mode valid' refl good k n' found ne_root
            holds' refl)
          (λ again s'' end. opened_again s' n' wrote holds' same again s'' end))
    where
      ne_root : k ≢ 0
      ne_root = (IsOpen-Holds s file k e n v opened number holds).0

      opened_again :
          (s' : Fs) (n' : Inode)
          → Wrote s file e k n buffer (room s e len) s'
          → Holds s' k n'
          → file_bytes s' n' ≡ contents
          → (again : ℤ) (s'' : Fs) → Finished (closed s' file) k 0 again s''
          → Returns (Reread contents limit) (tfs_read again limit s'')
      opened_again s' n' wrote holds' same again s'' (valid, released, inl (none_free, e', all)) =
          let there =
            get_elem?-set_self s'.free_open_file_entries file free
              (lt_of_get_elem? s'.free_open_file_entries file wrote.handle.0) in
          let also = all file (omega arith) (
            omega (
              arith,
              lt_of_get_elem? s'.free_open_file_entries file wrote.handle.0,
              wrote.valid.shape.file_states,
            )) in
          absurd (let wrong : free ≡ taken = cc in cc)
      opened_again s' n' wrote holds' same again s''
            (valid, released, inr (h, r, e', first, inside)) =
          let valid' : IsValid (with_handle (closed s' file) h k 0) =
            subst (λ t. IsValid t) e' valid in
          rw (r, e')
            (reread (closed s' file) h n' valid' holds' same (
              get_elem?-set_self (set s'.free_open_file_entries file free) h taken
                  (lt_of_get_elem? (set s'.free_open_file_entries file free) h first.is_free),
              get_elem?-set_self s'.open_file_table h (entry_of k 0)
                  (omega (arith, inside, wrote.valid.shape.files)),
            ))

  -- On a valid state with the mutex free, let a handle be open on the file that a valid path name
  -- leads to, let `len` be below 2^63 and at most the buffer's length, and let the file have bytes
  -- or some block be FREE. Then a `tfs_write` of `len` bytes to the handle, its `tfs_close`, a
  -- `tfs_open` of the name and a `tfs_read` of `limit` bytes return: the state is valid, and the
  -- bytes read are the first `limit` of the file's old bytes with as many of the buffer's first
  -- `len` as fit into the block written over them at the handle's old offset; the count is how many
  -- those are.
  pub write_and_reread_lem :
      (NoSpace s n → ⊥)
      → Returns
          (Reread (rewritten s e n buffer len) limit)
          (write_and_reread (pos file) buffer len name limit s)
  unfolding write_and_reread
  write_and_reread_lem some_space =
      Returns.bind
        (tfs_write_lem s file k len e n buffer v unlocked opened number holds small bytes)
        (λ r s' outcome. go s' outcome)
    where
      go :
          {r : ℤ} (s' : Fs)
          → Outcome s file e k n buffer len r s'
          → Returns (Reread contents limit) (close_and_reread (pos file) name limit s')
      go s' (inl (count, wrote)) = after_write s' wrote
      go s' (inr (failed, same, some_room, no_space)) = absurd (some_space no_space)
