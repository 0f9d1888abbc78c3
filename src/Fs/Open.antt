-- ===== src/Fs/Open.antt =====
-- `tfs_open`: its last step, the entry in the open file table.
pub mod Truncate
pub mod Create
pub mod Add
pub mod Creation
pub mod Spec
pub mod Names
use so.Prelude.{
  ℕ, ◌+◌, ◌≤◌, ◌<◌, ◌≡◌, ◌≢◌, refl, sym, ap, ◌∙◌, ◌⊎◌, inl, inr, Bool, true, false, some, List,
  length, get_elem?, get_elem?-set_cases, set, arith, length-set,
}
use so.Prelude.Int.{ℤ, pos, minus_one}
use so.Prelude.Run.{ok}
use so.Prelude.Returns.{Returns, returns}
use so.Fs.Types.{Inode, OpenFileEntry, Fs, AllocationState, free, taken}
use so.Fs.Access.{max_open_files}
use so.Fs.OpenFiles.{add_to_open_file_table}
use so.Fs.Operations.{unlock_mutex, open_finish}
use so.Fs.Scan.{AllTaken, FirstFree, Scanned, scan_free-Scanned}
use so.Fs.Valid.{Holds, IsOpen, IsHandle, IsValid}

abbrev pub entry_of : ℕ → ℕ → OpenFileEntry
entry_of k offset = record { of_inumber = pos k; of_offset = offset }

-- The state in which handle `h` is open on inode `k` at `offset`, and the mutex released.
abbrev pub with_handle : Fs → ℕ → ℕ → ℕ → Fs
with_handle s h k offset = record s {
  free_open_file_entries = set s.free_open_file_entries h taken;
  open_file_table = set s.open_file_table h (entry_of k offset);
  locked = false;
}

abbrev pub released : Fs → Fs
released s = record s { locked = false }

module _ (s : Fs) (h k offset : ℕ) (n : Inode) (v : IsValid s) (ne_root : k ≢ 0)
    (holds : Holds s k n) (at_most_size : offset ≤ n.i_size) where
  with_handle-handles :
      (i : ℕ) (e : OpenFileEntry) → IsOpen (with_handle s h k offset) i e → IsHandle s e
  with_handle-handles i e opened =
      go (get_elem?-set_cases s.free_open_file_entries h i taken opened.0)
        (get_elem?-set_cases s.open_file_table h i (entry_of k offset) opened.1)
    where
      go :
          ((h ≡ i) × (taken ≡ taken))
            ⊎ ((h ≢ i) × (get_elem? s.free_open_file_entries i ≡ some taken))
          → ((h ≡ i) × (entry_of k offset ≡ e))
            ⊎ ((h ≢ i) × (get_elem? s.open_file_table i ≡ some e))
          → IsHandle s e
      go state (inl (p, q)) =
          let at_offset : offset ≡ e.of_offset = ap (λ t. t.of_offset) q in
          (k, n, sym (ap (λ t. t.of_inumber) q), ne_root, holds, omega arith)
      go (inl (p, q)) (inr (p', q')) = absurd (p' p)
      go (inr (p, q)) (inr (p', q')) = v.handles i e (q, q')

  pub with_handle-IsValid : IsValid (with_handle s h k offset)
  with_handle-IsValid = record {
    shape = record {
      inodes = v.shape.inodes;
      inode_states = v.shape.inode_states;
      bytes = v.shape.bytes;
      block_states = v.shape.block_states;
      files = length-set s.open_file_table h (entry_of k offset) ∙ v.shape.files;
      file_states = length-set s.free_open_file_entries h taken ∙ v.shape.file_states;
      some_bytes = v.shape.some_bytes;
      small_blocks = v.shape.small_blocks;
      few_inodes = v.shape.few_inodes;
    };
    sizes = v.sizes;
    blocks = v.blocks;
    apart = v.apart;
    root = v.root;
    entries = v.entries;
    handles = with_handle-handles;
  }

-- What `tfs_open` ends in, once the state `s` has the file in it: the first FREE handle on inode `k`
-- at `offset`, or -1 where all handles are TAKEN.
abbrev pub Finished : Fs → ℕ → ℕ → ℤ → Fs → Type 0
Finished s k offset r s' =
    IsValid s'
    × (s'.locked ≡ false)
    × (((r ≡ minus_one)
          × (s' ≡ released s)
          × AllTaken s.free_open_file_entries 0 (max_open_files s))
        ⊎ ((h : ℕ) × (r ≡ pos h)
            × (s' ≡ with_handle s h k offset)
            × FirstFree s.free_open_file_entries 0 h
            × (h < max_open_files s)))

pub open_finish-Finished :
    (s : Fs) (k offset : ℕ) (n : Inode)
    → IsValid s
    → k ≢ 0
    → Holds s k n
    → offset ≤ n.i_size
    → Returns (Finished s k offset) (open_finish (pos k) offset s)
unfolding open_finish add_to_open_file_table unlock_mutex
open_finish-Finished s k offset n v ne_root holds le = go (
    scan_free-Scanned s.free_open_file_entries (max_open_files s) 0 s
      (omega (arith, v.shape.file_states)))
  where
    go :
        Scanned s.free_open_file_entries (max_open_files s) 0 s
        → Returns (Finished s k offset) (open_finish (pos k) offset s)
    go (inl (all, e)) = rw e (returns (v, refl, inl (refl, refl, all)))
    go (inr (h, first, hi, e)) = rw e (
        returns (
          with_handle-IsValid s h k offset n v ne_root holds le,
          refl,
          inr (h, refl, refl, first, omega arith),
        ))
