-- ===== src/Fs/Samples.antt =====
-- States of TécnicoFS on a small disk, and that they are valid.
use so.Prelude.{
  ap, ℕ, zero, suc, ◌*◌, ◌≤◌, ◌<◌, ◌≡◌, refl, inl, true, false, some, List, [], ◌∷◌, replicate,
  arith, get_elem?,
}
use so.Prelude.Int.{pos}
use so.Fs.Types.{Params, t_file, Inode, Fs, FileMode, Allocation, free, taken}
use so.Fs.Access.{index, block_size}
use so.Fs.Directory.Search.{First, is_empty}
use so.Fs.Init.{IsAllocated, mounted, mounted-IsValid, all_empty}
use so.Fs.Lookup.{at_root}
use so.Fs.Open.{with_handle, with_handle-IsValid, entry_of}
use so.Fs.Open.Add.{added, added-IsValid}
use so.Fs.Open.Create.{new_file}
use so.Fs.Operations.{CString}
use so.Fs.Scan.{FirstFree}
use so.Fs.Valid.{Holds, IsValid}
use so.Fs.Write.{grown}
use so.Fs.Write.Outcome.{written}
use so.Fs.Write.Keeps.{Target, after-IsValid}

abbrev pub small : Params
small = record {
  max_inode_count = 3;
  max_block_count = 3;
  max_open_files_count = 2;
  block_size = 88;
}

abbrev pub memory : Allocation
memory = record {
  has_inode_table = true;
  succeeds = true;
  inodes = replicate 3 (record { i_node_type = t_file; i_size = 9; i_data_block = pos 7 });
  bytes = replicate 264 255;
  entries = replicate 2 (record { of_inumber = pos 9; of_offset = 9 });
}

abbrev pub off : Fs
off = record {
  fs_params = small;
  ready = false;
  inode_table = [];
  freeinode_ts = [];
  fs_data = [];
  free_blocks = [];
  open_file_table = [];
  free_open_file_entries = [];
  locked = false;
}

abbrev pub create : FileMode
create = record { o_creat = true; o_trunc = false; o_append = false }

abbrev pub plain : FileMode
plain = record { o_creat = false; o_trunc = false; o_append = false }

abbrev pub path_a : CString
path_a = some (b'/' ∷ b'a' ∷ [])

abbrev pub is_allocated : IsAllocated small memory
is_allocated = record {
  succeeds = refl;
  inodes = refl;
  bytes = refl;
  entries = refl;
  some_inodes = omega arith;
  few_inodes = omega arith;
  some_blocks = omega arith;
  some_bytes = omega arith;
  small_blocks = omega arith;
}

-- A new file system.
abbrev pub fresh_disk : Fs
fresh_disk = mounted small memory off

abbrev pub fresh_valid : IsValid fresh_disk
fresh_valid = at_root fresh_disk 0 (mounted-IsValid small memory off is_allocated) (refl, refl)

abbrev pub name_a : List ℕ
name_a = b'a' ∷ []

pub first_inode : FirstFree fresh_disk.freeinode_ts 0 1
first_inode = record { from = omega arith; is_free = refl; before = before }
  where
    before : (j : ℕ) → 0 ≤ j → j < 1 → get_elem? fresh_disk.freeinode_ts j ≡ some taken
    before zero lo hi = refl
    before (suc j) lo hi = absurd (omega arith)

pub First-entry : First (is_empty fresh_disk.fs_data (0 * block_size fresh_disk)) 0 0
First-entry = record {
  from = omega arith;
  passes = rw (all_empty small memory off is_allocated 0 (omega arith)) refl;
  before = λ j lo hi. absurd (omega arith);
}

-- The file system with the empty file `a`.
abbrev pub with_file : Fs
with_file = added fresh_disk (0 * block_size fresh_disk) 1 0 name_a

abbrev pub with_file_valid : IsValid with_file
with_file_valid =
    at_root with_file 0
      (added-IsValid fresh_disk 1 0 name_a fresh_valid first_inode (omega arith) First-entry
        (omega arith))
      (refl, refl)

-- The file open on handle 0.
abbrev pub open_disk : Fs
open_disk = with_handle with_file 0 1 0

abbrev pub open_valid : IsValid open_disk
open_valid =
    at_root open_disk 0
      (with_handle-IsValid with_file 0 1 0 new_file with_file_valid (λ e. absurd (omega arith))
        (refl, refl) (omega arith))
      (refl, refl)

abbrev pub hi : List ℕ
hi = b'h' ∷ b'i' ∷ b'!' ∷ []

abbrev pub hi_file : Inode
hi_file = grown new_file 1 3

-- The file with three bytes in it, still open.
abbrev pub written_disk : Fs
written_disk = written open_disk 0 (entry_of 1 0) 1 new_file 1 3 hi (taken ∷ taken ∷ free ∷ [])

pub target : Target open_disk 0 (entry_of 1 0) 1 new_file 1 3 hi (taken ∷ taken ∷ free ∷ [])
target = record {
  opened = (refl, refl);
  number = refl;
  not_root = λ e. absurd (omega arith);
  holds = (refl, refl);
  home = inl refl;
  at_most_size = omega arith;
  in_blocks = omega arith;
  fits = omega arith;
  bytes = omega arith;
  kept = kept;
  own = refl;
  block_count = refl;
  alone = alone;
}
  where
    kept :
        (c : ℕ)
        → get_elem? open_disk.free_blocks c ≡ some taken
        → get_elem? (taken ∷ taken ∷ free ∷ []) c ≡ some taken
    kept zero h = refl
    kept (suc zero) h = refl
    kept (suc (suc c)) h = h

    alone :
        (j : ℕ) (o : Inode) → Holds open_disk j o → 0 < o.i_size → o.i_data_block ≡ pos 1 → j ≡ 1
    alone zero o h some_bytes block =
        let is_root = h.1 in
        absurd (let wrong : pos 1 ≡ pos 0 = cc in let same : 1 ≡ 0 = ap index wrong in omega arith)
    alone (suc zero) o h some_bytes block = refl
    alone (suc (suc zero)) o h some_bytes block =
        let not_taken = h.0 in absurd (let wrong : free ≡ taken = cc in cc)
    alone (suc (suc (suc j))) o h some_bytes block = let not_there = h.0 in absurd (cc)

abbrev pub written_valid : IsValid written_disk
written_valid =
    at_root written_disk 0
      (after-IsValid open_disk 0 (entry_of 1 0) 1 new_file 1 3 hi (taken ∷ taken ∷ free ∷ [])
        open_valid target)
      (refl, refl)
