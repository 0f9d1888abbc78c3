-- ===== src/Fs/OpenTests.antt =====
-- Opening files on the sample states, writing and reading them again, and reading past their end.
use so.Prelude.{
  ℕ, zero, suc, ◌*◌, ◌+◌, ◌<◌, ◌≤◌, ◌≡◌, ◌≢◌, refl, inr, true, false, some, List, [], ◌∷◌,
  get_elem?, arith,
}
use so.Prelude.Int.{pos, minus_one}
use so.Prelude.Run.{ok, exited}
use so.Prelude.Returns.{Returns}
use so.Prelude.Bytes.{slice, splice, strncmp_eq, strncpy_bytes}
use so.Fs.Types.{Fs, FileMode, taken, free}
use so.Fs.Access.{block_size}
use so.Fs.Close.{closed-IsValid}
use so.Fs.Directory.{
  word_bytes, word_of, entry_inumber, set_entry_inumber, entry_name, empty_entries, find_loop,
}
use so.Fs.Directory.Names.{IsName}
use so.Fs.Directory.Search.{First, is_empty}
use so.Fs.Scan.{FirstFree}
use so.Fs.Handles.{closed}
use so.Fs.Lookup.{lookup, at_root}
use so.Fs.Open.{Finished, entry_of, with_handle}
use so.Fs.Open.Create.{new_file}
use so.Fs.Open.Creation.{Created}
use so.Fs.Open.Spec.{
  tfs_open-refused, tfs_open-creates, tfs_open-existing, tfs_open-truncates, tfs_open-IsValid,
}
use so.Fs.Open.Truncate.{truncated, emptied, NoHandle}
use so.Fs.Operations.{tfs_open, tfs_read}
use so.Fs.Read.{advanced, tfs_read-past_end, tfs_read-past_end_exits}
use so.Fs.RoundTrip.{write_and_reread, write_and_reread_lem, Reread, rewritten}
use so.Fs.Samples.{
  create, plain, path_a, fresh_disk, fresh_valid, name_a, with_file, with_file_valid, open_disk,
  open_valid, hi, hi_file, written_disk, written_valid,
}
use so.Fs.Valid.{IsValid, Shape}
use so.Fs.Write.Spec.{NoSpace}

absent_a : lookup fresh_disk 0 name_a ≡ minus_one
unfolding find_loop entry_inumber word_of entry_name strncmp_eq empty_entries set_entry_inumber
    splice word_bytes
absent_a = refl

found_a : lookup with_file 0 name_a ≡ pos 1
unfolding find_loop entry_inumber word_of entry_name strncmp_eq empty_entries set_entry_inumber
    splice word_bytes strncpy_bytes
found_a = refl

abbrev is_name_a : IsName name_a
is_name_a = ((omega arith, tt), omega arith, omega arith)

tfs_open-existing_example : Returns (Finished with_file 1 0) (tfs_open path_a plain with_file)
tfs_open-existing_example =
    tfs_open-existing with_file path_a plain with_file_valid refl refl 1 new_file found_a
      (λ e. absurd (omega arith)) (refl, refl) refl

tfs_open-creates_example :
    Returns (Created fresh_disk fresh_valid name_a) (tfs_open path_a create fresh_disk)
tfs_open-creates_example =
    tfs_open-creates fresh_disk path_a create fresh_valid refl refl absent_a refl (omega arith)

tfs_open-refused_example : tfs_open path_a plain fresh_disk ≡ ok minus_one fresh_disk
tfs_open-refused_example =
    tfs_open-refused fresh_disk path_a plain fresh_valid refl (inr (absent_a, refl))

tfs_open-IsValid_example :
    Returns (λ r s. IsValid s × (s.locked ≡ false)) (tfs_open path_a create fresh_disk)
tfs_open-IsValid_example =
    tfs_open-IsValid fresh_disk path_a create fresh_valid refl (omega arith)
      (λ k found trunc. absurd (let wrong = trunc in cc))

-- The file with three bytes, closed.
abbrev closed_disk : Fs
closed_disk = closed written_disk 0

abbrev closed_valid : IsValid closed_disk
closed_valid = at_root closed_disk 0 (closed-IsValid written_disk 0 written_valid) (refl, refl)

found_closed : lookup closed_disk 0 name_a ≡ pos 1
unfolding find_loop entry_inumber word_of entry_name strncmp_eq empty_entries set_entry_inumber
    splice word_bytes strncpy_bytes
found_closed = refl

abbrev truncating : FileMode
truncating = record { o_creat = false; o_trunc = true; o_append = false }

none_open : NoHandle closed_disk 1
none_open zero e opened = let closed_one = opened.0 in absurd (let wrong : free ≡ taken = cc in cc)
none_open (suc zero) e opened =
    let closed_one = opened.0 in absurd (let wrong : free ≡ taken = cc in cc)
none_open (suc (suc h)) e opened = let not_there = opened.0 in absurd cc

tfs_open-truncates_example :
    Returns
      (Finished (truncated closed_disk 1 hi_file 1) 1 0)
      (tfs_open path_a truncating closed_disk)
tfs_open-truncates_example =
    tfs_open-truncates closed_disk path_a truncating closed_valid refl refl 1 hi_file found_closed
      (λ e. absurd (omega arith)) (refl, refl) 1 refl refl none_open

some_space : NoSpace open_disk new_file → ⊥
some_space full =
    let all_taken = full.1 1 (omega arith) (omega arith) in let wrong : free ≡ taken = cc in cc

write_and_reread_lem_example :
    Returns
      (Reread (rewritten open_disk (entry_of 1 0) new_file hi 3) 10)
      (write_and_reread (pos 0) hi 3 path_a 10 open_disk)
write_and_reread_lem_example =
    write_and_reread_lem open_disk 0 1 3 10 (entry_of 1 0) new_file hi path_a open_valid refl
      (refl, refl) refl (refl, refl) (omega arith) (omega arith) refl found_a some_space

-- A second file beside the first.
second_inode : FirstFree with_file.freeinode_ts 0 2
second_inode = record { from = omega arith; is_free = refl; before = before }
  where
    before : (j : ℕ) → 0 ≤ j → j < 2 → get_elem? with_file.freeinode_ts j ≡ some taken
    before zero lo hi = refl
    before (suc zero) lo hi = refl
    before (suc (suc j)) lo hi = absurd (omega arith)

First-second_entry : First (is_empty with_file.fs_data (0 * block_size with_file)) 0 1
unfolding entry_inumber word_of empty_entries set_entry_inumber splice word_bytes strncpy_bytes
First-second_entry = record { from = omega arith; passes = refl; before = before }
  where
    before :
        (j : ℕ) → 0 ≤ j → j < 1 → is_empty with_file.fs_data (0 * block_size with_file) j ≡ false
    before zero lo hi = refl
    before (suc j) lo hi = absurd (omega arith)

abbrev name_b : List ℕ
name_b = b'b' ∷ []

b_ne_a : name_a ≢ name_b
b_ne_a same = let wrong : ◌≡◌ {A = ℕ} b'a' b'b' = cc in absurd (omega arith)

-- The file is truncated while handle 0 is behind its three bytes.
abbrev past_disk : Fs
past_disk = truncated written_disk 1 hi_file 1

abbrev past_shape : Shape past_disk
past_shape = record {
  inodes = refl;
  inode_states = refl;
  bytes = written_valid.shape.bytes;
  block_states = refl;
  files = refl;
  file_states = refl;
  some_bytes = omega arith;
  small_blocks = omega arith;
  few_inodes = omega arith;
}

tfs_read-past_end_example :
    tfs_read (pos 0) 4 past_disk
    ≡ ok
        (pos 4, slice (1 * block_size past_disk + 3) 4 past_disk.fs_data)
        (advanced past_disk 0 (entry_of 1 3) 4)
tfs_read-past_end_example =
    tfs_read-past_end past_disk 0 1 4 (entry_of 1 3) (emptied hi_file) past_shape refl (refl, refl)
      refl refl 1 (omega arith) (omega arith) (omega arith) (omega arith) refl (omega arith)
      (omega (arith, written_valid.shape.bytes))

-- The handle is behind the end of a file that has no block.
abbrev no_block : Fs
no_block = with_handle with_file 0 1 5

abbrev no_block_shape : Shape no_block
no_block_shape = record {
  inodes = refl;
  inode_states = refl;
  bytes = with_file_valid.shape.bytes;
  block_states = refl;
  files = refl;
  file_states = refl;
  some_bytes = omega arith;
  small_blocks = omega arith;
  few_inodes = omega arith;
}

tfs_read-past_end_exits_example : tfs_read (pos 0) 4 no_block ≡ exited
tfs_read-past_end_exits_example =
    tfs_read-past_end_exits no_block 0 1 4 (entry_of 1 5) new_file no_block_shape refl (refl, refl)
      refl refl (omega arith) (omega arith) (omega arith) (omega arith) refl
