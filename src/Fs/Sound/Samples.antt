-- ===== src/Fs/Sound/Samples.antt =====
-- Sample states that are sound, and what is found in them.
use so.Prelude.{ℕ, zero, suc, ◌*◌, ◌≡◌, refl, arith}
use so.Prelude.Int.{pos, minus_one}
use so.Prelude.Bytes.{strncmp_eq, splice, strncpy_bytes}
use so.Fs.Types.{OpenFileEntry, taken, free}
use so.Fs.Access.{block_size}
use so.Fs.Directory.{
  word_bytes, word_of, entry_inumber, set_entry_inumber, entry_name, empty_entries, find_loop,
}
use so.Fs.Directory.Names.{IsName}
use so.Fs.Init.{all_empty}
use so.Fs.Directory.Grow.{empty-IsTidy}
use so.Fs.Lookup.{lookup}
use so.Fs.Open.Truncate.{NoHandle}
use so.Fs.Samples.{
  small, memory, off, is_allocated, fresh_disk, fresh_valid, name_a, first_inode, First-entry,
  with_file,
}
use so.Fs.Sound.{IsSound}
use so.Fs.Sound.Create.{added-Sound}
use so.Fs.Valid.{IsOpen}

abbrev pub is_name_a : IsName name_a
is_name_a = ((omega arith, tt), omega arith, omega arith)

pub fresh_no_handle : (h : ℕ) (e : OpenFileEntry) → IsOpen fresh_disk h e → ⊥
fresh_no_handle zero e opened = let state = opened.0 in let wrong : free ≡ taken = cc in cc
fresh_no_handle (suc zero) e opened = let state = opened.0 in let wrong : free ≡ taken = cc in cc
fresh_no_handle (suc (suc h)) e opened = let state = opened.0 in cc

abbrev pub fresh_sound : IsSound fresh_disk
fresh_sound = record {
  valid = fresh_valid;
  tidy =
      empty-IsTidy fresh_disk.fs_data (0 * block_size fresh_disk) 2
        (λ i lt. all_empty small memory off is_allocated i lt);
  named = λ h e opened. absurd (fresh_no_handle h e opened);
  unlocked = refl;
}

pub absent_a : lookup fresh_disk 0 name_a ≡ minus_one
unfolding find_loop entry_inumber word_of entry_name strncmp_eq empty_entries set_entry_inumber
    splice word_bytes
absent_a = refl

pub found_a : lookup with_file 0 name_a ≡ pos 1
unfolding find_loop entry_inumber word_of entry_name strncmp_eq empty_entries set_entry_inumber
    splice word_bytes strncpy_bytes
found_a = refl

abbrev pub file_sound : IsSound with_file
file_sound =
    added-Sound fresh_disk fresh_sound name_a is_name_a 1 0 absent_a first_inode (omega arith)
      First-entry (omega arith)

pub none_open : (k : ℕ) → NoHandle with_file k
none_open k h e opened = absurd (fresh_no_handle h e opened)
