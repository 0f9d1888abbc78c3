-- ===== src/Fs/Calls/Tests.antt =====
-- Calls on the sample states: writing to a file, removing one, and a run from `tfs_init` on.
use so.Prelude.{◌≡◌, refl, some, [], ◌∷◌, arith}
use so.Prelude.Int.{pos}
use so.Prelude.Run.{ok}
use so.Prelude.Returns.{Returns}
use so.Prelude.Bytes.{strncmp_eq, splice, strncpy_bytes}
use so.Fs.Types.{Fs}
use so.Fs.Access.{at, scan_free}
use so.Fs.Calls.{open_file, write_file, unlink_file, run, Meets, run-Meets}
use so.Fs.Calls.Runs.{Runs, stop, step, Runs-Returns}
use so.Fs.Directory.{
  word_bytes, word_of, entry_inumber, set_entry_inumber, entry_name, empty_entries, find_loop,
  find_in_dir, add_dir_entry, add_loop,
}
use so.Fs.Init.{tfs_init-mounted}
use so.Fs.Open.{with_handle}
use so.Fs.Open.Create.{new_file}
use so.Fs.Operations.{
  tfs_unlink, tfs_open, open_inode, open_create, open_existing, open_finish, lock_mutex,
  unlock_mutex, tfs_lookup,
}
use so.Fs.Inodes.{inode_create, inode_alloc, inode_get, init_file, set_inode}
use so.Fs.Blocks.{data_block_get}
use so.Fs.OpenFiles.{add_to_open_file_table}
use so.Fs.Samples.{small, memory, off, is_allocated, create, path_a, fresh_disk, name_a, with_file}
use so.Fs.Sound.{IsSound}
use so.Fs.Unlink.Spec.{Removed, tfs_unlink_lem}
use so.Fs.Sound.Samples.{is_name_a, found_a, file_sound, none_open}

run-Meets_example :
    Returns
      (λ r s. (sound : IsSound s) × Meets with_file file_sound (unlink_file name_a) r s sound)
      (run (unlink_file name_a) with_file)
run-Meets_example =
    run-Meets with_file file_sound (unlink_file name_a) (is_name_a, λ k found. none_open k)

tfs_unlink_lem_example :
    (s : Fs) × (tfs_unlink path_a with_file ≡ ok (pos 0) s)
    × Removed with_file file_sound.valid name_a 1 new_file s
tfs_unlink_lem_example =
    tfs_unlink_lem with_file path_a file_sound.valid refl file_sound.tidy refl is_name_a 1 new_file
      found_a (λ e. absurd (omega arith)) (refl, refl) (none_open 1)

-- The file is created and its handle used.
created_a : run (open_file name_a create) fresh_disk ≡ ok (pos 0, []) (with_handle with_file 0 1 0)
unfolding run tfs_open open_inode open_create open_existing open_finish lock_mutex unlock_mutex
    tfs_lookup find_in_dir find_loop entry_inumber word_of entry_name strncmp_eq empty_entries
    set_entry_inumber splice word_bytes strncpy_bytes add_dir_entry add_loop inode_create
    inode_alloc inode_get init_file set_inode data_block_get add_to_open_file_table at scan_free
created_a = refl

created-Runs : Runs fresh_disk (with_handle with_file 0 1 0)
created-Runs =
    step (open_file name_a create) (pos 0, [])
      (is_name_a, λ trunc k found. absurd (let wrong = trunc in cc)) created_a stop

Runs-Returns_example :
    IsSound (with_handle with_file 0 1 0)
    × Returns
        (λ a s. IsSound s)
        (run (write_file (pos 0) (b'h' ∷ b'i' ∷ []) 2) (with_handle with_file 0 1 0))
Runs-Returns_example =
    Runs-Returns (some small) memory off fresh_disk (with_handle with_file 0 1 0) (pos 0)
      (write_file (pos 0) (b'h' ∷ b'i' ∷ []) 2) is_allocated refl refl
      (tfs_init-mounted (some small) memory off is_allocated refl) created-Runs
      (omega arith, omega arith)
