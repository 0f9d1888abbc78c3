-- ===== src/Fs/Tests.antt =====
-- Runs of TécnicoFS on a small disk.
use so.Prelude.{
  ap, arith, zero, suc, take, drop, ◌≢◌, get_elem?, ℕ, ◌≡◌, refl, true, false, some, List, [], ◌∷◌,
}
use so.Prelude.Int.{minus_one, ℤ, pos}
use so.Prelude.Bytes.{splice, strncmp_eq, strncpy_bytes}
use so.Prelude.Run.{Run, ok, exited, fault, blocked, ◌>>=◌}
use so.Fs.Types.{Fs, FileMode, FsCmd}
use so.Fs.Access.{scan_free}
use so.Fs.Blocks.{state_init, data_block_alloc, data_block_get, state_block_size}
use so.Fs.Directory.{
  word_bytes, word_of, entry_inumber, set_entry_inumber, entry_name, empty_entries, add_loop,
  find_loop, add_dir_entry, find_in_dir,
}
use so.Fs.Inodes.{inode_alloc, inode_get, set_inode, init_directory, init_file, inode_create}
use so.Fs.OpenFiles.{add_to_open_file_table, remove_from_open_file_table, get_open_file_entry}
use so.Fs.Operations.{
  CString, tfs_init, tfs_lookup, lock_mutex, unlock_mutex, open_existing, open_finish, open_create,
  open_inode, tfs_open, close_entry, tfs_close, copy_in, copy_out, write_block, write_bytes,
  write_entry, tfs_write, read_entry, tfs_read, unlink_inode, tfs_unlink,
}
use so.Fs.Samples.{
  small, memory, off, create, plain, path_a, is_allocated, with_file, with_file_valid, open_disk,
  open_valid, hi, hi_file, written_disk, written_valid,
}
use so.Fs.Types.{taken, free}
use so.Fs.Access.{index, block_size, data_blocks, inode_table_size}
use so.Fs.Close.{tfs_close_lem}
use so.Fs.Handles.{NotOpen-refused, closed}
use so.Fs.Init.{IsFresh, tfs_init-IsFresh}
use so.Fs.Open.{entry_of, with_handle, with_handle-IsValid}
use so.Fs.Open.Create.{InodeCreated, inode_create-InodeCreated, new_file}
use so.Fs.Read.{advanced, left, tfs_read_lem}
use so.Fs.Valid.{IsValid, file_bytes}
use so.Fs.Write.Spec.{Outcome, tfs_write_lem}
use so.Prelude.Returns.{Returns}

abbrev result : {A : Type 0} → Run Fs A → Run (Unit {0}) A
result (ok a s) = ok a tt
result exited = exited
result fault = fault
result blocked = blocked

session : FsCmd (ℤ × List ℕ)
session = do
  r ← tfs_init (some small) memory
  h ← tfs_open path_a create
  n ← tfs_write h (104 ∷ 105 ∷ 33 ∷ []) 3
  c ← tfs_close h
  h' ← tfs_open path_a plain
  tfs_read h' 10

session_reads_back : result (session off) ≡ ok (pos 3, 104 ∷ 105 ∷ 33 ∷ []) tt
unfolding session tfs_init state_init inode_create inode_alloc scan_free set_inode init_directory
    data_block_alloc data_block_get empty_entries set_entry_inumber splice word_bytes tfs_open
    lock_mutex unlock_mutex inode_get tfs_lookup find_in_dir find_loop entry_inumber word_of
    entry_name strncmp_eq open_inode open_create init_file add_dir_entry add_loop strncpy_bytes
    open_finish add_to_open_file_table tfs_write get_open_file_entry write_entry state_block_size
    write_block write_bytes copy_in tfs_close close_entry remove_from_open_file_table open_existing
    tfs_read read_entry copy_out so.Fs.Access.at so.Fs.Operations.set_offset
session_reads_back = refl

abbrev with_trunc : FileMode
with_trunc = record { o_creat = false; o_trunc = true; o_append = false }

tfs_write_lem_example :
    Returns (Outcome open_disk 0 (entry_of 1 0) 1 new_file hi 3) (tfs_write (pos 0) hi 3 open_disk)
tfs_write_lem_example =
    tfs_write_lem open_disk 0 1 3 (entry_of 1 0) new_file hi open_valid refl (refl, refl) refl
      (refl, refl) (omega arith) (omega arith)

-- The file open a second time, at its start.
abbrev read_disk : Fs
read_disk = with_handle written_disk 1 1 0

abbrev read_valid : IsValid read_disk
read_valid =
    with_handle-IsValid written_disk 1 1 0 hi_file written_valid (λ e. absurd (omega arith))
      (refl, refl) (omega arith)

tfs_read_lem_example :
    (tfs_read (pos 1) 2 read_disk
      ≡ ok
          (
            pos (left (entry_of 1 0) hi_file 2),
            take (left (entry_of 1 0) hi_file 2) (drop 0 (file_bytes read_disk hi_file)),
          )
          (advanced read_disk 1 (entry_of 1 0) (left (entry_of 1 0) hi_file 2)))
    × IsValid (advanced read_disk 1 (entry_of 1 0) (left (entry_of 1 0) hi_file 2))
tfs_read_lem_example =
    tfs_read_lem read_disk 1 1 2 (entry_of 1 0) hi_file read_valid refl (refl, refl) refl
      (refl, refl)

tfs_init-IsFresh_example : Returns IsFresh (tfs_init (some small) memory off)
tfs_init-IsFresh_example = tfs_init-IsFresh (some small) memory off is_allocated refl refl

tfs_close_lem_example :
    (tfs_close (pos 0) open_disk ≡ ok (pos 0) (closed open_disk 0)) × IsValid (closed open_disk 0)
tfs_close_lem_example = tfs_close_lem open_disk 0 open_valid refl refl

inode_create-InodeCreated_example : InodeCreated with_file
inode_create-InodeCreated_example = inode_create-InodeCreated with_file with_file_valid.shape

NotOpen-refused_example :
    (tfs_close (pos 1) open_disk ≡ ok minus_one open_disk)
    × (tfs_write (pos 1) hi 3 open_disk ≡ ok minus_one open_disk)
    × (tfs_read (pos 1) 3 open_disk ≡ ok (minus_one, []) open_disk)
NotOpen-refused_example = NotOpen-refused open_disk (pos 1) hi 3 open_valid.shape refl not_open
  where
    not_open : (h : ℕ) → pos 1 ≡ pos h → get_elem? open_disk.free_open_file_entries h ≢ some taken
    not_open zero e state = absurd (let wrong : 1 ≡ 0 = ap index e in omega arith)
    not_open (suc zero) e state = absurd (let wrong : free ≡ taken = cc in cc)
    not_open (suc (suc h)) e state = cc
