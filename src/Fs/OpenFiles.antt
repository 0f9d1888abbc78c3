-- ===== src/Fs/OpenFiles.antt =====
-- fs/state.c: the open file table.
use so.Prelude.{ℕ, not, Option, none, some, set, if◌then◌else◌}
use so.Prelude.Int.{ℤ, pos, negsuc, minus_one}
use so.Prelude.Run.{ok, pure, ◌>>=◌, ◌>>◌, always_assert}
use so.Fs.Types.{free, taken, FsCmd}
use so.Fs.Access.{at, get, put, max_open_files, valid_file_handle, is_taken, index, scan_free}

abbrev pub take_entry : ℤ → ℕ → ℤ → FsCmd ℤ
take_entry inumber offset (negsuc n) s = ok minus_one s
take_entry inumber offset (pos i) s = ok (pos i) (record s {
  free_open_file_entries = set s.free_open_file_entries i taken;
  open_file_table = set s.open_file_table i (record { of_inumber = inumber; of_offset = offset });
})

unfoldable pub add_to_open_file_table : ℤ → ℕ → FsCmd ℤ
add_to_open_file_table inumber offset = do
  s ← get
  r ← scan_free s.free_open_file_entries (max_open_files s) 0
  take_entry inumber offset r

unfoldable pub remove_from_open_file_table : ℤ → FsCmd (Unit {0})
remove_from_open_file_table fhandle = do
  s ← get
  always_assert (valid_file_handle s fhandle)
  state ← at s.free_open_file_entries (index fhandle)
  always_assert (is_taken state)
  put (record s { free_open_file_entries = set s.free_open_file_entries (index fhandle) free })

-- `none` is the null pointer.
unfoldable pub get_open_file_entry : ℤ → FsCmd (Option ℕ)
get_open_file_entry fhandle = do
  s ← get
  if not (valid_file_handle s fhandle) then pure none else (do
    state ← at s.free_open_file_entries (index fhandle)
    if is_taken state then pure (some (index fhandle)) else pure none)
