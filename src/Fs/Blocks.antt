-- ===== src/Fs/Blocks.antt =====
-- fs/state.c: initialisation, and the data blocks.
use so.Prelude.{ℕ, ◌+◌, ◌*◌, true, false, [], length, set, replicate, leb, if◌then◌else◌}
use so.Prelude.Int.{ℤ, pos, negsuc, minus_one}
use so.Prelude.Run.{ok, pure, out_of_bounds, ◌>>=◌, ◌>>◌, always_assert}
use so.Fs.Types.{Params, free, taken, Fs, Allocation, FsCmd}
use so.Fs.Access.{get, put, data_blocks, block_size, valid_block_number, index, scan_free}

-- The tables that a successful `state_init` leaves.
abbrev pub fresh_tables : Params → Allocation → Fs → Fs
fresh_tables params mem s = record s {
  fs_params = params;
  ready = true;
  inode_table = mem.inodes;
  freeinode_ts = replicate params.max_inode_count free;
  fs_data = mem.bytes;
  free_blocks = replicate params.max_block_count free;
  open_file_table = mem.entries;
  free_open_file_entries = replicate params.max_open_files_count free;
}

-- Where one `malloc` fails, the arrays are NULL or hold nothing yet.
abbrev pub failed_tables : Params → Allocation → Fs → Fs
failed_tables params mem s = record s {
  fs_params = params;
  ready = mem.has_inode_table;
  inode_table = [];
  freeinode_ts = [];
  fs_data = [];
  free_blocks = [];
  open_file_table = [];
  free_open_file_entries = [];
}

-- `fs_params` is assigned before the test for an earlier initialisation.
unfoldable pub state_init : Params → Allocation → FsCmd ℤ
state_init params mem s =
    if s.ready
    then ok minus_one (record s { fs_params = params })
    else if mem.succeeds
    then ok (pos 0) (fresh_tables params mem s)
    else ok minus_one (failed_tables params mem s)

unfoldable pub state_destroy : FsCmd ℤ
state_destroy s = ok (pos 0) (record s {
  ready = false;
  inode_table = [];
  freeinode_ts = [];
  fs_data = [];
  free_blocks = [];
  open_file_table = [];
  free_open_file_entries = [];
})

unfoldable pub state_block_size : FsCmd ℕ
state_block_size s = ok (block_size s) s

abbrev pub take_block : ℤ → FsCmd ℤ
take_block (pos i) s = ok (pos i) (record s { free_blocks = set s.free_blocks i taken })
take_block (negsuc i) s = ok minus_one s

unfoldable pub data_block_alloc : FsCmd ℤ
data_block_alloc = do s ← get; r ← scan_free s.free_blocks (data_blocks s) 0; take_block r

unfoldable pub data_block_free : ℤ → FsCmd (Unit {0})
data_block_free n = do
  s ← get
  always_assert (valid_block_number s n)
  put (record s { free_blocks = set s.free_blocks (index n) free })

-- The block lies in `fs_data`, or what the callers do with the pointer is out of bounds.
unfoldable pub data_block_get : ℤ → FsCmd ℕ
data_block_get n = do
  s ← get
  always_assert (valid_block_number s n)
  if leb (index n * block_size s + block_size s) (length s.fs_data)
      then pure (index n * block_size s)
      else out_of_bounds
