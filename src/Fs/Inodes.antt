-- ===== src/Fs/Inodes.antt =====
-- fs/state.c: the inodes.
use so.Prelude.{ℕ, set, ltb, if◌then◌else◌}
use so.Prelude.Int.{ℤ, pos, negsuc, minus_one, eq_int}
use so.Prelude.Run.{ok, pure, ◌>>=◌, ◌>>◌, always_assert}
use so.Fs.Types.{InodeType, t_file, t_directory, Inode, free, taken, FsCmd}
use so.Fs.Access.{
  at, get, put, inode_table_size, block_size, max_dir_entries, valid_inumber, is_taken, index,
  scan_free, set_data,
}
use so.Fs.Blocks.{data_block_alloc, data_block_free, data_block_get}
use so.Fs.Directory.{empty_entries}

abbrev pub take_inode : ℤ → FsCmd ℤ
take_inode (pos i) s = ok (pos i) (record s { freeinode_ts = set s.freeinode_ts i taken })
take_inode (negsuc i) s = ok minus_one s

unfoldable pub inode_alloc : FsCmd ℤ
inode_alloc = do s ← get; r ← scan_free s.freeinode_ts (inode_table_size s) 0; take_inode r

unfoldable pub inode_delete : ℤ → FsCmd (Unit {0})
inode_delete inumber = do
  s ← get
  always_assert (valid_inumber s inumber)
  state ← at s.freeinode_ts (index inumber)
  always_assert (is_taken state)
  inode ← at s.inode_table (index inumber)
  if ltb 0 inode.i_size then data_block_free inode.i_data_block else pure tt
  s' ← get
  put (record s' { freeinode_ts = set s'.freeinode_ts (index inumber) free })

unfoldable pub inode_get : ℤ → FsCmd ℕ
inode_get inumber = do s ← get; always_assert (valid_inumber s inumber); pure (index inumber)

-- `inode_table[k] = inode`, for a field or for all of them.
unfoldable pub set_inode : ℕ → Inode → FsCmd (Unit {0})
set_inode k inode = do
  s ← get
  old ← at s.inode_table k
  put (record s { inode_table = set s.inode_table k inode })

-- `inode_create` behind its `inode_alloc`, for each type.
unfoldable pub init_directory : ℕ → FsCmd ℤ
init_directory k = do
  b ← data_block_alloc
  s ← get
  inode ← at s.inode_table k
  if eq_int b minus_one
      then (do
        set_inode k (record inode { i_size = 0; i_data_block = minus_one })
        inode_delete (pos k)
        pure minus_one)
      else (do
        set_inode k (record inode { i_size = block_size s; i_data_block = b })
        base ← data_block_get b
        set_data (empty_entries base (max_dir_entries s) 0 s.fs_data)
        pure (pos k))

unfoldable pub init_file : ℕ → FsCmd ℤ
init_file k = do
  s ← get
  inode ← at s.inode_table k
  set_inode k (record inode { i_size = 0; i_data_block = minus_one })
  pure (pos k)

abbrev pub init_inode : InodeType → ℕ → FsCmd ℤ
init_inode t_directory k = init_directory k
init_inode t_file k = init_file k

abbrev pub create_at : InodeType → ℤ → FsCmd ℤ
create_at t (negsuc n) = pure minus_one
create_at t (pos k) = do
  s ← get
  inode ← at s.inode_table k
  set_inode k (record inode { i_node_type = t })
  init_inode t k

unfoldable pub inode_create : InodeType → FsCmd ℤ
inode_create t = do inumber ← inode_alloc; create_at t inumber
