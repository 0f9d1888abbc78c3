-- ===== src/Fs/Types.antt =====
-- fs/state.h, fs/config.h and fs/operations.h: the data of TécnicoFS, and the global variables of
-- fs/state.c and fs/operations.c as one record. `size_t` is ℕ, `int` is ℤ, and an array is a list.
use so.Prelude.{ℕ, Bool, List}
use so.Prelude.Int.{ℤ}
use so.Prelude.Run.{Cmd}

abbrev pub root_dir_inum : ℕ
root_dir_inum = 0

abbrev pub max_file_name : ℕ
max_file_name = 40

-- `sizeof(dir_entry_t)`: `char d_name[40]`, then a four-byte `int d_inumber`.
abbrev pub sizeof_dir_entry : ℕ
sizeof_dir_entry = 44

-- `tfs_params`
pub record Params : Type 0 where
  pub max_inode_count : ℕ
  pub max_block_count : ℕ
  pub max_open_files_count : ℕ
  pub block_size : ℕ

-- `inode_type`
pub data InodeType : Type 0 where
  t_file t_directory : InodeType

-- `inode_t`
pub record Inode : Type 0 where
  pub i_node_type : InodeType
  pub i_size : ℕ
  pub i_data_block : ℤ

-- `allocation_state_t`
pub data AllocationState : Type 0 where
  free taken : AllocationState

-- `open_file_entry_t`
pub record OpenFileEntry : Type 0 where
  pub of_inumber : ℤ
  pub of_offset : ℕ

-- The static variables. `ready` says that `inode_table` is not NULL, and `locked` that
-- `g_library_mutex` is held.
pub record Fs : Type 0 where
  pub fs_params : Params
  pub ready : Bool
  pub inode_table : List Inode
  pub freeinode_ts : List AllocationState
  pub fs_data : List ℕ
  pub free_blocks : List AllocationState
  pub open_file_table : List OpenFileEntry
  pub free_open_file_entries : List AllocationState
  pub locked : Bool

-- `tfs_file_mode_t`: the three flags of a mode.
pub record FileMode : Type 0 where
  pub o_creat : Bool
  pub o_trunc : Bool
  pub o_append : Bool

-- What `malloc` hands to `state_init`: whether all six calls succeed, whether the one for
-- `inode_table` does, and what happens to lie in the new arrays.
pub record Allocation : Type 0 where
  pub has_inode_table : Bool
  pub succeeds : Bool
  pub inodes : List Inode
  pub bytes : List ℕ
  pub entries : List OpenFileEntry

abbrev pub FsCmd : Type 0 → Type 0
FsCmd = Cmd Fs
