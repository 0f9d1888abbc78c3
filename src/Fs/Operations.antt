-- ===== src/Fs/Operations.antt =====
-- fs/operations.c. Each call runs under `g_library_mutex`: `lock_mutex` waits for ever where the
-- caller already holds it, and what comes between a lock and its unlock is one step for other
-- threads. The tests for a failing lock or unlock compare with -1, which the pthread calls never
-- return (they return an error number), so those branches are not taken and are left out.
use so.Prelude.{
  ℕ, ◌+◌, ◌-◌, ◌%◌, ◌^◌, Bool, true, false, not, ◌&&◌, Option, none, some, List, [], ◌∷◌, length,
  get_elem?, set, take, ltb, leb, ◌==◌, if◌then◌else◌,
}
use so.Prelude.Int.{ℤ, pos, negsuc, minus_one, eq_int, to_ssize}
use so.Prelude.Run.{ok, blocked, pure, out_of_bounds, ◌>>=◌, ◌>>◌}
use so.Prelude.Bytes.{slice, splice}
use so.Fs.Types.{Params, t_file, t_directory, Inode, FileMode, Allocation, FsCmd, root_dir_inum}
use so.Fs.Access.{at, get, put}
use so.Fs.Blocks.{
  state_init, state_destroy, state_block_size, data_block_alloc, data_block_free, data_block_get,
}
use so.Fs.Directory.{find_in_dir, add_dir_entry, clear_dir_entry}
use so.Fs.Inodes.{inode_create, inode_delete, inode_get, set_inode}
use so.Fs.OpenFiles.{add_to_open_file_table, remove_from_open_file_table, get_open_file_entry}

-- A `size_t` sum or difference.
abbrev pub add_size : ℕ → ℕ → ℕ
add_size a b = (a + b) % 2 ^ 64

abbrev pub sub_size : ℕ → ℕ → ℕ
sub_size a b = (a + 2 ^ 64 - b) % 2 ^ 64

-- A `char const *`: none for NULL, else its bytes before the terminator.
abbrev pub CString : Type 0
CString = Option (List ℕ)

abbrev pub default_params : Params
default_params = record {
  max_inode_count = 64;
  max_block_count = 1024;
  max_open_files_count = 16;
  block_size = 1024;
}

abbrev pub params_of : Option Params → Params
params_of none = default_params
params_of (some params) = params

unfoldable pub tfs_init : Option Params → Allocation → FsCmd ℤ
tfs_init params mem = do
  r ← state_init (params_of params) mem
  if not (eq_int r (pos 0)) then pure minus_one else (do
    root ← inode_create t_directory
    if eq_int root (pos root_dir_inum) then pure (pos 0) else pure minus_one)

unfoldable pub tfs_destroy : FsCmd ℤ
tfs_destroy = do r ← state_destroy; if eq_int r (pos 0) then pure (pos 0) else pure minus_one

-- `strlen(name) > 1 && name[0] == '/'`
abbrev pub valid_pathname : CString → Bool
valid_pathname none = false
valid_pathname (some []) = false
valid_pathname (some (c ∷ name)) = ltb 1 (length (c ∷ name)) && (c == b'/')

-- `name + 1`
abbrev pub after_slash : CString → List ℕ
after_slash none = []
after_slash (some []) = []
after_slash (some (c ∷ name)) = name

unfoldable pub tfs_lookup : CString → ℕ → FsCmd ℤ
tfs_lookup name root_inode =
    if not (valid_pathname name) then pure minus_one else find_in_dir root_inode (after_slash name)

unfoldable pub lock_mutex : FsCmd (Unit {0})
lock_mutex s = if s.locked then blocked else ok tt (record s { locked = true })

unfoldable pub unlock_mutex : FsCmd (Unit {0})
unlock_mutex s = ok tt (record s { locked = false })

abbrev pub return_unlocked : {A : Type 0} → A → FsCmd A
return_unlocked a = do unlock_mutex; pure a

-- `tfs_open` on a file that exists: truncate it if asked to, and find the first offset.
unfoldable pub open_existing : FileMode → ℕ → FsCmd ℕ
open_existing mode k = do
  s ← get
  inode ← at s.inode_table k
  if mode.o_trunc && ltb 0 inode.i_size
      then (do data_block_free inode.i_data_block; set_inode k (record inode { i_size = 0 }))
      else pure tt
  s' ← get
  now ← at s'.inode_table k
  pure (if mode.o_append then now.i_size else 0)

-- The end of `tfs_open`, with the inode number and offset found.
unfoldable pub open_finish : ℤ → ℕ → FsCmd ℤ
open_finish inum offset = do ret ← add_to_open_file_table inum offset; return_unlocked ret

-- `tfs_open` on a file to be created.
unfoldable pub open_create : ℕ → List ℕ → FsCmd ℤ
open_create root_inode sub_name = do
  inum ← inode_create t_file
  if eq_int inum minus_one then return_unlocked minus_one else (do
    r ← add_dir_entry root_inode sub_name inum
    if eq_int r minus_one
        then (do inode_delete inum; return_unlocked minus_one)
        else open_finish inum 0)

unfoldable pub open_inode : CString → FileMode → ℕ → ℤ → FsCmd ℤ
open_inode name mode root_inode (pos n) = do
  k ← inode_get (pos n)
  offset ← open_existing mode k
  open_finish (pos n) offset
open_inode name mode root_inode (negsuc n) =
    if mode.o_creat then open_create root_inode (after_slash name) else return_unlocked minus_one

unfoldable pub tfs_open : CString → FileMode → FsCmd ℤ
tfs_open name mode = do
  lock_mutex
  if not (valid_pathname name) then return_unlocked minus_one else (do
    root_dir_inode ← inode_get (pos root_dir_inum)
    inum ← tfs_lookup name root_dir_inode
    open_inode name mode root_dir_inode inum)

unfoldable pub close_entry : ℤ → Option ℕ → FsCmd ℤ
close_entry fhandle none = return_unlocked minus_one
close_entry fhandle (some file) = do remove_from_open_file_table fhandle; return_unlocked (pos 0)

unfoldable pub tfs_close : ℤ → FsCmd ℤ
tfs_close fhandle = do lock_mutex; file ← get_open_file_entry fhandle; close_entry fhandle file

unfoldable pub set_offset : ℕ → ℕ → FsCmd (Unit {0})
set_offset file offset s = elim (get_elem? s.open_file_table file) [
  | none ↦ out_of_bounds s
  | some e ↦
      put
        (record s {
          open_file_table = set s.open_file_table file (record e { of_offset = offset });
        })
        s
]

-- `memcpy` of the first `n` bytes of `buffer` to an address of `fs_data`.
unfoldable pub copy_in : ℕ → List ℕ → ℕ → FsCmd (Unit {0})
copy_in address buffer n s =
    if leb (address + n) (length s.fs_data) && leb n (length buffer)
    then ok tt (record s { fs_data = splice address (take n buffer) s.fs_data })
    else out_of_bounds s

-- `memcpy` of `n` bytes at an address of `fs_data`.
unfoldable pub copy_out : ℕ → ℕ → FsCmd (List ℕ)
copy_out address n s =
    if leb (address + n) (length s.fs_data)
    then ok (slice address n s.fs_data) s
    else out_of_bounds s

-- The block of an inode, allocated first for an empty file; `false` where no block is free.
unfoldable pub write_block : ℕ → Inode → FsCmd Bool
write_block k inode =
    if inode.i_size == 0
    then (do
      bnum ← data_block_alloc
      if eq_int bnum minus_one
          then pure false
          else (do set_inode k (record inode { i_data_block = bnum }); pure true))
    else pure true

-- `tfs_write` with a block at hand.
unfoldable pub write_bytes : ℕ → ℕ → ℕ → List ℕ → ℕ → FsCmd (Unit {0})
write_bytes file k offset buffer to_write = do
  s ← get
  inode ← at s.inode_table k
  block ← data_block_get inode.i_data_block
  copy_in (block + offset) buffer to_write
  set_offset file (add_size offset to_write)
  if ltb inode.i_size (add_size offset to_write)
      then set_inode k (record inode { i_size = add_size offset to_write })
      else pure tt

-- How many bytes `tfs_write` writes.
abbrev pub clip_write : ℕ → ℕ → ℕ → ℕ
clip_write size offset to_write =
    if ltb size (add_size to_write offset) then sub_size size offset else to_write

unfoldable pub write_entry : List ℕ → ℕ → Option ℕ → FsCmd ℤ
write_entry buffer len none = return_unlocked minus_one
write_entry buffer len (some file) = do
  s ← get
  entry ← at s.open_file_table file
  k ← inode_get entry.of_inumber
  size ← state_block_size
  inode ← at s.inode_table k
  let to_write = clip_write size entry.of_offset len
  if ltb 0 to_write
      then (do
        found ← write_block k inode
        if found
            then (do
              write_bytes file k entry.of_offset buffer to_write
              return_unlocked (to_ssize to_write))
            else return_unlocked minus_one)
      else return_unlocked (to_ssize to_write)

unfoldable pub tfs_write : ℤ → List ℕ → ℕ → FsCmd ℤ
tfs_write fhandle buffer len = do
  lock_mutex
  file ← get_open_file_entry fhandle
  write_entry buffer len file

-- How many bytes `tfs_read` reads.
abbrev pub clip_read : ℕ → ℕ → ℕ → ℕ
clip_read size offset len = if ltb len (sub_size size offset) then len else sub_size size offset

-- The result is the count, and the bytes that the buffer receives.
unfoldable pub read_entry : ℕ → Option ℕ → FsCmd (ℤ × List ℕ)
read_entry len none = return_unlocked (minus_one, [])
read_entry len (some file) = do
  s ← get
  entry ← at s.open_file_table file
  k ← inode_get entry.of_inumber
  inode ← at s.inode_table k
  let to_read = clip_read inode.i_size entry.of_offset len
  if ltb 0 to_read
      then (do
        block ← data_block_get inode.i_data_block
        bytes ← copy_out (block + entry.of_offset) to_read
        set_offset file (add_size entry.of_offset to_read)
        return_unlocked (to_ssize to_read, bytes))
      else return_unlocked (to_ssize to_read, [])

unfoldable pub tfs_read : ℤ → ℕ → FsCmd (ℤ × List ℕ)
tfs_read fhandle len = do lock_mutex; file ← get_open_file_entry fhandle; read_entry len file

unfoldable pub unlink_inode : CString → ℕ → ℤ → FsCmd ℤ
unlink_inode target root_inode inum =
    if eq_int inum minus_one then return_unlocked minus_one else (do
      inode_delete inum
      r ← clear_dir_entry root_inode (after_slash target)
      if eq_int r minus_one then return_unlocked minus_one else return_unlocked (pos 0))

unfoldable pub tfs_unlink : CString → FsCmd ℤ
tfs_unlink target = do
  lock_mutex
  if not (valid_pathname target) then return_unlocked minus_one else (do
    root_dir_inode ← inode_get (pos root_dir_inum)
    inum ← tfs_lookup target root_dir_inode
    unlink_inode target root_dir_inode inum)
