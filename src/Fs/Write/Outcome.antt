-- ===== src/Fs/Write/Outcome.antt =====
-- The result of `tfs_write` on an open handle, on each branch: nothing to write, no free block, and
-- a copy into the old or into a new block.
use so.Prelude.{
  ℕ, ◌+◌, ◌-◌, ◌^◌, ◌≤◌, ◌<◌, ◌≡◌, refl, ap, ◌∙◌, true, false, some, List, length, get_elem?, set,
  min, arith, lt→ltb, ◌==◌, set-set, length-set, get_elem?-set_self, lt_of_get_elem?,
}
use so.Prelude.Int.{ℤ, pos, minus_one, to_ssize}
use so.Prelude.Run.{ok}
use so.Fs.Types.{Inode, OpenFileEntry, Fs, AllocationState, taken}
use so.Fs.Access.{at-ok, block_size, data_blocks, inode_table_size}
use so.Fs.Blocks.{state_block_size, data_block_alloc}
use so.Fs.BlockLaws.{with_block}
use so.Fs.Handles.{with_lock, with_lock_same, lock-ok, get_open_file_entry-open}
use so.Fs.Inodes.{inode_get}
use so.Fs.Operations.{clip_write, unlock_mutex, write_block, write_entry, tfs_write}
use so.Fs.Valid.{Shape, IsOpen}
use so.Fs.Write.{copied, grown, set_inode-ok, write_bytes-ok}

pub inode_get-ok :
    (s : Fs) (number : ℤ) (k : ℕ)
    → number ≡ pos k
    → k < inode_table_size s
    → inode_get number s ≡ ok k s
unfolding inode_get
inode_get-ok s number k e h = rw (e, lt→ltb k (inode_table_size s) h)

-- As many bytes as there are, or as still fit into the block.
pub clip_write_lem :
    (size offset len : ℕ)
    → offset ≤ size
    → size < 2 ^ 62
    → len < 2 ^ 63
    → clip_write size offset len ≡ min len (size - offset)
clip_write_lem size offset len h k l = ground arith

pub to_ssize_lem : (n : ℕ) → n < 2 ^ 63 → to_ssize n ≡ pos n
to_ssize_lem n h = rw (lt→ltb n (2 ^ 63) h)

-- The state behind a write of `m` bytes to block `b`, with these allocation states.
abbrev pub written : Fs → ℕ → OpenFileEntry → ℕ → Inode → ℕ → ℕ → List ℕ → List AllocationState → Fs
written s file e k n b m buffer blocks = record (copied s file e k n b m buffer) {
  free_blocks = blocks;
  locked = false;
}

module _ (s : Fs) (file k len : ℕ) (e : OpenFileEntry) (n : Inode) (buffer : List ℕ)
    (shape : Shape s) (unlocked : s.locked ≡ false) (opened : IsOpen s file e)
    (number : e.of_inumber ≡ pos k) (inode : get_elem? s.inode_table k ≡ some n)
    (in_block : e.of_offset ≤ block_size s) (small : len < 2 ^ 63)
    (bytes : len ≤ length buffer) where
  abbrev room : ℕ
  room = min len (block_size s - e.of_offset)

  abbrev locked_s : Fs
  locked_s = with_lock true s

  clipped : clip_write (block_size s) e.of_offset len ≡ room
  clipped = clip_write_lem (block_size s) e.of_offset len in_block shape.small_blocks small

  inumber : inode_get e.of_inumber locked_s ≡ ok k locked_s
  inumber =
      inode_get-ok locked_s e.of_inumber k number
        (omega (arith, lt_of_get_elem? s.inode_table k inode, shape.inodes))

  pub tfs_write-none : room ≡ 0 → tfs_write (pos file) buffer len s ≡ ok (pos 0) s
  unfolding tfs_write write_entry state_block_size unlock_mutex
  tfs_write-none none =
      rw
        (
          lock-ok s unlocked,
          get_open_file_entry-open locked_s file shape opened.0,
          at-ok s.open_file_table file locked_s opened.1,
          inumber,
          at-ok s.inode_table k locked_s inode,
          clipped,
          none,
        )
        (ap (ok (pos 0)) (with_lock_same s unlocked))

  pub tfs_write-old :
      (b : ℕ)
      → 0 < room
      → 0 < n.i_size
      → n.i_data_block ≡ pos b
      → b < data_blocks s
      → tfs_write (pos file) buffer len s
        ≡ ok (pos room) (written s file e k n b room buffer s.free_blocks)
  unfolding tfs_write write_entry write_block state_block_size unlock_mutex
  tfs_write-old b some_room sized block inside =
      let fresh : (n.i_size == 0) ≡ false = ground arith in
      rw (
        lock-ok s unlocked,
        get_open_file_entry-open locked_s file shape opened.0,
        at-ok s.open_file_table file locked_s opened.1,
        inumber,
        at-ok s.inode_table k locked_s inode,
        clipped,
        lt→ltb 0 room some_room,
        fresh,
        write_bytes-ok locked_s file k b room e n buffer shape opened.1 inode block inside
            (omega arith) (omega arith),
        to_ssize_lem room (omega arith),
      )

  pub tfs_write-full :
      0 < room
      → n.i_size ≡ 0
      → data_block_alloc locked_s ≡ ok minus_one locked_s
      → tfs_write (pos file) buffer len s ≡ ok minus_one s
  unfolding tfs_write write_entry write_block state_block_size unlock_mutex
  tfs_write-full some_room empty full =
      let fresh : (n.i_size == 0) ≡ true = ground arith in
      rw
        (
          lock-ok s unlocked,
          get_open_file_entry-open locked_s file shape opened.0,
          at-ok s.open_file_table file locked_s opened.1,
          inumber,
          at-ok s.inode_table k locked_s inode,
          clipped,
          lt→ltb 0 room some_room,
          fresh,
          full,
        )
        (ap (ok minus_one) (with_lock_same s unlocked))

  -- The state in which an empty file has got block `b`.
  given : ℕ → Fs
  given b = record locked_s {
    free_blocks = set s.free_blocks b taken;
    inode_table = set s.inode_table k (record n { i_data_block = pos b });
  }

  given-Shape : (b : ℕ) → Shape (given b)
  unfolding given
  given-Shape b = record {
    inodes = length-set s.inode_table k (record n { i_data_block = pos b }) ∙ shape.inodes;
    inode_states = shape.inode_states;
    bytes = shape.bytes;
    block_states = length-set s.free_blocks b taken ∙ shape.block_states;
    files = shape.files;
    file_states = shape.file_states;
    some_bytes = shape.some_bytes;
    small_blocks = shape.small_blocks;
    few_inodes = shape.few_inodes;
  }

  pub tfs_write-new :
      (b : ℕ)
      → 0 < room
      → n.i_size ≡ 0
      → data_block_alloc locked_s ≡ ok (pos b) (with_block b locked_s)
      → b < data_blocks s
      → tfs_write (pos file) buffer len s
        ≡ ok (pos room) (written s file e k n b room buffer (set s.free_blocks b taken))
  unfolding tfs_write write_entry write_block state_block_size unlock_mutex given
  tfs_write-new b some_room empty allocated inside =
      let fresh : (n.i_size == 0) ≡ true = ground arith in
      rw
        (
          lock-ok s unlocked,
          get_open_file_entry-open locked_s file shape opened.0,
          at-ok s.open_file_table file locked_s opened.1,
          inumber,
          at-ok s.inode_table k locked_s inode,
          clipped,
          lt→ltb 0 room some_room,
          fresh,
          allocated,
          set_inode-ok k (record n { i_data_block = pos b }) (with_block b locked_s) inode,
          write_bytes-ok (given b) file k b room e (record n { i_data_block = pos b }) buffer
              (given-Shape b) opened.1
              (get_elem?-set_self s.inode_table k (record n { i_data_block = pos b })
                (lt_of_get_elem? s.inode_table k inode))
              refl inside (omega arith) (omega arith),
          to_ssize_lem room (omega arith),
        )
        (ap
          (λ t.
            ok (pos room) (record (written s file e k n b room buffer (set s.free_blocks b taken)) {
              inode_table = t;
            }))
          (set-set s.inode_table k (record n { i_data_block = pos b })
            (grown n b (e.of_offset + room))))
