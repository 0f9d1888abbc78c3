-- ===== src/Fs/Read.antt =====
-- About `tfs_read` of fs/operations.c, on valid states and on a handle past the end of its file.
use so.Prelude.{
  ℕ, ◌+◌, ◌-◌, ◌*◌, ◌^◌, ◌≤◌, ◌<◌, ◌≡◌, ◌≢◌, sym, ap, ◌∙◌, ◌⊎◌, inl, inr, some, List, [], length,
  get_elem?, get_elem?-set_cases, set, take, drop, min, arith, length-set, lt_of_get_elem?,
  set_same, true, false, lt→ltb, le→leb,
}
use native.Mathlib.Decide.{dec_lt}
use so.Prelude.Int.{pos, minus_one}
use so.Prelude.Run.{ok, exited}
use so.Prelude.Bytes.{slice, slice-slice}
use so.Fs.Types.{Inode, OpenFileEntry, Fs}
use so.Fs.Access.{index, at-ok, block_size, data_blocks}
use so.Fs.Blocks.{data_block_get}
use so.Fs.BlockLaws.{data_block_get-ok, Block-inside}
use so.Fs.Handles.{with_lock, with_lock_same, lock-ok, get_open_file_entry-open}
use so.Fs.Inodes.{inode_get}
use so.Fs.Operations.{clip_read, add_size, unlock_mutex, copy_out, read_entry, tfs_read}
use so.Fs.Valid.{Shape, Holds, IsOpen, IsHandle, IsOpen-Holds, IsValid, file_bytes}
use so.Fs.Write.{moved, set_offset-ok}
use so.Fs.Write.Outcome.{inode_get-ok, to_ssize_lem}

-- The bytes that are left, or as many as asked for.
pub clip_read_lem :
    (size offset len : ℕ)
    → offset ≤ size
    → size < 2 ^ 62
    → clip_read size offset len ≡ min len (size - offset)
clip_read_lem size offset len h k = ground arith

-- Past the end the difference wraps, and the length asked for is what is read.
pub clip_read-past :
    (size offset len : ℕ)
    → size < offset
    → offset < 2 ^ 62
    → len < 2 ^ 63
    → clip_read size offset len ≡ len
clip_read-past size offset len h k l = ground arith

copy_out-ok :
    (address n : ℕ) (s : Fs)
    → address + n ≤ length s.fs_data
    → copy_out address n s ≡ ok (slice address n s.fs_data) s
unfolding copy_out
copy_out-ok address n s h = rw (le→leb (address + n) (length s.fs_data) h)

-- The state behind a read of `m` bytes.
abbrev pub advanced : Fs → ℕ → OpenFileEntry → ℕ → Fs
advanced s file e m = record s { open_file_table = set s.open_file_table file (moved e m) }

module _ (s : Fs) (file k len : ℕ) (e : OpenFileEntry) (n : Inode) (shape : Shape s)
    (unlocked : s.locked ≡ false) (opened : IsOpen s file e) (number : e.of_inumber ≡ pos k)
    (inode : get_elem? s.inode_table k ≡ some n) where
  abbrev locked_s : Fs
  locked_s = with_lock true s

  inumber : inode_get e.of_inumber locked_s ≡ ok k locked_s
  inumber =
      inode_get-ok locked_s e.of_inumber k number
        (omega (arith, lt_of_get_elem? s.inode_table k inode, shape.inodes))

  unlocked_after : (m : ℕ) → with_lock false (advanced s file e m) ≡ advanced s file e m
  unlocked_after m = with_lock_same (advanced s file e m) unlocked

  -- The read of `m` bytes, where `m` is what the code computes.
  read_some :
      (m b : ℕ)
      → clip_read n.i_size e.of_offset len ≡ m
      → 0 < m
      → m < 2 ^ 63
      → e.of_offset < 2 ^ 63
      → n.i_data_block ≡ pos b
      → b < data_blocks s
      → b * block_size s + e.of_offset + m ≤ length s.fs_data
      → tfs_read (pos file) len s
        ≡ ok (pos m, slice (b * block_size s + e.of_offset) m s.fs_data) (advanced s file e m)
  unfolding tfs_read read_entry unlock_mutex
  read_some m b clip some_bytes small small_offset block inside bounds =
      let got : data_block_get n.i_data_block locked_s ≡ ok (b * block_size s) locked_s =
        ap (λ z. data_block_get z locked_s) block ∙ data_block_get-ok locked_s b shape inside in
      let sum : add_size e.of_offset m ≡ e.of_offset + m = omega arith in
      rw
        (
          lock-ok s unlocked,
          get_open_file_entry-open locked_s file shape opened.0,
          at-ok s.open_file_table file locked_s opened.1,
          inumber,
          at-ok s.inode_table k locked_s inode,
          clip,
          lt→ltb 0 m some_bytes,
          got,
          copy_out-ok (b * block_size s + e.of_offset) m locked_s bounds,
          sum,
          set_offset-ok file (e.of_offset + m) locked_s opened.1,
          to_ssize_lem m small,
        )
        (ap (ok (pos m, slice (b * block_size s + e.of_offset) m s.fs_data)) (unlocked_after m))

  read_none : clip_read n.i_size e.of_offset len ≡ 0 → tfs_read (pos file) len s ≡ ok (pos 0, []) s
  unfolding tfs_read read_entry unlock_mutex
  read_none clip =
      rw
        (
          lock-ok s unlocked,
          get_open_file_entry-open locked_s file shape opened.0,
          at-ok s.open_file_table file locked_s opened.1,
          inumber,
          at-ok s.inode_table k locked_s inode,
          clip,
        )
        (ap (ok (pos 0, [])) (with_lock_same s unlocked))

  -- Let the arrays have their sizes, the mutex be free, and the offset of an open handle be past
  -- the end of its file but not past its block's, with `len` positive, below 2^63, and within
  -- `fs_data` from the offset on. Then `tfs_read` returns `len` and the `len` bytes of `fs_data` at
  -- the offset, which lie behind the end of the file, and moves the offset.
  pub tfs_read-past_end :
      (b : ℕ)
      → n.i_size < e.of_offset
      → e.of_offset ≤ block_size s
      → 0 < len
      → len < 2 ^ 63
      → n.i_data_block ≡ pos b
      → b < data_blocks s
      → b * block_size s + e.of_offset + len ≤ length s.fs_data
      → tfs_read (pos file) len s
        ≡ ok (pos len, slice (b * block_size s + e.of_offset) len s.fs_data) (advanced s file e len)
  tfs_read-past_end b past in_block some_bytes small block inside bounds =
      read_some len b
        (clip_read-past n.i_size e.of_offset len past (omega (arith, shape.small_blocks)) small)
        some_bytes small (omega (arith, shape.small_blocks)) block inside bounds

  -- Let the arrays have their sizes, the mutex be free, and the offset of an open handle be past
  -- the end of a file whose block number is -1 but not past a block's size. Then `tfs_read` of a
  -- positive number of bytes below 2^63 ends the process.
  pub tfs_read-past_end_exits :
      n.i_size < e.of_offset
      → e.of_offset ≤ block_size s
      → 0 < len
      → len < 2 ^ 63
      → n.i_data_block ≡ minus_one
      → tfs_read (pos file) len s ≡ exited
  unfolding tfs_read read_entry data_block_get
  tfs_read-past_end_exits past in_block some_bytes small block = rw (
    lock-ok s unlocked,
    get_open_file_entry-open locked_s file shape opened.0,
    at-ok s.open_file_table file locked_s opened.1,
    inumber,
    at-ok s.inode_table k locked_s inode,
    clip_read-past n.i_size e.of_offset len past (omega (arith, shape.small_blocks)) small,
    lt→ltb 0 len some_bytes,
    block,
  )

module _ (s : Fs) (file k m : ℕ) (e : OpenFileEntry) (n : Inode) (v : IsValid s)
    (opened : IsOpen s file e) (number : e.of_inumber ≡ pos k) (holds : Holds s k n)
    (inside : e.of_offset + m ≤ n.i_size) where
  advanced-handles :
      (h : ℕ) (e' : OpenFileEntry) → IsOpen (advanced s file e m) h e' → IsHandle s e'
  advanced-handles h e' o = go (get_elem?-set_cases s.open_file_table file h (moved e m) o.1)
    where
      go :
          ((file ≡ h) × (moved e m ≡ e')) ⊎ ((file ≢ h) × (get_elem? s.open_file_table h ≡ some e'))
          → IsHandle s e'
      go (inl (p, q)) =
          let offset : e.of_offset + m ≡ e'.of_offset = ap (λ t. t.of_offset) q in
          (
            k,
            n,
            sym (ap (λ t. t.of_inumber) q) ∙ number,
            (IsOpen-Holds s file k e n v opened number holds).0,
            holds,
            omega arith,
          )
      go (inr (p, q)) = v.handles h e' (o.0, q)

  advanced-IsValid : IsValid (advanced s file e m)
  advanced-IsValid = record {
    shape = record {
      inodes = v.shape.inodes;
      inode_states = v.shape.inode_states;
      bytes = v.shape.bytes;
      block_states = v.shape.block_states;
      files = length-set s.open_file_table file (moved e m) ∙ v.shape.files;
      file_states = v.shape.file_states;
      some_bytes = v.shape.some_bytes;
      small_blocks = v.shape.small_blocks;
      few_inodes = v.shape.few_inodes;
    };
    sizes = v.sizes;
    blocks = v.blocks;
    apart = v.apart;
    root = v.root;
    entries = v.entries;
    handles = advanced-handles;
  }

-- How many bytes of the file are left behind the offset, at most `len`.
abbrev pub left : OpenFileEntry → Inode → ℕ → ℕ
left e n len = min len (n.i_size - e.of_offset)

module _ (s : Fs) (file k len : ℕ) (e : OpenFileEntry) (n : Inode) (v : IsValid s)
    (unlocked : s.locked ≡ false) (opened : IsOpen s file e) (number : e.of_inumber ≡ pos k)
    (holds : Holds s k n) where
  facts : (k ≢ 0) × (e.of_offset ≤ n.i_size)
  facts = IsOpen-Holds s file k e n v opened number holds

  abbrev contents : List ℕ
  contents = drop e.of_offset (file_bytes s n)

  clip : clip_read n.i_size e.of_offset len ≡ left e n len
  clip =
      clip_read_lem n.i_size e.of_offset len facts.1
        (omega (arith, v.sizes k n holds, v.shape.small_blocks))

  nothing_left :
      left e n len ≡ 0
      → tfs_read (pos file) len s
        ≡ ok (pos (left e n len), take (left e n len) contents) (advanced s file e (left e n len))
  nothing_left none =
      let still : e.of_offset + left e n len ≡ e.of_offset = omega arith in
      let same =
        set_same s.open_file_table file (moved e (left e n len))
          (opened.1 ∙ ap (λ t. some (record e { of_offset = t })) (sym still)) in
      read_none s file k len e n v.shape unlocked opened number holds.1 (clip ∙ none)
      ∙ ap (λ t. ok (pos t, take t contents) s) (sym none)
      ∙ ap
          (λ t.
            ok (pos (left e n len), take (left e n len) contents)
              (record s { open_file_table = t }))
          (sym same)

  some_left :
      0 < left e n len
      → tfs_read (pos file) len s
        ≡ ok (pos (left e n len), take (left e n len) contents) (advanced s file e (left e n len))
  some_left some_bytes =
      let (b, block, state) = v.blocks k n holds (omega arith) in
      let inside : b < data_blocks s =
        omega (arith, lt_of_get_elem? s.free_blocks b state, v.shape.block_states) in
      let at_block : index n.i_data_block ≡ b = ap index block in
      let size = v.sizes k n holds in
      read_some s file k len e n v.shape unlocked opened number holds.1 (left e n len) b clip
        some_bytes (omega (arith, v.shape.small_blocks))
        (omega (arith, facts.1, v.shape.small_blocks)) block inside
        (omega (arith, Block-inside s b v.shape inside))
      ∙ ap (λ t. ok (pos (left e n len), t) (advanced s file e (left e n len)))
          (sym (
            slice-slice e.of_offset (left e n len) (index n.i_data_block * block_size s) n.i_size
              s.fs_data (omega arith)
            ∙ ap (λ t. slice (t * block_size s + e.of_offset) (left e n len) s.fs_data) at_block))

  -- On a valid state with the mutex free, `tfs_read` on an open handle returns the file's bytes
  -- from the offset on, at most `len` of them and only as many as are left, and their number; the
  -- offset moves behind them, nothing else changes, and the state is valid.
  pub tfs_read_lem :
      (tfs_read (pos file) len s
        ≡ ok
            (pos (left e n len), take (left e n len) (drop e.of_offset (file_bytes s n)))
            (advanced s file e (left e n len)))
      × IsValid (advanced s file e (left e n len))
  tfs_read_lem = (
    elim (dec_lt 0 (left e n len)) [
      | yes some_bytes ↦ some_left some_bytes
      | no none ↦ nothing_left (omega arith)
    ],
    advanced-IsValid s file k (left e n len) e n v opened number holds (omega (arith, facts.1)),
  )
