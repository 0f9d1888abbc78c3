-- ===== src/Fs/Write.antt =====
-- `tfs_write`: the state that it leaves, branch by branch. What the write means for the files is
-- proved in the children.
pub mod Outcome
pub mod Contents
pub mod Spec
pub mod Keeps
use so.Prelude.{
  ℕ, ◌+◌, ◌-◌, ◌*◌, ◌^◌, ◌%◌, ◌≤◌, ◌<◌, ◌≡◌, refl, sym, ap, ◌∙◌, inl, inr, true, false, some, List,
  length, get_elem?, set, take, max, min, arith, ltb, ltb→lt, lt→ltb, le→leb, Bool-cases, set_same,
  if◌then◌else◌,
}
use so.Prelude.Int.{ℤ, pos}
use so.Prelude.Run.{ok}
use so.Prelude.Bytes.{splice}
use so.Fs.Types.{Inode, OpenFileEntry, Fs, AllocationState}
use so.Fs.Access.{at-ok, block_size, data_blocks}
use so.Fs.Blocks.{data_block_get}
use so.Fs.BlockLaws.{data_block_get-ok, Block-inside}
use so.Fs.Inodes.{set_inode}
use so.Fs.Operations.{add_size, copy_in, set_offset, write_bytes}
use so.Fs.Valid.{Shape}

not_lt : (a b : ℕ) → ltb a b ≡ false → b ≤ a
not_lt a b h = ground arith

abbrev pub moved : OpenFileEntry → ℕ → OpenFileEntry
moved e m = record e { of_offset = e.of_offset + m }

-- The inode behind a write up to offset `x` into block `b`.
abbrev pub grown : Inode → ℕ → ℕ → Inode
grown n b x = record n { i_size = max n.i_size x; i_data_block = pos b }

pub set_inode-ok :
    (k : ℕ) (v : Inode) (s : Fs) {n : Inode}
    → get_elem? s.inode_table k ≡ some n
    → set_inode k v s ≡ ok tt (record s { inode_table = set s.inode_table k v })
unfolding set_inode
set_inode-ok k v s e = rw (at-ok s.inode_table k s e)

pub set_offset-ok :
    (file x : ℕ) (s : Fs) {e : OpenFileEntry}
    → get_elem? s.open_file_table file ≡ some e
    → set_offset file x s
      ≡ ok tt
          (record s { open_file_table = set s.open_file_table file (record e { of_offset = x }) })
unfolding set_offset
set_offset-ok file x s e = rw (e, set_offset)

copy_in-ok :
    (address n : ℕ) (buffer : List ℕ) (s : Fs)
    → address + n ≤ length s.fs_data
    → n ≤ length buffer
    → copy_in address buffer n s
      ≡ ok tt (record s { fs_data = splice address (take n buffer) s.fs_data })
unfolding copy_in
copy_in-ok address n buffer s h k =
    rw (le→leb (address + n) (length s.fs_data) h, le→leb n (length buffer) k)

-- The state behind the copy of `m` bytes to block `b` for an entry of inode `k`.
abbrev pub copied : Fs → ℕ → OpenFileEntry → ℕ → Inode → ℕ → ℕ → List ℕ → Fs
copied s file e k n b m buffer = record s {
  inode_table = set s.inode_table k (grown n b (e.of_offset + m));
  fs_data = splice (b * block_size s + e.of_offset) (take m buffer) s.fs_data;
  open_file_table = set s.open_file_table file (moved e m);
}

module _ (s : Fs) (file k b m : ℕ) (e : OpenFileEntry) (n : Inode) (buffer : List ℕ)
    (shape : Shape s) (open_entry : get_elem? s.open_file_table file ≡ some e)
    (inode : get_elem? s.inode_table k ≡ some n) (block : n.i_data_block ≡ pos b)
    (in_blocks : b < data_blocks s) (fits : e.of_offset + m ≤ block_size s)
    (bytes : m ≤ length buffer) where
  no_wrap : add_size e.of_offset m ≡ e.of_offset + m
  no_wrap = omega (arith, shape.small_blocks)

  get_block : data_block_get n.i_data_block s ≡ ok (b * block_size s) s
  get_block = ap (λ z. data_block_get z s) block ∙ data_block_get-ok s b shape in_blocks

  copy :
      copy_in (b * block_size s + e.of_offset) buffer m s
      ≡ ok tt
          (record s { fs_data = splice (b * block_size s + e.of_offset) (take m buffer) s.fs_data })
  copy =
      copy_in-ok (b * block_size s + e.of_offset) m buffer s
        (omega (arith, Block-inside s b shape in_blocks)) bytes

  -- The inode as the code leaves it, where the file grows and where it does not.
  grown_if :
      n.i_size < e.of_offset + m
      → record n { i_size = e.of_offset + m } ≡ grown n b (e.of_offset + m)
  grown_if h =
      let larger : e.of_offset + m ≡ max n.i_size (e.of_offset + m) = omega arith in
      λ i. record n { i_size = larger i; i_data_block = block i }

  grown_same : e.of_offset + m ≤ n.i_size → grown n b (e.of_offset + m) ≡ n
  grown_same h =
      let same : max n.i_size (e.of_offset + m) ≡ n.i_size = omega arith in
      λ i. record n { i_size = same i; i_data_block = sym block i }

  table_same :
      e.of_offset + m ≤ n.i_size → s.inode_table ≡ set s.inode_table k (grown n b (e.of_offset + m))
  table_same h = sym (ap (set s.inode_table k) (grown_same h) ∙ set_same s.inode_table k n inode)

  mid : Fs
  mid = record s {
    fs_data = splice (b * block_size s + e.of_offset) (take m buffer) s.fs_data;
    open_file_table = set s.open_file_table file (moved e m);
  }

  pub write_bytes-ok :
      write_bytes file k e.of_offset buffer m s ≡ ok tt (copied s file e k n b m buffer)
  unfolding write_bytes mid
  write_bytes-ok =
      rw
        (
          at-ok s.inode_table k s inode,
          get_block,
          copy,
          no_wrap,
          set_offset-ok file (e.of_offset + m)
              (record s {
                fs_data = splice (b * block_size s + e.of_offset) (take m buffer) s.fs_data;
              })
              open_entry,
        )
        (elim (Bool-cases (ltb n.i_size (e.of_offset + m))) [
          | inl grows ↦ rw (
            grows,
            set_inode-ok k (record n { i_size = e.of_offset + m }) mid inode,
            grown_if (ltb→lt n.i_size (e.of_offset + m) grows),
          )
          | inr fits_in ↦ rw fits_in (
              ap (λ t. ok tt (record mid { inode_table = t }))
                (table_same (not_lt n.i_size (e.of_offset + m) fits_in)))
        ])
