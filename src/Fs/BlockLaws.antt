-- ===== src/Fs/BlockLaws.antt =====
-- Data blocks: where they lie, and what `data_block_alloc`, `data_block_free` and `data_block_get`
-- do on each branch.
use so.Prelude.{ℕ, ◌+◌, ◌*◌, ◌≤◌, ◌<◌, ◌≡◌, ◌⊎◌, inl, inr, length, set, arith, lt→ltb, le→leb}
use so.Prelude.Int.{pos, minus_one}
use so.Prelude.Run.{ok}
use so.Fs.Types.{free, taken, Fs}
use so.Fs.Access.{data_blocks, block_size}
use so.Fs.Blocks.{data_block_alloc, data_block_free, data_block_get}
use so.Fs.Scan.{AllTaken, FirstFree, scan_free-Scanned, Scanned}
use so.Fs.Valid.{Shape}

-- Blocks lie one behind the other.
pub block_before : (a b size : ℕ) → a < b → a * size + size ≤ b * size
block_before a b size h = grind arith

pub Block-inside :
    (s : Fs) (b : ℕ)
    → Shape s
    → b < data_blocks s
    → b * block_size s + block_size s ≤ length s.fs_data
Block-inside s b shape h =
    omega (arith, block_before b (data_blocks s) (block_size s) h, shape.bytes)

pub data_block_get-ok :
    (s : Fs) (b : ℕ)
    → Shape s
    → b < data_blocks s
    → data_block_get (pos b) s ≡ ok (b * block_size s) s
unfolding data_block_get
data_block_get-ok s b shape h = rw (
  lt→ltb b (data_blocks s) h,
  le→leb (b * block_size s + block_size s) (length s.fs_data) (Block-inside s b shape h),
)

pub data_block_free-ok :
    (s : Fs) (b : ℕ)
    → b < data_blocks s
    → data_block_free (pos b) s ≡ ok tt (record s { free_blocks = set s.free_blocks b free })
unfolding data_block_free
data_block_free-ok s b h = rw (lt→ltb b (data_blocks s) h)

-- The state with block `b` allocated.
abbrev pub with_block : ℕ → Fs → Fs
with_block b s = record s { free_blocks = set s.free_blocks b taken }

abbrev pub BlockAllocated : Fs → Type 0
BlockAllocated s =
    (AllTaken s.free_blocks 0 (data_blocks s) × (data_block_alloc s ≡ ok minus_one s))
    ⊎ ((b : ℕ) × FirstFree s.free_blocks 0 b
        × (b < data_blocks s)
        × (data_block_alloc s ≡ ok (pos b) (with_block b s)))

-- Where the arrays have their sizes, `data_block_alloc` takes the first FREE block and returns it,
-- or returns -1 and changes nothing where every block is TAKEN.
pub data_block_alloc-cases : (s : Fs) → Shape s → BlockAllocated s
unfolding data_block_alloc
data_block_alloc-cases s shape =
    go (scan_free-Scanned s.free_blocks (data_blocks s) 0 s (omega (arith, shape.block_states)))
  where
    go : Scanned s.free_blocks (data_blocks s) 0 s → BlockAllocated s
    go (inl (all, e)) = inl (all, rw e)
    go (inr (b, first, hi, e)) = inr (b, first, omega arith, rw e)
