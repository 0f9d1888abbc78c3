-- ===== src/Fs/Directory/Slices.antt =====
-- What the entries of a directory are is decided by the bytes of its block.
use so.Prelude.{ℕ, ◌+◌, ◌*◌, ◌/◌, ◌≤◌, ◌≡◌, sym, ap, ◌∙◌, List, arith}
use so.Prelude.Int.{of_word}
use so.Prelude.Bytes.{slice, slice-slice}
use so.Fs.Directory.{entry_at, entry_inumber, entry_name, find_loop, word_of}
use so.Fs.Directory.Grow.{IsTidy-cong}
use so.Fs.Directory.Names.{find_loop-cong}
use so.Fs.Directory.Tidy.{IsTidy}

entry_inumber-slice :
    (mem : List ℕ) (base size i : ℕ)
    → (i + 1) * 44 ≤ size
    → entry_inumber mem (entry_at base i) ≡ entry_inumber (slice base size mem) (entry_at 0 i)
unfolding entry_inumber
entry_inumber-slice mem base size i h =
    let there : base + (0 + i * 44 + 40) ≡ base + i * 44 + 40 = omega arith in
    ap (λ t. of_word (word_of t))
      (sym (
        slice-slice (0 + i * 44 + 40) 4 base size mem (omega arith)
        ∙ ap (λ t. slice t 4 mem) there))

entry_name-slice :
    (mem : List ℕ) (base size i : ℕ)
    → (i + 1) * 44 ≤ size
    → entry_name mem (entry_at base i) ≡ entry_name (slice base size mem) (entry_at 0 i)
unfolding entry_name
entry_name-slice mem base size i h =
    let there : base + (0 + i * 44) ≡ base + i * 44 = omega arith in
    sym (slice-slice (0 + i * 44) 40 base size mem (omega arith) ∙ ap (λ t. slice t 40 mem) there)

module _ (mem mem' : List ℕ) (base size : ℕ)
    (same : slice base size mem' ≡ slice base size mem) where
  same_entry :
      (j : ℕ)
      → (j + 1) * 44 ≤ size
      → (entry_inumber mem' (entry_at base j) ≡ entry_inumber mem (entry_at base j))
        × (entry_name mem' (entry_at base j) ≡ entry_name mem (entry_at base j))
  same_entry j inside = (
    entry_inumber-slice mem' base size j inside
        ∙ ap (λ t. entry_inumber t (entry_at 0 j)) same
        ∙ sym (entry_inumber-slice mem base size j inside),
    entry_name-slice mem' base size j inside
        ∙ ap (λ t. entry_name t (entry_at 0 j)) same
        ∙ sym (entry_name-slice mem base size j inside),
  )

  pub find_loop-block :
      (name : List ℕ)
      → find_loop mem' base name (size / 44) 0 ≡ find_loop mem base name (size / 44) 0
  find_loop-block name = find_loop-cong mem mem' base name (size / 44) 0 (λ j lo hi.
      let (number, named) = same_entry j (omega arith) in (rw (number, named), λ hit. number))

  pub IsTidy-block : IsTidy mem base (size / 44) → IsTidy mem' base (size / 44)
  IsTidy-block tidy =
      IsTidy-cong mem mem' base (size / 44) (λ j hi. same_entry j (omega arith)) tidy
