-- ===== src/Fs/Scan.antt =====
-- The first-fit scan of `inode_alloc`, `data_block_alloc` and `add_to_open_file_table`.
use so.Prelude.{
  ℕ, zero, suc, ◌+◌, ◌≤◌, ◌<◌, ◌≡◌, refl, ◌⊎◌, inl, inr, some, List, arith, length, get_elem?,
  get_elem?_of_lt, set, get_elem?-set_self, get_elem?-set_ne, ◌∙◌, subst,
}
use native.Mathlib.Decide.{ℕ_discrete}
use so.Prelude.Int.{pos, minus_one}
use so.Prelude.Run.{ok}
use so.Fs.Types.{AllocationState, free, taken, Fs}
use so.Fs.Access.{scan_free}

-- The `n` entries from `i` on are TAKEN.
abbrev pub AllTaken : List AllocationState → ℕ → ℕ → Type 0
AllTaken table i n = (j : ℕ) → i ≤ j → j < i + n → get_elem? table j ≡ some taken

-- `k` is the first FREE entry from `i` on.
pub record FirstFree (table : List AllocationState) (i k : ℕ) : Type 0 where
  pub from : i ≤ k
  pub is_free : get_elem? table k ≡ some free
  pub before : (j : ℕ) → i ≤ j → j < k → get_elem? table j ≡ some taken

-- The two ways in which a scan of `n` entries from `i` on can end.
abbrev pub Scanned : List AllocationState → ℕ → ℕ → Fs → Type 0
Scanned table n i s =
    (AllTaken table i n × (scan_free table n i s ≡ ok minus_one s))
    ⊎ ((k : ℕ) × FirstFree table i k × (k < i + n) × (scan_free table n i s ≡ ok (pos k) s))

module _ (table : List AllocationState) (i : ℕ) (first : get_elem? table i ≡ some taken) where
  -- What holds from `i + 1` on holds from `i` on.
  taken_from :
      (j n : ℕ) → AllTaken table (i + 1) n → i ≤ j → j < i + suc n → get_elem? table j ≡ some taken
  taken_from j n rest lo hi = elim (ℕ_discrete i j) [
    | yes e ↦ subst (λ t. get_elem? table t ≡ some taken) e first
    | no ne ↦ rest j (omega arith) (omega arith)
  ]

  before_from :
      (k j : ℕ) → FirstFree table (i + 1) k → i ≤ j → j < k → get_elem? table j ≡ some taken
  before_from k j f lo hi = elim (ℕ_discrete i j) [
    | yes e ↦ subst (λ t. get_elem? table t ≡ some taken) e first
    | no ne ↦ f.before j (omega arith) hi
  ]

  Scanned-suc : (n : ℕ) (s : Fs) → Scanned table n (i + 1) s → Scanned table (suc n) i s
  unfolding scan_free
  Scanned-suc n s (inl (all, e)) =
      inl ((λ j lo hi. taken_from j n all lo hi), rw (first, scan_free) e)
  Scanned-suc n s (inr (k, f, hi, e)) = inr (
    k,
    record { from = omega (arith, f.from); is_free = f.is_free; before = λ j. before_from k j f },
    omega arith,
    rw (first, scan_free) e,
  )

pub scan_free-Scanned :
    (table : List AllocationState) (n i : ℕ) (s : Fs) → i + n ≤ length table → Scanned table n i s
unfolding scan_free
scan_free-Scanned table zero i s h = inl ((λ j lo hi. absurd (omega arith)), refl)
scan_free-Scanned table (suc n) i s h =
    go (get_elem?_of_lt table i (omega arith)) (scan_free-Scanned table n (i + 1) s (omega arith))
  where
    go :
        (a : AllocationState) × (get_elem? table i ≡ some a)
        → Scanned table n (i + 1) s
        → Scanned table (suc n) i s
    go (taken, e) rest = Scanned-suc table i e n s rest
    go (free, e) rest = inr (
      i,
      record { from = omega arith; is_free = e; before = λ j lo hi. absurd (omega arith) },
      omega arith,
      rw (e, scan_free),
    )

-- An entry that is TAKEN stays so when another one is taken.
pub taken-set :
    (table : List AllocationState) (i j : ℕ)
    → i < length table
    → get_elem? table j ≡ some taken
    → get_elem? (set table i taken) j ≡ some taken
taken-set table i j h e = elim (ℕ_discrete i j) [
  | yes p ↦
      subst (λ t. get_elem? (set table i taken) t ≡ some taken) p
        (get_elem?-set_self table i taken h)
  | no ne ↦ get_elem?-set_ne table i j taken ne ∙ e
]
