-- ===== src/Fs/Directory/Search.antt =====
-- The loops over the entries of a directory block.
use so.Prelude.{
  ℕ, zero, suc, ◌+◌, ◌*◌, ◌≤◌, ◌<◌, ◌≡◌, ◌≢◌, refl, ◌∙◌, ◌⊎◌, inl, inr, Bool, true, false, not,
  ◌&&◌, none, some, List, length, arith, Bool-cases, subst,
}
use native.Mathlib.Decide.{ℕ_discrete, dec_lt}
use so.Prelude.Int.{ℤ, minus_one, eq_int}
use so.Prelude.Bytes.{strncmp_eq}
use so.Fs.Types.{max_file_name}
use so.Fs.Directory.{
  entry_at, entry_inumber, set_entry_inumber, entry_name, empty_entries, find_loop, add_loop,
}
use so.Fs.Directory.Entries.{
  Apart, filled, name_bytes, entry_inumber-set_self, entry_inumber-set_ne, length-set_entry_inumber,
}

pub eq_int→eq : (a b : ℤ) → eq_int a b ≡ true → a ≡ b
eq_int→eq a b h = ground arith

pub entry-Apart : (base i j : ℕ) → i ≢ j → Apart (entry_at base i) (entry_at base j)
entry-Apart base i j ne = elim (dec_lt i j) [
  | yes before ↦ inl (omega arith)
  | no behind ↦ inr (omega arith)
]

pub length-empty_entries :
    (base n i : ℕ) (mem : List ℕ) → length (empty_entries base n i mem) ≡ length mem
unfolding empty_entries
length-empty_entries base zero i mem = refl
length-empty_entries base (suc n) i mem =
    length-empty_entries base n (i + 1) (set_entry_inumber (entry_at base i) minus_one mem)
    ∙ length-set_entry_inumber (entry_at base i) minus_one mem

empty_entries-before :
    (base n i j : ℕ) (mem : List ℕ)
    → j < i
    → entry_inumber (empty_entries base n i mem) (entry_at base j)
      ≡ entry_inumber mem (entry_at base j)
unfolding empty_entries
empty_entries-before base zero i j mem h = refl
empty_entries-before base (suc n) i j mem h =
    empty_entries-before base n (i + 1) j (set_entry_inumber (entry_at base i) minus_one mem)
      (omega arith)
    ∙ entry_inumber-set_ne (entry_at base i) (entry_at base j) minus_one mem
        (entry-Apart base i j (omega arith))

-- `inode_create` marks every entry of a new directory as empty.
pub empty_entries-empty :
    (base n i j : ℕ) (mem : List ℕ)
    → base + (i + n) * 44 ≤ length mem
    → i ≤ j
    → j < i + n
    → entry_inumber (empty_entries base n i mem) (entry_at base j) ≡ minus_one
unfolding empty_entries
empty_entries-empty base zero i j mem h lo hi = absurd (omega arith)
empty_entries-empty base (suc n) i j mem h lo hi = elim (ℕ_discrete i j) [
  | yes e ↦
      subst
        (λ t.
          entry_inumber
            (empty_entries base n (i + 1) (set_entry_inumber (entry_at base i) minus_one mem))
            (entry_at base t)
          ≡ minus_one)
        e
        (empty_entries-before base n (i + 1) i (set_entry_inumber (entry_at base i) minus_one mem)
            (omega arith)
          ∙ entry_inumber-set_self (entry_at base i) minus_one mem (inl refl) (omega arith))
  | no ne ↦
      empty_entries-empty base n (i + 1) j (set_entry_inumber (entry_at base i) minus_one mem)
        (omega (arith, length-set_entry_inumber (entry_at base i) minus_one mem)) (omega arith)
        (omega arith)
]

-- Entry `i` is in use, under this name.
abbrev pub names : List ℕ → ℕ → List ℕ → ℕ → Bool
names mem base name i =
    not (eq_int (entry_inumber mem (entry_at base i)) minus_one)
    && strncmp_eq max_file_name (entry_name mem (entry_at base i)) name

-- `k` is the first of the entries from `i` on to pass a test.
pub record First (test : ℕ → Bool) (i k : ℕ) : Type 0 where
  pub from : i ≤ k
  pub passes : test k ≡ true
  pub before : (j : ℕ) → i ≤ j → j < k → test j ≡ false

abbrev pub NoneOf : (ℕ → Bool) → ℕ → ℕ → Type 0
NoneOf test i n = (j : ℕ) → i ≤ j → j < i + n → test j ≡ false

module _ (test : ℕ → Bool) (i : ℕ) (fails : test i ≡ false) where
  NoneOf-cons : (n : ℕ) → NoneOf test (i + 1) n → NoneOf test i (suc n)
  NoneOf-cons n rest j lo hi = elim (ℕ_discrete i j) [
    | yes e ↦ subst (λ t. test t ≡ false) e fails
    | no ne ↦ rest j (omega arith) (omega arith)
  ]

  First-cons : (k : ℕ) → First test (i + 1) k → First test i k
  First-cons k f = record {
    from = omega (arith, f.from);
    passes = f.passes;
    before = λ j lo hi. elim (ℕ_discrete i j) [
      | yes e ↦ subst (λ t. test t ≡ false) e fails
      | no ne ↦ f.before j (omega arith) hi
    ];
  }

First-here : (test : ℕ → Bool) (i : ℕ) → test i ≡ true → First test i i
First-here test i h = record {
  from = omega arith;
  passes = h;
  before = λ j lo hi. absurd (omega arith);
}

-- What `find_in_dir` finds: the number in the first entry of that name, or -1.
abbrev pub FindsIn : List ℕ → ℕ → List ℕ → ℕ → ℕ → Type 0
FindsIn mem base name n i =
    (NoneOf (names mem base name) i n × (find_loop mem base name n i ≡ minus_one))
    ⊎ ((k : ℕ) × First (names mem base name) i k
        × (k < i + n)
        × (find_loop mem base name n i ≡ entry_inumber mem (entry_at base k)))

pub find_loop-FindsIn :
    (mem : List ℕ) (base : ℕ) (name : List ℕ) (n i : ℕ) → FindsIn mem base name n i
unfolding find_loop
find_loop-FindsIn mem base name zero i = inl ((λ j lo hi. absurd (omega arith)), refl)
find_loop-FindsIn mem base name (suc n) i = elim (Bool-cases (names mem base name i)) [
  | inl hit ↦ inr (i, First-here (names mem base name) i hit, omega arith, rw hit)
  | inr miss ↦ rest miss (find_loop-FindsIn mem base name n (i + 1))
]
  where
    rest :
        names mem base name i ≡ false
        → FindsIn mem base name n (i + 1)
        → FindsIn mem base name (suc n) i
    rest miss (inl (all, e)) = inl (NoneOf-cons (names mem base name) i miss n all, rw miss e)
    rest miss (inr (k, f, hi, e)) =
        inr (k, First-cons (names mem base name) i miss k f, omega arith, rw miss e)

-- Entry `i` is empty.
abbrev pub is_empty : List ℕ → ℕ → ℕ → Bool
is_empty mem base i = eq_int (entry_inumber mem (entry_at base i)) minus_one

-- What `add_dir_entry` does: it fills the first empty entry, if there is one.
abbrev pub AddsTo : List ℕ → ℕ → List ℕ → ℤ → ℕ → ℕ → Type 0
AddsTo mem base name number n i =
    (NoneOf (is_empty mem base) i n × (add_loop mem base name number n i ≡ none))
    ⊎ ((k : ℕ) × First (is_empty mem base) i k
        × (k < i + n)
        × (add_loop mem base name number n i
            ≡ some (filled (entry_at base k) (name_bytes name) number mem)))

pub add_loop-AddsTo :
    (mem : List ℕ) (base : ℕ) (name : List ℕ) (number : ℤ) (n i : ℕ)
    → AddsTo mem base name number n i
unfolding add_loop
add_loop-AddsTo mem base name number zero i = inl ((λ j lo hi. absurd (omega arith)), refl)
add_loop-AddsTo mem base name number (suc n) i = elim (Bool-cases (is_empty mem base i)) [
  | inl hit ↦ inr (i, First-here (is_empty mem base) i hit, omega arith, rw hit)
  | inr miss ↦ rest miss (add_loop-AddsTo mem base name number n (i + 1))
]
  where
    rest :
        is_empty mem base i ≡ false
        → AddsTo mem base name number n (i + 1)
        → AddsTo mem base name number (suc n) i
    rest miss (inl (all, e)) = inl (NoneOf-cons (is_empty mem base) i miss n all, rw miss e)
    rest miss (inr (k, f, hi, e)) =
        inr (k, First-cons (is_empty mem base) i miss k f, omega arith, rw miss e)
