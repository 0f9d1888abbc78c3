-- ===== src/Fs/Directory/Names.antt =====
-- Looking up names in a directory block behind `add_dir_entry` and `clear_dir_entry`.
use so.Prelude.{
  ℕ, zero, suc, ◌+◌, ◌*◌, ◌≤◌, ◌<◌, ◌≡◌, ◌≢◌, refl, sym, ap, ◌∙◌, inl, inr, Bool, true, false, List,
  [], length, arith, Bool-cases, subst,
}
use native.Mathlib.Decide.{ℕ_discrete, dec_lt}
use so.Prelude.Int.{pos}
use so.Prelude.Bytes.{
  IsText, strncmp_eq, strncmp_eq-strncpy_bytes_self, strncmp_eq-strncpy_bytes_ne,
}
use so.Fs.Directory.{entry_at, entry_inumber, entry_name, find_loop}
use so.Fs.Directory.Entries.{
  filled, name_bytes, length-name_bytes, entry_inumber-filled, entry_name-filled,
  entry_inumber-filled_ne, entry_name-filled_ne,
}
use so.Fs.Directory.Search.{names, is_empty, First, NoneOf, FindsIn, find_loop-FindsIn, entry-Apart}

-- A name that `add_dir_entry` accepts: a C string of 1 to 39 bytes.
abbrev pub IsName : List ℕ → Type 0
IsName name = IsText name × (0 < length name) × (length name < 40)

First-unique : {test : ℕ → Bool} {j k : ℕ} → First test 0 j → First test 0 k → j < k → ⊥
First-unique f g h = let fails = g.before _ (omega arith) h in let passes = f.passes in cc

-- The first entry of a name is what `find_dir_entry` finds.
pub find_loop-First :
    (mem : List ℕ) (base : ℕ) (name : List ℕ) (n k : ℕ)
    → First (names mem base name) 0 k
    → k < n
    → find_loop mem base name n 0 ≡ entry_inumber mem (entry_at base k)
find_loop-First mem base name n k f h = go (find_loop-FindsIn mem base name n 0)
  where
    go :
        FindsIn mem base name n 0
        → find_loop mem base name n 0 ≡ entry_inumber mem (entry_at base k)
    go (inl (all, e)) = let fails = all k (omega arith) (omega arith) in let passes = f.passes in cc
    go (inr (j, g, hi, e)) = elim (dec_lt j k) [
      | yes below ↦ absurd (First-unique g f below)
      | no above ↦ elim (dec_lt k j) [
        | yes below ↦ absurd (First-unique f g below)
        | no equal ↦
            let j_k : j ≡ k = omega arith in e ∙ ap (λ t. entry_inumber mem (entry_at base t)) j_k
      ]
    ]

-- Two blocks in which the same entries have the name, with the same numbers, answer alike.
pub find_loop-cong :
    (mem mem' : List ℕ) (base : ℕ) (name : List ℕ) (n i : ℕ)
    → ((j : ℕ)
        → i ≤ j
        → j < i + n
        → (names mem' base name j ≡ names mem base name j)
          × (names mem base name j ≡ true
              → entry_inumber mem' (entry_at base j) ≡ entry_inumber mem (entry_at base j)))
    → find_loop mem' base name n i ≡ find_loop mem base name n i
unfolding find_loop
find_loop-cong mem mem' base name zero i same = refl
find_loop-cong mem mem' base name (suc n) i same =
    let here = same i (omega arith) (omega arith) in
    let rest =
      find_loop-cong mem mem' base name n (i + 1) (λ j lo hi. same j (omega arith) (omega arith)) in
    elim (Bool-cases (names mem base name i)) [
      | inl hit ↦ rw (here.0, hit) (here.1 hit)
      | inr miss ↦ rw (here.0, miss) rest
    ]

module _ (mem : List ℕ) (base : ℕ) (name : List ℕ) (m n k : ℕ) (is_name : IsName name)
    (small : m < 2_147_483_648) (empty : First (is_empty mem base) 0 k) (inside : k < n)
    (block : base + n * 44 ≤ length mem) where
  abbrev mem' : List ℕ
  mem' = filled (entry_at base k) (name_bytes name) (pos m) mem

  pub number : entry_inumber mem' (entry_at base k) ≡ pos m
  number =
      entry_inumber-filled (entry_at base k) (name_bytes name) (pos m) mem (inr (m, refl, small))
        (length-name_bytes name) (omega arith)

  stored : entry_name mem' (entry_at base k) ≡ name_bytes name
  stored =
      entry_name-filled (entry_at base k) (name_bytes name) (pos m) mem (inr (m, refl, small))
        (length-name_bytes name) (omega arith)

  pub others :
      (j : ℕ)
      → j ≢ k
      → (entry_inumber mem' (entry_at base j) ≡ entry_inumber mem (entry_at base j))
        × (entry_name mem' (entry_at base j) ≡ entry_name mem (entry_at base j))
  others j ne = (
    entry_inumber-filled_ne (entry_at base k) (name_bytes name) (pos m) mem (inr (m, refl, small))
        (length-name_bytes name) (omega arith) (entry_at base j)
        (entry-Apart base k j (λ p. ne (sym p))),
    entry_name-filled_ne (entry_at base k) (name_bytes name) (pos m) mem (inr (m, refl, small))
        (length-name_bytes name) (omega arith) (entry_at base j)
        (entry-Apart base k j (λ p. ne (sym p))),
  )

  pub names-others : (t : List ℕ) (j : ℕ) → j ≢ k → names mem' base t j ≡ names mem base t j
  names-others t j ne = rw (others j ne).0 (rw (others j ne).1)

  pub names-new : names mem' base name k ≡ true
  names-new =
      rw (number, stored)
        (strncmp_eq-strncpy_bytes_self 40 39 name [] (omega (arith, is_name.2)) (omega arith))

  pub names-new_only : (t : List ℕ) → IsName t → names mem' base t k ≡ true → t ≡ name
  names-new_only t other hit =
      let new : names mem' base t k ≡ strncmp_eq 40 (name_bytes name) t = rw (number, stored) in
      sym (
        strncmp_eq-strncpy_bytes_ne 40 39 name t [] is_name.0 other.0 (omega (arith, is_name.2))
          other.2 (omega arith) (sym new ∙ hit))

  -- The other names are not in the new entry.
  pub names-new_ne : (t : List ℕ) → IsName t → t ≢ name → names mem' base t k ≡ false
  names-new_ne t other ne = elim (Bool-cases (names mem' base t k)) [
    | inr miss ↦ miss
    | inl hit ↦ absurd (ne (names-new_only t other hit))
  ]

  pub was_empty : (t : List ℕ) → names mem base t k ≡ false
  was_empty t = rw empty.passes

  -- A name that was not there is found behind `add_dir_entry`, with the number added.
  pub find_loop-added : NoneOf (names mem base name) 0 n → find_loop mem' base name n 0 ≡ pos m
  find_loop-added absent =
      find_loop-First mem' base name n k
        (record {
          from = omega arith;
          passes = names-new;
          before =
              λ j lo hi. names-others name j (omega arith) ∙ absent j (omega arith) (omega arith);
        })
        inside
      ∙ number

  same_names :
      (t : List ℕ)
      → IsName t
      → t ≢ name
      → (j : ℕ)
      → (names mem' base t j ≡ names mem base t j)
        × (names mem base t j ≡ true
            → entry_inumber mem' (entry_at base j) ≡ entry_inumber mem (entry_at base j))
  same_names t other ne j = elim (ℕ_discrete j k) [
    | no differ ↦ (names-others t j differ, λ hit. (others j differ).0)
    | yes at_k ↦
        subst
          (λ i.
            (names mem' base t i ≡ names mem base t i)
            × (names mem base t i ≡ true
                → entry_inumber mem' (entry_at base i) ≡ entry_inumber mem (entry_at base i)))
          (sym at_k)
          (names-new_ne t other ne ∙ sym (was_empty t), λ hit. let miss = was_empty t in cc)
  ]

  -- Any other name is found as before.
  pub find_loop-added_ne :
      (t : List ℕ) → IsName t → t ≢ name → find_loop mem' base t n 0 ≡ find_loop mem base t n 0
  find_loop-added_ne t other ne =
      find_loop-cong mem mem' base t n 0 (λ j lo hi. same_names t other ne j)
