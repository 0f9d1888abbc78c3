-- ===== src/Fs/Directory/Clear.antt =====
-- Looking up names in a tidy directory block behind `clear_dir_entry`.
use so.Prelude.{
  ℕ, zero, suc, ◌+◌, ◌*◌, ◌≤◌, ◌<◌, ◌≡◌, ◌≢◌, refl, sym, ap, ◌∙◌, inl, inr, true, false, List, [],
  ◌∷◌, length, replicate, arith, Bool-cases,
}
use native.Mathlib.Decide.{ℕ_discrete}
use so.Prelude.Int.{pos, negsuc, minus_one, eq_int}
use so.Prelude.Bytes.{IsText, strncmp_eq}
use so.Fs.Directory.{entry_at, entry_inumber, entry_name, find_loop}
use so.Fs.Directory.Entries.{
  entry_inumber-filled, entry_name-filled, entry_inumber-filled_ne, entry_name-filled_ne,
}
use so.Fs.Directory.Names.{IsName, find_loop-cong}
use so.Fs.Directory.Search.{names, is_empty, FindsIn, find_loop-FindsIn, entry-Apart}
use so.Fs.Directory.Tidy.{IsTidy, cleared, spells}

-- Bytes spell one string only.
strncmp_eq_unique :
    (n : ℕ) (bs s t : List ℕ)
    → IsText s
    → IsText t
    → length s < n
    → length t < n
    → strncmp_eq n bs s ≡ true
    → strncmp_eq n bs t ≡ true
    → s ≡ t
unfolding strncmp_eq
strncmp_eq_unique zero bs s t is_s is_t hs ht e f = absurd (omega arith)
strncmp_eq_unique (suc n) bs [] [] is_s is_t hs ht e f = refl
strncmp_eq_unique (suc n) [] [] (d ∷ t) is_s is_t hs ht e f = ground arith
strncmp_eq_unique (suc n) (b ∷ bs) [] (d ∷ t) is_s is_t hs ht e f = ground arith
strncmp_eq_unique (suc n) [] (c ∷ s) t is_s is_t hs ht e f = ground arith
strncmp_eq_unique (suc n) (b ∷ bs) (c ∷ s) [] is_s is_t hs ht e f = ground arith
strncmp_eq_unique (suc n) (b ∷ bs) (c ∷ s) (d ∷ t) is_s is_t hs ht e f =
    ground (arith, strncmp_eq_unique n bs s t is_s.1 is_t.1)

zeros-spell_nothing : (name : List ℕ) → IsName name → strncmp_eq 40 (replicate 40 0) name ≡ false
unfolding strncmp_eq
zeros-spell_nothing [] is_name = absurd (let some_byte = is_name.2 in omega arith)
zeros-spell_nothing (c ∷ name) is_name = ground arith

-- One entry has one name.
pub names_unique :
    (mem : List ℕ) (base : ℕ) (s t : List ℕ) (k : ℕ)
    → IsName s
    → IsName t
    → names mem base s k ≡ true
    → names mem base t k ≡ true
    → s ≡ t
names_unique mem base s t k is_s is_t hit_s hit_t =
    strncmp_eq_unique 40 (entry_name mem (entry_at base k)) s t is_s.0 is_t.0 (omega arith)
      (omega arith) (ground arith) (ground arith)

module _ (mem : List ℕ) (base n k : ℕ) (inside : k < n) (block : base + n * 44 ≤ length mem) where
  abbrev mem' : List ℕ
  mem' = cleared base k mem

  number : entry_inumber mem' (entry_at base k) ≡ minus_one
  number =
      entry_inumber-filled (entry_at base k) (replicate 40 0) minus_one mem (inl refl) refl
        (omega arith)

  stored : entry_name mem' (entry_at base k) ≡ replicate 40 0
  stored =
      entry_name-filled (entry_at base k) (replicate 40 0) minus_one mem (inl refl) refl
        (omega arith)

  others :
      (j : ℕ)
      → j ≢ k
      → (entry_inumber mem' (entry_at base j) ≡ entry_inumber mem (entry_at base j))
        × (entry_name mem' (entry_at base j) ≡ entry_name mem (entry_at base j))
  others j ne = (
    entry_inumber-filled_ne (entry_at base k) (replicate 40 0) minus_one mem (inl refl) refl
        (omega arith) (entry_at base j) (entry-Apart base k j (λ p. ne (sym p))),
    entry_name-filled_ne (entry_at base k) (replicate 40 0) minus_one mem (inl refl) refl
        (omega arith) (entry_at base j) (entry-Apart base k j (λ p. ne (sym p))),
  )

  names-others : (t : List ℕ) (j : ℕ) → j ≢ k → names mem' base t j ≡ names mem base t j
  names-others t j ne = rw (others j ne).0 (rw (others j ne).1)

  names-cleared : (t : List ℕ) → names mem' base t k ≡ false
  names-cleared t = rw number

  -- What is in use behind the call was in use before it, in another entry.
  was_named :
      (t : List ℕ) (j : ℕ) → names mem' base t j ≡ true → (j ≢ k) × (names mem base t j ≡ true)
  was_named t j hit = elim (ℕ_discrete j k) [
    | yes at_k ↦ absurd (
        let miss : names mem' base t j ≡ false = ap (names mem' base t) at_k ∙ names-cleared t in
        let wrong : true ≡ false = cc in let no_way : false ≡ true = sym wrong in cc)
    | no ne ↦ (ne, sym (names-others t j ne) ∙ hit)
  ]

  -- The name of the cleared entry is not found behind the call.
  pub find_loop-cleared :
      (name : List ℕ)
      → IsTidy mem base n
      → IsName name
      → names mem base name k ≡ true
      → find_loop mem' base name n 0 ≡ minus_one
  find_loop-cleared name tidy is_name here = go (find_loop-FindsIn mem' base name n 0)
    where
      go : FindsIn mem' base name n 0 → find_loop mem' base name n 0 ≡ minus_one
      go (inl (all, e)) = e
      go (inr (j, f, hi, e)) =
          let (ne, hit) = was_named name j f.passes in
          absurd (ne (tidy.one_entry name j k is_name (omega arith) inside hit here))

  -- Any other name is found as before.
  pub find_loop-cleared_ne :
      (name t : List ℕ)
      → IsName name
      → IsName t
      → t ≢ name
      → names mem base name k ≡ true
      → find_loop mem' base t n 0 ≡ find_loop mem base t n 0
  find_loop-cleared_ne name t is_name is_t ne here =
      find_loop-cong mem mem' base t n 0 (λ j lo hi. go j (ℕ_discrete j k))
    where
      miss : names mem base t k ≡ false
      miss = elim (Bool-cases (names mem base t k)) [
        | inr e ↦ e
        | inl hit ↦ absurd (ne (names_unique mem base t name k is_t is_name hit here))
      ]

      go :
          (j : ℕ)
          → Dec (j ≡ k)
          → (names mem' base t j ≡ names mem base t j)
            × (names mem base t j ≡ true
                → entry_inumber mem' (entry_at base j) ≡ entry_inumber mem (entry_at base j))
      go j (no differ) = (names-others t j differ, λ hit. (others j differ).0)
      go j (yes at_k) =
          let miss_j : names mem base t j ≡ false = ap (names mem base t) at_k ∙ miss in
          let miss_j' : names mem' base t j ≡ false =
            ap (names mem' base t) at_k ∙ names-cleared t in
          (miss_j' ∙ sym miss_j, λ hit. absurd (let wrong : true ≡ false = cc in cc))

  empty-others : (j : ℕ) → j ≢ k → is_empty mem' base j ≡ is_empty mem base j
  empty-others j ne = rw (others j ne).0

  -- The block stays tidy.
  pub cleared-IsTidy : IsTidy mem base n → IsTidy mem' base n
  cleared-IsTidy tidy = record {
    one_entry = λ name i j is_name hi hj hit_i hit_j.
        tidy.one_entry name i j is_name hi hj (was_named name i hit_i).1 (was_named name j hit_j).1;
    one_name = λ i j m hi hj eq_i eq_j.
        tidy.one_name i j m hi hj (was_number i m eq_i) (was_number j m eq_j);
    clear = clear;
  }
    where
      was_number :
          (i m : ℕ)
          → entry_inumber mem' (entry_at base i) ≡ pos m
          → entry_inumber mem (entry_at base i) ≡ pos m
      was_number i m eq = elim (ℕ_discrete i k) [
        | no ne ↦ sym (others i ne).0 ∙ eq
        | yes at_k ↦ absurd (
            let gone : entry_inumber mem' (entry_at base i) ≡ minus_one =
              ap (λ t. entry_inumber mem' (entry_at base t)) at_k ∙ number in
            let wrong : pos m ≡ negsuc 0 = cc in cc)
      ]

      clear :
          (name : List ℕ) (i j : ℕ)
          → IsName name
          → i < j
          → j < n
          → is_empty mem' base i ≡ true
          → is_empty mem' base j ≡ false
          → spells mem' base name i ≡ false
      clear name i j is_name lt hj empty used = elim (ℕ_discrete i k) [
        | yes at_k ↦
            ap (spells mem' base name) at_k
            ∙ ap (λ t. strncmp_eq 40 t name) stored
            ∙ zeros-spell_nothing name is_name
        | no ne ↦ elim (ℕ_discrete j k) [
          | yes at_k ↦ absurd (
              let gone : is_empty mem' base j ≡ true =
                ap (is_empty mem' base) at_k ∙ ap (λ z. eq_int z minus_one) number in
              let wrong : true ≡ false = cc in cc)
          | no differ ↦
              ap (λ t. strncmp_eq 40 t name) (others i ne).1
              ∙ tidy.clear name i j is_name lt hj (sym (empty-others i ne) ∙ empty)
                  (sym (empty-others j differ) ∙ used)
        ]
      ]
