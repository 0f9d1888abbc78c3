-- ===== src/Fs/Directory/Grow.antt =====
-- Directory blocks that stay tidy: a new one, one behind `add_dir_entry`, and a copy.
use so.Prelude.{
  ℕ, ◌+◌, ◌*◌, ◌≤◌, ◌<◌, ◌≡◌, ◌≢◌, sym, ap, ◌∙◌, ◌⊎◌, inl, inr, true, false, List, length, arith,
  Bool-cases, subst,
}
use native.Mathlib.Decide.{ℕ_discrete, dec_lt}
use so.Prelude.Int.{pos, negsuc, minus_one, eq_int}
use so.Prelude.Bytes.{strncmp_eq}
use so.Fs.Access.{index}
use so.Fs.Directory.{entry_at, entry_inumber, entry_name}
use so.Fs.Directory.Entries.{filled, name_bytes}
use so.Fs.Directory.Names
use so.Fs.Directory.Names.{IsName}
use so.Fs.Directory.Search.{First, names, is_empty, NoneOf}
use so.Fs.Directory.Tidy.{IsTidy, spells}

-- A directory of empty entries is tidy.
pub empty-IsTidy :
    (mem : List ℕ) (base n : ℕ)
    → ((i : ℕ) → i < n → entry_inumber mem (entry_at base i) ≡ minus_one)
    → IsTidy mem base n
empty-IsTidy mem base n all = record {
  one_entry = λ name i j is_name hi hj hit_i hit_j. absurd (no_name name i hi hit_i);
  one_name = λ i j k hi hj eq_i eq_j. absurd (no_number i k hi eq_i);
  clear = λ name i j is_name lt hj empty used. absurd (no_use j hj used);
}
  where
    no_name : (name : List ℕ) (i : ℕ) → i < n → names mem base name i ≡ true → ⊥
    no_name name i h hit =
        let miss : names mem base name i ≡ false = rw (all i h) in
        let wrong : true ≡ false = cc in cc

    no_number : (i k : ℕ) → i < n → entry_inumber mem (entry_at base i) ≡ pos k → ⊥
    no_number i k h eq = let gone = all i h in let wrong : pos k ≡ negsuc 0 = cc in cc

    no_use : (j : ℕ) → j < n → is_empty mem base j ≡ false → ⊥
    no_use j h used =
        let gone : is_empty mem base j ≡ true = rw (all j h) in let wrong : true ≡ false = cc in cc

-- Two blocks with the same entries are tidy alike.
pub IsTidy-cong :
    (mem mem' : List ℕ) (base n : ℕ)
    → ((i : ℕ)
        → i < n
        → (entry_inumber mem' (entry_at base i) ≡ entry_inumber mem (entry_at base i))
          × (entry_name mem' (entry_at base i) ≡ entry_name mem (entry_at base i)))
    → IsTidy mem base n
    → IsTidy mem' base n
IsTidy-cong mem mem' base n same tidy = record {
  one_entry = λ name i j is_name hi hj hit_i hit_j.
      tidy.one_entry name i j is_name hi hj (sym (named name i hi) ∙ hit_i)
        (sym (named name j hj) ∙ hit_j);
  one_name = λ i j k hi hj eq_i eq_j.
      tidy.one_name i j k hi hj (sym (same i hi).0 ∙ eq_i) (sym (same j hj).0 ∙ eq_j);
  clear = λ name i j is_name lt hj empty used.
      ap (λ t. strncmp_eq 40 t name) (same i (omega arith)).1
      ∙ tidy.clear name i j is_name lt hj (sym (emptied i (omega arith)) ∙ empty)
          (sym (emptied j hj) ∙ used);
}
  where
    named : (name : List ℕ) (i : ℕ) → i < n → names mem' base name i ≡ names mem base name i
    named name i h = rw (same i h).0 (rw (same i h).1)

    emptied : (i : ℕ) → i < n → is_empty mem' base i ≡ is_empty mem base i
    emptied i h = rw (same i h).0

module _ (mem : List ℕ) (base : ℕ) (name : List ℕ) (m n k : ℕ) (is_name : IsName name)
    (small : m < 2_147_483_648) (empty : First (is_empty mem base) 0 k) (inside : k < n)
    (block : base + n * 44 ≤ length mem) where
  abbrev mem' : List ℕ
  mem' = filled (entry_at base k) (name_bytes name) (pos m) mem

  others :
      (j : ℕ)
      → j ≢ k
      → (entry_inumber mem' (entry_at base j) ≡ entry_inumber mem (entry_at base j))
        × (entry_name mem' (entry_at base j) ≡ entry_name mem (entry_at base j))
  others = Names.others mem base name m n k is_name small empty inside block

  is_used : is_empty mem' base k ≡ false
  is_used = rw (Names.number mem base name m n k is_name small empty inside block)

  -- Another name than the new one is in an entry that had it before.
  was_named :
      (t : List ℕ) (j : ℕ)
      → IsName t
      → t ≢ name
      → names mem' base t j ≡ true
      → names mem base t j ≡ true
  was_named t j is_t ne hit = elim (ℕ_discrete j k) [
    | no differ ↦
        sym (Names.names-others mem base name m n k is_name small empty inside block t j differ)
        ∙ hit
    | yes at_k ↦ absurd (
        let miss : names mem' base t j ≡ false =
          ap (names mem' base t) at_k
          ∙ Names.names-new_ne mem base name m n k is_name small empty inside block t is_t ne in
        let wrong : true ≡ false = cc in cc)
  ]

  -- The new name is in the new entry only.
  at_new :
      (j : ℕ) → NoneOf (names mem base name) 0 n → j < n → names mem' base name j ≡ true → j ≡ k
  at_new j absent h hit = elim (ℕ_discrete j k) [
    | yes at_k ↦ at_k
    | no differ ↦ absurd (
        let miss : names mem' base name j ≡ false =
          Names.names-others mem base name m n k is_name small empty inside block name j differ
          ∙ absent j (omega arith) (omega arith) in
        let wrong : true ≡ false = cc in cc)
  ]

  -- A block with a new name for a new number in its first empty entry is tidy.
  pub added-IsTidy :
      IsTidy mem base n
      → NoneOf (names mem base name) 0 n
      → ((j : ℕ) → j < n → entry_inumber mem (entry_at base j) ≢ pos m)
      → IsTidy mem' base n
  added-IsTidy tidy absent fresh = record {
    one_entry = one_entry;
    one_name = one_name;
    clear = clear;
  }
    where
      one_entry :
          (t : List ℕ) (i j : ℕ)
          → IsName t
          → i < n
          → j < n
          → names mem' base t i ≡ true
          → names mem' base t j ≡ true
          → i ≡ j
      one_entry t i j is_t hi hj hit_i hit_j = elim (Bool-cases (names mem' base t k)) [
        | inr miss ↦
            let ne : t ≢ name = λ p.
              let new = Names.names-new mem base name m n k is_name small empty inside block in
              let hit : names mem' base t k ≡ true = ap (λ u. names mem' base u k) p ∙ new in
              let wrong : true ≡ false = cc in cc in
            tidy.one_entry t i j is_t hi hj (was_named t i is_t ne hit_i)
              (was_named t j is_t ne hit_j)
        | inl hit ↦
            let same : t ≡ name =
              Names.names-new_only mem base name m n k is_name small empty inside block t is_t
                hit in
            at_new i absent hi (ap (λ u. names mem' base u i) (sym same) ∙ hit_i)
            ∙ sym (at_new j absent hj (ap (λ u. names mem' base u j) (sym same) ∙ hit_j))
      ]

      number_of :
          (i q : ℕ)
          → i < n
          → entry_inumber mem' (entry_at base i) ≡ pos q
          → ((i ≡ k) × (m ≡ q))
            ⊎ ((i ≢ k) × (entry_inumber mem (entry_at base i) ≡ pos q) × (q ≢ m))
      number_of i q hi eq = elim (ℕ_discrete i k) [
        | yes at_k ↦
            let new = Names.number mem base name m n k is_name small empty inside block in
            let there : entry_inumber mem' (entry_at base k) ≡ pos q =
              subst (λ t. entry_inumber mem' (entry_at base t) ≡ pos q) at_k eq in
            inl (at_k, ap index (sym new ∙ there))
        | no ne ↦
            let before : entry_inumber mem (entry_at base i) ≡ pos q = sym (others i ne).0 ∙ eq in
            inr (ne, before, λ p. fresh i hi (before ∙ ap pos p))
      ]

      one_name :
          (i j q : ℕ)
          → i < n
          → j < n
          → entry_inumber mem' (entry_at base i) ≡ pos q
          → entry_inumber mem' (entry_at base j) ≡ pos q
          → i ≡ j
      one_name i j q hi hj eq_i eq_j = go (number_of i q hi eq_i) (number_of j q hj eq_j)
        where
          go :
              ((i ≡ k) × (m ≡ q))
                ⊎ ((i ≢ k) × (entry_inumber mem (entry_at base i) ≡ pos q) × (q ≢ m))
              → ((j ≡ k) × (m ≡ q))
                ⊎ ((j ≢ k) × (entry_inumber mem (entry_at base j) ≡ pos q) × (q ≢ m))
              → i ≡ j
          go (inl (a, b)) (inl (c, d)) = a ∙ sym c
          go (inl (a, b)) (inr (c, d, e)) = absurd (e (sym b))
          go (inr (a, b, c)) (inl (d, e)) = absurd (c (sym e))
          go (inr (a, b, c)) (inr (d, e, f)) = tidy.one_name i j q hi hj b e

      clear :
          (t : List ℕ) (i j : ℕ)
          → IsName t
          → i < j
          → j < n
          → is_empty mem' base i ≡ true
          → is_empty mem' base j ≡ false
          → spells mem' base t i ≡ false
      clear t i j is_t lt hj empty_i used_j = elim (ℕ_discrete i k) [
        | yes at_k ↦ absurd (
            let used : is_empty mem' base i ≡ false = ap (is_empty mem' base) at_k ∙ is_used in
            let wrong : true ≡ false = cc in cc)
        | no ne ↦
            let was_empty : is_empty mem base i ≡ true =
              ap (λ z. eq_int z minus_one) (sym (others i ne).0) ∙ empty_i in
            let above : k < i = elim (dec_lt k i) [
              | yes lt' ↦ lt'
              | no ge ↦ absurd (
                  let was_used : is_empty mem base i ≡ false =
                    empty.before i (omega arith) (omega arith) in
                  let wrong : true ≡ false = cc in cc)
            ] in
            let was_used : is_empty mem base j ≡ false =
              ap (λ z. eq_int z minus_one) (sym (others j (λ p. absurd (omega arith))).0)
              ∙ used_j in
            ap (λ u. strncmp_eq 40 u t) (others i ne).1
            ∙ tidy.clear t i j is_t lt hj was_empty was_used
      ]
