-- ===== src/Fs/Directory/Entries.antt =====
-- One directory entry: what is read back behind a write of it, and behind a write of another one.
use so.Prelude.{
  ℕ, ◌+◌, ◌^◌, ◌≤◌, ◌<◌, ◌≡◌, refl, sym, ap, ◌∙◌, ◌⊎◌, inl, inr, List, [], ◌∷◌, ◌++◌, length,
  length-append, arith,
}
use so.Prelude.Int.{ℤ, pos, minus_one, of_word, to_word, of_word-to_word_pos}
use so.Prelude.Bytes.{
  slice, splice, length-splice, slice-splice_before, slice-splice_after, slice-splice_self,
  strncpy_bytes, length-strncpy_bytes,
}
use so.Fs.Types.{max_file_name}
use so.Fs.Directory.{word_bytes, word_of, entry_inumber, set_entry_inumber, entry_name}

word_of-word_bytes : (w : ℕ) → w < 2 ^ 32 → word_of (word_bytes w) ≡ w
unfolding word_of word_bytes
word_of-word_bytes w h = omega arith

-- The inode numbers that a directory entry holds.
abbrev pub IsSmall : ℤ → Type 0
IsSmall n = (n ≡ minus_one) ⊎ ((k : ℕ) × (n ≡ pos k) × (k < 2 ^ 31))

of_word-to_word : (n : ℤ) → IsSmall n → of_word (to_word n) ≡ n
of_word-to_word n (inl e) = rw e
of_word-to_word n (inr (k, e, h)) =
    ap (λ t. of_word (to_word t)) e ∙ of_word-to_word_pos k h ∙ sym e

to_word-lt : (n : ℤ) → to_word n < 2 ^ 32
to_word-lt n = ground arith

-- Two entries do not overlap.
abbrev pub Apart : ℕ → ℕ → Type 0
Apart a c = (a + 44 ≤ c) ⊎ (c + 44 ≤ a)

pub length-set_entry_inumber :
    (a : ℕ) (n : ℤ) (mem : List ℕ) → length (set_entry_inumber a n mem) ≡ length mem
unfolding set_entry_inumber
length-set_entry_inumber a n mem = length-splice (a + max_file_name) (word_bytes (to_word n)) mem

length-word_bytes : (w : ℕ) → length (word_bytes w) ≡ 4
unfolding word_bytes
length-word_bytes w = refl

pub entry_inumber-set_self :
    (a : ℕ) (n : ℤ) (mem : List ℕ)
    → IsSmall n
    → a + 44 ≤ length mem
    → entry_inumber (set_entry_inumber a n mem) a ≡ n
unfolding entry_inumber set_entry_inumber
entry_inumber-set_self a n mem small h =
    ap (λ t. of_word (word_of t))
      (ap (λ l. slice (a + 40) l (splice (a + 40) (word_bytes (to_word n)) mem))
          (sym (length-word_bytes (to_word n)))
        ∙ slice-splice_self (a + 40) (word_bytes (to_word n)) mem
            (omega (arith, length-word_bytes (to_word n))))
    ∙ ap of_word (word_of-word_bytes (to_word n) (to_word-lt n))
    ∙ of_word-to_word n small

-- A write inside one entry leaves another one alone.
pub entry_inumber-splice_ne :
    (a c at : ℕ) (bs mem : List ℕ)
    → Apart a c
    → a ≤ at
    → at + length bs ≤ a + 44
    → entry_inumber (splice at bs mem) c ≡ entry_inumber mem c
unfolding entry_inumber
entry_inumber-splice_ne a c at bs mem (inl before) lo hi =
    ap (λ t. of_word (word_of t)) (slice-splice_after (c + 40) 4 at bs mem (omega arith))
entry_inumber-splice_ne a c at bs mem (inr behind) lo hi =
    ap (λ t. of_word (word_of t)) (slice-splice_before (c + 40) 4 at bs mem (omega arith))

pub entry_name-splice_ne :
    (a c at : ℕ) (bs mem : List ℕ)
    → Apart a c
    → a ≤ at
    → at + length bs ≤ a + 44
    → entry_name (splice at bs mem) c ≡ entry_name mem c
unfolding entry_name
entry_name-splice_ne a c at bs mem (inl before) lo hi =
    slice-splice_after c 40 at bs mem (omega arith)
entry_name-splice_ne a c at bs mem (inr behind) lo hi =
    slice-splice_before c 40 at bs mem (omega arith)

pub entry_inumber-set_ne :
    (a c : ℕ) (n : ℤ) (mem : List ℕ)
    → Apart a c
    → entry_inumber (set_entry_inumber a n mem) c ≡ entry_inumber mem c
unfolding set_entry_inumber
entry_inumber-set_ne a c n mem apart =
    entry_inumber-splice_ne a c (a + 40) (word_bytes (to_word n)) mem apart (omega arith)
      (omega (arith, length-word_bytes (to_word n)))

pub entry_name-set_ne :
    (a c : ℕ) (n : ℤ) (mem : List ℕ)
    → Apart a c
    → entry_name (set_entry_inumber a n mem) c ≡ entry_name mem c
unfolding set_entry_inumber
entry_name-set_ne a c n mem apart =
    entry_name-splice_ne a c (a + 40) (word_bytes (to_word n)) mem apart (omega arith)
      (omega (arith, length-word_bytes (to_word n)))

-- The bytes of a whole new name, and the entry that holds it.
abbrev pub name_bytes : List ℕ → List ℕ
name_bytes name = strncpy_bytes 39 name ++ (0 ∷ [])

pub length-name_bytes : (name : List ℕ) → length (name_bytes name) ≡ 40
length-name_bytes name =
    omega (arith, length-append (strncpy_bytes 39 name) (0 ∷ []), length-strncpy_bytes 39 name)

abbrev pub filled : ℕ → List ℕ → ℤ → List ℕ → List ℕ
filled a bs n mem = splice a bs (set_entry_inumber a n mem)

module _ (a : ℕ) (bs : List ℕ) (n : ℤ) (mem : List ℕ) (small : IsSmall n) (whole : length bs ≡ 40)
    (inside : a + 44 ≤ length mem) where
  pub length-filled : length (filled a bs n mem) ≡ length mem
  length-filled = length-splice a bs (set_entry_inumber a n mem) ∙ length-set_entry_inumber a n mem

  pub entry_inumber-filled : entry_inumber (filled a bs n mem) a ≡ n
  unfolding entry_inumber
  entry_inumber-filled =
      ap (λ t. of_word (word_of t))
        (slice-splice_after (a + 40) 4 a bs (set_entry_inumber a n mem) (omega arith))
      ∙ entry_inumber-set_self a n mem small inside

  pub entry_name-filled : entry_name (filled a bs n mem) a ≡ bs
  unfolding entry_name
  entry_name-filled =
      ap (λ l. slice a l (filled a bs n mem)) (sym whole)
      ∙ slice-splice_self a bs (set_entry_inumber a n mem)
          (omega (arith, length-set_entry_inumber a n mem))

  pub entry_inumber-filled_ne :
      (c : ℕ) → Apart a c → entry_inumber (filled a bs n mem) c ≡ entry_inumber mem c
  entry_inumber-filled_ne c apart =
      entry_inumber-splice_ne a c a bs (set_entry_inumber a n mem) apart (omega arith) (omega arith)
      ∙ entry_inumber-set_ne a c n mem apart

  pub entry_name-filled_ne :
      (c : ℕ) → Apart a c → entry_name (filled a bs n mem) c ≡ entry_name mem c
  entry_name-filled_ne c apart =
      entry_name-splice_ne a c a bs (set_entry_inumber a n mem) apart (omega arith) (omega arith)
      ∙ entry_name-set_ne a c n mem apart

  -- The entry lies in the 44 bytes from `a` on: what ends before it and what starts behind it stays.
  pub slice-filled_before : (c l : ℕ) → c + l ≤ a → slice c l (filled a bs n mem) ≡ slice c l mem
  unfolding set_entry_inumber
  slice-filled_before c l h =
      slice-splice_before c l a bs (set_entry_inumber a n mem) h
      ∙ slice-splice_before c l (a + 40) (word_bytes (to_word n)) mem (omega arith)

  pub slice-filled_after : (c l : ℕ) → a + 44 ≤ c → slice c l (filled a bs n mem) ≡ slice c l mem
  unfolding set_entry_inumber
  slice-filled_after c l h =
      slice-splice_after c l a bs (set_entry_inumber a n mem) (omega arith)
      ∙ slice-splice_after c l (a + 40) (word_bytes (to_word n)) mem
          (omega (arith, length-word_bytes (to_word n)))
