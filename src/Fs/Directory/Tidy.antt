-- ===== src/Fs/Directory/Tidy.antt =====
-- What `clear_dir_entry` needs of a directory block to clear the entry that `find_in_dir` finds.
use so.Prelude.{
  ℕ, zero, suc, ◌+◌, ◌*◌, ◌≤◌, ◌<◌, ◌≡◌, refl, ap, ◌∙◌, ◌⊎◌, inl, inr, Bool, true, false, some,
  List, [], ◌∷◌, length, drop, length-drop, replicate, arith, Bool-cases,
}
use native.Mathlib.Decide.{dec_lt}
use so.Prelude.Int.{pos, minus_one}
use so.Prelude.Bytes.{slice, strcmp_eq, strncmp_eq}
use so.Fs.Directory.{entry_at, entry_inumber, entry_name, clear_loop}
use so.Fs.Directory.Entries.{filled}
use so.Fs.Directory.Names.{IsName}
use so.Fs.Directory.Search.{First, names, is_empty}

-- `strcmp` with a name of less than `n` bytes reads no further than `strncmp` over `n` bytes.
strcmp_eq-take :
    (n : ℕ) (bs name : List ℕ)
    → length name < n
    → n ≤ length bs
    → strcmp_eq bs name ≡ strncmp_eq n (slice 0 n bs) name
unfolding strcmp_eq strncmp_eq
strcmp_eq-take zero bs name h k = absurd (omega arith)
strcmp_eq-take (suc n) [] name h k = absurd (omega arith)
strcmp_eq-take (suc n) (b ∷ bs) [] h k = refl
strcmp_eq-take (suc n) (b ∷ bs) (c ∷ name) h k =
    rw (strcmp_eq-take n bs name (omega arith) (omega arith))

-- The entry's name bytes are this string, whether the entry is in use or not.
abbrev pub spells : List ℕ → ℕ → List ℕ → ℕ → Bool
spells mem base name i = strncmp_eq 40 (entry_name mem (entry_at base i)) name

strcmp_eq-spells :
    (mem : List ℕ) (base : ℕ) (name : List ℕ) (i : ℕ)
    → length name < 40
    → entry_at base i + 44 ≤ length mem
    → strcmp_eq (drop (entry_at base i) mem) name ≡ spells mem base name i
unfolding entry_name
strcmp_eq-spells mem base name i short inside =
    strcmp_eq-take 40 (drop (entry_at base i) mem) name short
      (omega (arith, length-drop (entry_at base i) mem))

-- An array in which entry `k` is cleared.
abbrev pub cleared : ℕ → ℕ → List ℕ → List ℕ
cleared base k mem = filled (entry_at base k) (replicate 40 0) minus_one mem

-- `clear_dir_entry` clears the first entry that spells the name.
pub clear_loop-cleared :
    (mem : List ℕ) (base : ℕ) (name : List ℕ) (n i k : ℕ)
    → length name < 40
    → base + (i + n) * 44 ≤ length mem
    → First (spells mem base name) i k
    → k < i + n
    → clear_loop mem base name n i ≡ some (cleared base k mem)
unfolding clear_loop
clear_loop-cleared mem base name zero i k short inside f h = absurd (omega (arith, f.from))
clear_loop-cleared mem base name (suc n) i k short inside f h = elim (dec_lt i k) [
  | no here ↦
      let same : i ≡ k = omega (arith, f.from) in
      let hit : strcmp_eq (drop (entry_at base i) mem) name ≡ true =
        strcmp_eq-spells mem base name i short (omega arith)
        ∙ ap (spells mem base name) same
        ∙ f.passes in
      rw hit (ap (λ t. some (cleared base t mem)) same)
  | yes later ↦
      let miss : strcmp_eq (drop (entry_at base i) mem) name ≡ false =
        strcmp_eq-spells mem base name i short (omega arith) ∙ f.before i (omega arith) later in
      let rest : First (spells mem base name) (i + 1) k = record {
        from = omega arith;
        passes = f.passes;
        before = λ j lo hi. f.before j (omega arith) hi;
      } in
      rw miss (clear_loop-cleared mem base name n (i + 1) k short (omega arith) rest (omega arith))
]

-- The entries of a directory block of `n` entries: a name is in one entry at most, an inode too,
-- and an entry that is empty in front of one in use spells no name.
pub record IsTidy (mem : List ℕ) (base n : ℕ) : Type 0 where
  pub one_entry :
      (name : List ℕ) (i j : ℕ)
      → IsName name
      → i < n
      → j < n
      → names mem base name i ≡ true
      → names mem base name j ≡ true
      → i ≡ j
  pub one_name :
      (i j k : ℕ)
      → i < n
      → j < n
      → entry_inumber mem (entry_at base i) ≡ pos k
      → entry_inumber mem (entry_at base j) ≡ pos k
      → i ≡ j
  pub clear :
      (name : List ℕ) (i j : ℕ)
      → IsName name
      → i < j
      → j < n
      → is_empty mem base i ≡ true
      → is_empty mem base j ≡ false
      → spells mem base name i ≡ false

-- In a tidy block the first entry that spells a name in use is the one in use.
pub First-spells :
    (mem : List ℕ) (base : ℕ) (name : List ℕ) (n k : ℕ)
    → IsTidy mem base n
    → IsName name
    → First (names mem base name) 0 k
    → k < n
    → First (spells mem base name) 0 k
First-spells mem base name n k tidy is_name f h = record {
  from = omega arith;
  passes = ground arith;
  before = λ j lo hi. before j lo hi (Bool-cases (is_empty mem base j));
}
  where
    before :
        (j : ℕ)
        → 0 ≤ j
        → j < k
        → (is_empty mem base j ≡ true) ⊎ (is_empty mem base j ≡ false)
        → spells mem base name j ≡ false
    before j lo hi (inl empty) =
        tidy.clear name j k is_name hi h empty (let passes = f.passes in ground arith)
    before j lo hi (inr used) = let fails = f.before j lo hi in ground arith
