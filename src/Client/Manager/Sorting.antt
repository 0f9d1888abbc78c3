-- ===== src/Client/Manager/Sorting.antt =====
-- The listing that the manager prints: every box that the broker sent, in the order of their names.
use so.Prelude.{
  ℕ, zero, suc, ◌<◌, ◌≡◌, ◌≢◌, refl, Bool, true, false, some, List, [], ◌∷◌, length, ltb, lt→ltb,
  ◌==◌, arith,
}
use mathlib.Core.List.{Perm, Pairwise, Pairwise-singleton}
use mathlib.Core.List.Perm
use native.Mathlib.Decide.{dec_lt}
use so.Prelude.Int.{ℤ, pos, negsuc}
use so.Prelude.Run.{ok}
use so.Boxes.{Box}
use so.Client.{Client}
use so.Client.Manager.{strcmp, compare_structs, Qsort, read_boxes, lines_of, list_reply}

-- The order of a dictionary on names, which sets a name before those that it begins.
pub data IsBefore : List ℕ → List ℕ → Type 0 where
  ends : {t : List ℕ} → IsBefore [] t
  smaller : {c d : ℕ} {s t : List ℕ} → c < d → IsBefore (c ∷ s) (d ∷ t)
  goes_on : {c d : ℕ} {s t : List ℕ} → c ≡ d → IsBefore s t → IsBefore (c ∷ s) (d ∷ t)

-- In the order of the names.
abbrev pub IsSorted : List Box → Type 0
IsSorted = Pairwise (λ (a b : Box). IsBefore a.box_name b.box_name)

-- A comparison whose result is not positive.
abbrev pub is_most : ℤ → Bool
is_most (pos zero) = true
is_most (pos (suc n)) = false
is_most (negsuc n) = true

-- What `qsort` asks of a comparison.
pub record IsComparison (compare : Box → Box → ℤ) : Type 0 where
  pub total : (a b : Box) → is_most (compare a b) ≡ false → is_most (compare b a) ≡ true
  pub trans :
      (a b c : Box)
      → is_most (compare a b) ≡ true
      → is_most (compare b c) ≡ true
      → is_most (compare a c) ≡ true

-- What the C standard says of `qsort`: it permutes the array, so that no element is compared as
-- greater to a later one.
abbrev pub IsQsort : Qsort → Type 0
IsQsort qsort =
    (compare : Box → Box → ℤ) (boxes : List Box)
    → IsComparison compare
    → Perm (qsort compare boxes) boxes
      × Pairwise (λ (a b : Box). is_most (compare a b) ≡ true) (qsort compare boxes)

strcmp_total : (s t : List ℕ) → is_most (strcmp s t) ≡ false → is_most (strcmp t s) ≡ true
unfolding strcmp
strcmp_total [] [] h = refl
strcmp_total [] (d ∷ t) h = absurd (let wrong = h in cc)
strcmp_total (c ∷ s) [] h = refl
strcmp_total (c ∷ s) (d ∷ t) h = ground (arith, strcmp_total s t)

strcmp_trans :
    (s t u : List ℕ)
    → is_most (strcmp s t) ≡ true
    → is_most (strcmp t u) ≡ true
    → is_most (strcmp s u) ≡ true
unfolding strcmp
strcmp_trans [] t [] h k = refl
strcmp_trans [] t (e ∷ u) h k = refl
strcmp_trans (c ∷ s) [] u h k = absurd (let wrong = h in cc)
strcmp_trans (c ∷ s) (d ∷ t) [] h k = absurd (let wrong = k in cc)
strcmp_trans (c ∷ s) (d ∷ t) (e ∷ u) h k = ground (arith, strcmp_trans s t u)

strcmp-IsBefore : (s t : List ℕ) → is_most (strcmp s t) ≡ true → IsBefore s t
unfolding strcmp
strcmp-IsBefore [] t h = ends
strcmp-IsBefore (c ∷ s) [] h = absurd (let wrong = h in cc)
strcmp-IsBefore (c ∷ s) (d ∷ t) h = elim (dec_lt c d) [
  | yes less ↦ smaller less
  | no not_less ↦
      let same : c ≡ d = ground arith in
      let rest : is_most (strcmp s t) ≡ true = ground arith in
      goes_on same (strcmp-IsBefore s t rest)
]

compare_structs-IsComparison : IsComparison compare_structs
compare_structs-IsComparison = record {
  total = λ a b. strcmp_total a.box_name b.box_name;
  trans = λ a b c. strcmp_trans a.box_name b.box_name c.box_name;
}

most-IsSorted :
    {boxes : List Box}
    → Pairwise (λ (a b : Box). is_most (compare_structs a b) ≡ true) boxes
    → IsSorted boxes
most-IsSorted Pairwise.nil = Pairwise.nil
most-IsSorted (Pairwise.cons {a = a} below sorted) =
    Pairwise.cons (λ x m. strcmp-IsBefore a.box_name x.box_name (below x m)) (most-IsSorted sorted)

-- The boxes that come through the pipe behind the first, up to the one whose `last` is 1.
abbrev pub IsListing : Box → List Box → Type 0
IsListing box [] = box.last ≡ 1
IsListing box (next ∷ input) = (box.last ≢ 1) × IsListing next input

read_boxes-all :
    (room : ℕ) (box : Box) (input : List Box) (c : Client)
    → IsListing box input
    → length input < room
    → read_boxes room box input c ≡ ok (box ∷ input) c
unfolding read_boxes
read_boxes-all zero box input c all fits = absurd (omega arith)
read_boxes-all (suc room) box [] c all fits =
    let end : (box.last == 1) ≡ true = ground arith in rw end
read_boxes-all (suc room) box (next ∷ input) c (not_last, all) fits =
    let more : (box.last == 1) ≡ false = ground arith in
    rw (more, read_boxes-all room next input c all (omega arith))

-- Let `qsort` permute an array so that no element is compared as greater to a later one, for every
-- comparison that is total and transitive. Let at most 64 boxes come through the manager's pipe, the
-- last of them and no other with a `last` of 1, and let the first have a name. Then the manager
-- reads them all and prints a line for each, in the order of a dictionary by their names: what it
-- prints is a permutation of what came.
pub list_reply-IsSorted :
    (qsort : Qsort) (box : Box) (input : List Box) (c : Client)
    → IsQsort qsort
    → IsListing box input
    → length input < 64
    → 0 < length box.box_name
    → (sorted : List Box) × (list_reply qsort box input c ≡ ok (some (lines_of sorted)) c)
      × IsSorted sorted
      × Perm sorted (box ∷ input)
unfolding list_reply
list_reply-IsSorted qsort box [] c sorts all fits has_name =
    let named : (length box.box_name == 0) ≡ false = ground arith in
    let end : (box.last == 1) ≡ true = ground arith in
    (
      box ∷ [],
      rw (named, end, read_boxes-all 64 box [] c all fits),
      Pairwise-singleton _ box,
      Perm.rfl,
    )
list_reply-IsSorted qsort box (next ∷ input) c sorts all fits has_name =
    let more : (box.last == 1) ≡ false = let ne = all.0 in ground arith in
    let several : ltb 1 (suc (suc (length input))) ≡ true =
      lt→ltb 1 (suc (suc (length input))) (omega arith) in
    let (perm, sorted) =
      sorts compare_structs (box ∷ (next ∷ input)) compare_structs-IsComparison in
    (
      qsort compare_structs (box ∷ (next ∷ input)),
      rw (more, read_boxes-all 64 box (next ∷ input) c all fits, several),
      most-IsSorted sorted,
      perm,
    )
