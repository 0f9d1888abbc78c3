-- ===== src/Client/Samples.antt =====
-- A `qsort`, by insertion.
use so.Prelude.{◌≡◌, inl, inr, true, List, [], ◌∷◌, Bool-cases, if◌then◌else◌}
use mathlib.Core.List.{Mem, Perm, Pairwise, Pairwise-singleton, forall_mem-cons}
use mathlib.Core.List.Perm
use so.Prelude.Int.{ℤ}
use so.Boxes.{Box}
use so.Client.Manager.{Qsort}
use so.Client.Manager.Sorting.{is_most, IsComparison, IsQsort}

module _ (compare : Box → Box → ℤ) where
  unfoldable pub insert_sorted : Box → List Box → List Box
  insert_sorted box [] = box ∷ []
  insert_sorted box (b ∷ boxes) =
      let rest = insert_sorted box boxes in
      if is_most (compare box b) then box ∷ (b ∷ boxes) else b ∷ rest

  abbrev AreInOrder : List Box → Type 0
  AreInOrder = Pairwise (λ (a b : Box). is_most (compare a b) ≡ true)

  abbrev IsBelow : Box → List Box → Type 0
  IsBelow a boxes = (x : Box) → Mem x boxes → is_most (compare a x) ≡ true

  IsBelow-cons :
      (a b : Box) (boxes : List Box)
      → is_most (compare a b) ≡ true
      → IsBelow a boxes
      → IsBelow a (b ∷ boxes)
  IsBelow-cons a b boxes le below = (forall_mem-cons (λ x. hlevel)).1 (le, below)

  insert_sorted-perm : (b : Box) (boxes : List Box) → Perm (insert_sorted b boxes) (b ∷ boxes)
  unfolding insert_sorted
  insert_sorted-perm b [] = Perm.rfl
  insert_sorted-perm b (x ∷ boxes) = elim (Bool-cases (is_most (compare b x))) [
    | inl le ↦ rw le Perm.rfl
    | inr above ↦
        rw above (Perm.trans (Perm.cons x (insert_sorted-perm b boxes)) (Perm.swap b x boxes))
  ]

  insert_sorted-AreInOrder :
      (b : Box) {boxes : List Box}
      → IsComparison compare
      → AreInOrder boxes
      → AreInOrder (insert_sorted b boxes)
  unfolding insert_sorted
  insert_sorted-AreInOrder b is Pairwise.nil = Pairwise-singleton _ b
  insert_sorted-AreInOrder b is (Pairwise.cons {a = x} {l = boxes} below sorted) =
      elim (Bool-cases (is_most (compare b x))) [
        | inl le ↦ rw le (Pairwise.cons (at_head le) (Pairwise.cons below sorted))
        | inr above ↦ rw above (
            Pairwise.cons
              (λ y m.
                IsBelow-cons x b boxes (is.total b x above) below y
                  ((Perm.mem_iff (insert_sorted-perm b boxes)).0 m))
              (insert_sorted-AreInOrder b is sorted))
      ]
    where
      at_head : is_most (compare b x) ≡ true → IsBelow b (x ∷ boxes)
      at_head le = IsBelow-cons b x boxes le (λ y m. is.trans b x y le (below y m))

unfoldable pub insertion_sort : Qsort
insertion_sort compare [] = []
insertion_sort compare (b ∷ boxes) = insert_sorted compare b (insertion_sort compare boxes)

pub insertion_sort-IsQsort : IsQsort insertion_sort
unfolding insertion_sort
insertion_sort-IsQsort compare [] is = (Perm.rfl, Pairwise.nil)
insertion_sort-IsQsort compare (b ∷ boxes) is =
    let (perm, sorted) = insertion_sort-IsQsort compare boxes is in
    (
      Perm.trans (insert_sorted-perm compare b (insertion_sort compare boxes)) (Perm.cons b perm),
      insert_sorted-AreInOrder compare b is sorted,
    )
