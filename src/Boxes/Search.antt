-- ===== src/Boxes/Search.antt =====
-- About `find_box` of mbroker/mbroker.c.
use so.Prelude.{
  ℕ, zero, suc, ◌+◌, ◌≤◌, ◌<◌, ◌≡◌, ◌≢◌, ◌⊎◌, inl, inr, refl, sym, ap, ◌∙◌, true, false, some, List,
  [], ◌∷◌, length, get_elem?, get_elem?_of_lt, arith, Bool-cases, ◌==◌, subst,
}
use native.Mathlib.Decide.{ℕ_discrete}
use so.Prelude.Int.{ℤ, pos, minus_one}
use so.Prelude.Run.{ok}
use so.Boxes.{Box, Boxes, same_text, find_from, find_box, lock_boxes, unlock_boxes}

pub same_text-eq : (s t : List ℕ) → same_text s t ≡ true → s ≡ t
unfolding same_text
same_text-eq [] [] h = refl
same_text-eq [] (d ∷ t) h = absurd (let no = h in cc)
same_text-eq (c ∷ s) [] h = absurd (let no = h in cc)
same_text-eq (c ∷ s) (d ∷ t) h = elim (Bool-cases (c == d)) [
  | inr ne ↦ absurd (let wrong : false ≡ true = rw ne at h in cc)
  | inl eq ↦
      let head : c ≡ d = ground arith in let tail : s ≡ t = same_text-eq s t (rw eq at h) in cc
]

pub same_text_self : (s : List ℕ) → same_text s s ≡ true
unfolding same_text
same_text_self [] = refl
same_text_self (c ∷ s) = let same : (c == c) ≡ true = ground arith in rw same (same_text_self s)

pub same_text_ne : (s t : List ℕ) → s ≢ t → same_text s t ≡ false
same_text_ne s t ne = elim (Bool-cases (same_text s t)) [
  | inl e ↦ absurd (ne (same_text-eq s t e))
  | inr e ↦ e
]

-- Box `i` is in use under this name.
pub record IsNamed (s : Boxes) (i : ℕ) (name : List ℕ) : Type 0 where
  pub inside : i < s.n_boxes
  pub box : Box
  pub there : get_elem? s.boxes i ≡ some box
  pub named : box.box_name ≡ name

-- `i` is the first of the boxes from `from` on with this name.
abbrev pub FirstNamed : Boxes → ℕ → ℕ → List ℕ → Type 0
FirstNamed s from i name =
    (from ≤ i) × IsNamed s i name × ((j : ℕ) → from ≤ j → j < i → IsNamed s j name → ⊥)

abbrev pub Found : Boxes → ℕ → List ℕ → (ℤ → Type 0) → Type 0
Found s from name Result =
    (Result minus_one × ((j : ℕ) → from ≤ j → IsNamed s j name → ⊥))
    ⊎ ((i : ℕ) × Result (pos i) × FirstNamed s from i name)

module _ (s : Boxes) (name : List ℕ) (bounded : s.n_boxes ≤ length s.boxes) where
  not_here :
      (i : ℕ) (b : Box)
      → get_elem? s.boxes i ≡ some b
      → same_text b.box_name name ≡ false
      → IsNamed s i name
      → ⊥
  not_here i b there miss h =
      let at_i = h.there in
      let same : h.box ≡ b = cc in
      let hit : same_text b.box_name name ≡ true =
        subst (λ t. same_text t name ≡ true) (sym h.named ∙ ap (λ (t : Box). t.box_name) same)
          (same_text_self name) in
      cc

  find_from-Found :
      (n i : ℕ) → i + n ≡ s.n_boxes → Found s i name (λ r. find_from s.boxes name n i ≡ some r)
  unfolding find_from
  find_from-Found zero i end = inl (refl, λ j lo h. absurd (omega (arith, h.inside)))
  find_from-Found (suc n) i end =
      let (b, there) = get_elem?_of_lt s.boxes i (omega arith) in
      go b there (Bool-cases (same_text b.box_name name)) (find_from-Found n (i + 1) (omega arith))
    where
      later :
          (b : Box)
          → get_elem? s.boxes i ≡ some b
          → same_text b.box_name name ≡ false
          → (j : ℕ) → i ≤ j
          → IsNamed s j name
          → (i + 1 ≤ j → IsNamed s j name → ⊥)
          → ⊥
      later b there miss j lo h behind = elim (ℕ_discrete i j) [
        | yes e ↦ not_here i b there miss (subst (λ t. IsNamed s t name) (sym e) h)
        | no ne ↦ behind (omega arith) h
      ]

      go :
          (b : Box)
          → get_elem? s.boxes i ≡ some b
          → (same_text b.box_name name ≡ true) ⊎ (same_text b.box_name name ≡ false)
          → Found s (i + 1) name (λ r. find_from s.boxes name n (i + 1) ≡ some r)
          → Found s i name (λ r. find_from s.boxes name (suc n) i ≡ some r)
      go b there (inl hit) rest = inr (
        i,
        rw (there, hit, find_from),
        (
          omega arith,
          record {
            inside = omega arith;
            box = b;
            there = there;
            named = same_text-eq b.box_name name hit;
          },
          λ j lo hi h. absurd (omega arith),
        ),
      )
      go b there (inr miss) (inl (e, none_there)) =
          inl (rw (there, miss, find_from) e, λ j lo h. later b there miss j lo h (none_there j))
      go b there (inr miss) (inr (k, e, (lo', named, before))) = inr (
        k,
        rw (there, miss, find_from) e,
        (omega arith, named, λ j lo hi h. later b there miss j lo h (λ lo''. before j lo'' hi)),
      )

  -- With the mutex free and `n_boxes` within the array, `find_box` returns the index of the first
  -- box of the name, or -1 where no box has it, and leaves the boxes as they are.
  pub find_box-Found : s.mutex_locked ≡ false → Found s 0 name (λ r. find_box name s ≡ ok r s)
  unfolding find_box lock_boxes unlock_boxes
  find_box-Found free = go (find_from-Found s.n_boxes 0 (omega arith))
    where
      go :
          Found s 0 name (λ r. find_from s.boxes name s.n_boxes 0 ≡ some r)
          → Found s 0 name (λ r. find_box name s ≡ ok r s)
      go (inl (e, none_there)) = inl (rw (free, e), none_there)
      go (inr (i, e, first)) = inr (i, rw (free, e), first)
