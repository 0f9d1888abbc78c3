-- ===== src/Boxes/Add.antt =====
-- About `add_box` of mbroker/mbroker.c.
use so.Prelude.{
  ℕ, ◌+◌, ◌%◌, ◌^◌, ◌<◌, ◌≡◌, ◌⊎◌, inl, inr, refl, sym, ap, ◌∙◌, some, List, length, get_elem?,
  get_elem?-set_self, get_elem?-set_ne, set, length-set, arith, lt→ltb, subst,
}
use native.Mathlib.Decide.{ℕ_discrete}
use so.Prelude.Int.{pos, minus_one}
use so.Prelude.Run.{ok}
use so.Boxes.{Box, Boxes, find_box, add_box, set_box, lock_boxes, unlock_boxes}
use so.Boxes.Delete.{IsBoxes}
use so.Boxes.Search.{IsNamed, Found, find_box-Found}

-- The boxes with one more behind them.
abbrev pub with_box : Boxes → Box → Boxes
with_box s box = record s { boxes = set s.boxes s.n_boxes box; n_boxes = s.n_boxes + 1 }

module _ (s : Boxes) (box : Box) (inv : IsBoxes s) (room : s.n_boxes + 1 < 64) where
  abbrev after : Boxes
  after = with_box s box

  add_box-with_box : add_box box s ≡ ok tt after
  unfolding add_box lock_boxes unlock_boxes set_box
  add_box-with_box =
      let counts : (s.n_boxes + 1) % 2 ^ 64 ≡ s.n_boxes + 1 = omega arith in
      rw (
        inv.unlocked,
        lt→ltb s.n_boxes (length s.boxes) (omega (arith, inv.slots)),
        lt→ltb s.n_boxes 64 inv.count,
        counts,
      )

  new_or_old :
      (j : ℕ) (name : List ℕ)
      → IsNamed after j name
      → ((j ≡ s.n_boxes) × (box.box_name ≡ name)) ⊎ IsNamed s j name
  new_or_old j name h = elim (ℕ_discrete s.n_boxes j) [
    | yes same ↦
        let at_end : get_elem? after.boxes s.n_boxes ≡ some h.box =
          subst (λ t. get_elem? after.boxes t ≡ some h.box) (sym same) h.there in
        let put_there = get_elem?-set_self s.boxes s.n_boxes box (omega (arith, inv.slots)) in
        let one_box : box ≡ h.box = cc in
        inl (sym same, ap (λ (t : Box). t.box_name) one_box ∙ h.named)
    | no ne ↦ inr (record {
      inside = omega (arith, h.inside);
      box = h.box;
      there = sym (get_elem?-set_ne s.boxes s.n_boxes j box ne) ∙ h.there;
      named = h.named;
    })
  ]

  module _ (absent : find_box box.box_name s ≡ ok minus_one s) where
    not_there : (j : ℕ) → IsNamed s j box.box_name → ⊥
    not_there j h =
        go (find_box-Found s box.box_name (omega (arith, inv.count, inv.slots)) inv.unlocked)
      where
        go : Found s 0 box.box_name (λ r. find_box box.box_name s ≡ ok r s) → ⊥
        go (inl (r, none_there)) = none_there j (omega arith) h
        go (inr (i, r, first)) = let wrong : minus_one ≡ pos i = cc in cc

    after-IsBoxes : IsBoxes after
    after-IsBoxes = record {
      slots = length-set s.boxes s.n_boxes box ∙ inv.slots;
      count = room;
      unlocked = inv.unlocked;
      distinct = λ j k name hj hk. go j k name (new_or_old j name hj) (new_or_old k name hk);
    }
      where
        go :
            (j k : ℕ) (name : List ℕ)
            → ((j ≡ s.n_boxes) × (box.box_name ≡ name)) ⊎ IsNamed s j name
            → ((k ≡ s.n_boxes) × (box.box_name ≡ name)) ⊎ IsNamed s k name
            → j ≡ k
        go j k name (inl (p, e)) (inl (q, e')) = p ∙ sym q
        go j k name (inl (p, e)) (inr h) =
            absurd (not_there k (subst (λ t. IsNamed s k t) (sym e) h))
        go j k name (inr h) (inl (q, e)) =
            absurd (not_there j (subst (λ t. IsNamed s j t) (sym e) h))
        go j k name (inr h) (inr h') = inv.distinct j k name h h'

    -- With at most 62 boxes in use, of different names, and the mutex free, `add_box` of a box
    -- whose name `find_box` does not find returns with one box more, the names are still different,
    -- and `find_box` finds the name at the new box.
    pub add_box_lem :
        (add_box box s ≡ ok tt (with_box s box))
        × IsBoxes (with_box s box)
        × (find_box box.box_name (with_box s box) ≡ ok (pos s.n_boxes) (with_box s box))
    add_box_lem = (add_box-with_box, after-IsBoxes, go found)
      where
        found : Found after 0 box.box_name (λ r. find_box box.box_name after ≡ ok r after)
        found =
            find_box-Found after box.box_name
              (omega (arith, after-IsBoxes.count, after-IsBoxes.slots)) inv.unlocked

        new_one : IsNamed after s.n_boxes box.box_name
        new_one = record {
          inside = omega arith;
          box = box;
          there = get_elem?-set_self s.boxes s.n_boxes box (omega (arith, inv.slots));
          named = refl;
        }

        go :
            Found after 0 box.box_name (λ r. find_box box.box_name after ≡ ok r after)
            → find_box box.box_name after ≡ ok (pos s.n_boxes) after
        go (inl (r, none_there)) = absurd (none_there s.n_boxes (omega arith) new_one)
        go (inr (i, r, first)) =
            let same : i ≡ s.n_boxes =
              after-IsBoxes.distinct i s.n_boxes box.box_name first.1 new_one in
            r ∙ ap (λ t. ok (pos t) after) same
