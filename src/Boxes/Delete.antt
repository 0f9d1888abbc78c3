-- ===== src/Boxes/Delete.antt =====
-- About `delete_box` of mbroker/mbroker.c.
use so.Prelude.{
  ℕ, ◌+◌, ◌-◌, ◌%◌, ◌^◌, ◌<◌, ◌≡◌, ◌≢◌, ◌⊎◌, inl, inr, refl, sym, ap, ◌∙◌, true, false, some, List,
  length, get_elem?, get_elem?-set_self, get_elem?-set_ne, set, length-set, arith, lt→ltb, subst,
}
use native.Mathlib.Decide.{ℕ_discrete}
use so.Prelude.Int.{pos, minus_one}
use so.Prelude.Run.{ok}
use so.Boxes.{
  Box, Boxes, moved_over, find_box, delete_box, box_at, set_box, lock_boxes, unlock_boxes,
}
use so.Boxes.Search.{IsNamed, Found, find_box-Found}

-- The array has `MAX_BOXES` entries, of which one at least is not in use, no two boxes in use have
-- the same name, and `mutex` is free.
abbrev pub IsDistinct : Boxes → Type 0
IsDistinct s = (j k : ℕ) (name : List ℕ) → IsNamed s j name → IsNamed s k name → j ≡ k

pub record IsBoxes (s : Boxes) : Type 0 where
  pub slots : length s.boxes ≡ 64
  pub count : s.n_boxes < 64
  pub unlocked : s.mutex_locked ≡ false
  pub distinct : IsDistinct s

-- The boxes behind the deletion of box `i`, which is `b`, where the last one is `e`.
abbrev pub deleted : Boxes → ℕ → Box → Box → Boxes
deleted s i b e = record s {
  boxes = set (set s.boxes i (moved_over e b)) (s.n_boxes - 1) (moved_over b e);
  n_boxes = s.n_boxes - 1;
}

module _ (s : Boxes) (i : ℕ) (b e : Box) (inv : IsBoxes s) (inside : i < s.n_boxes)
    (there : get_elem? s.boxes i ≡ some b)
    (at_end : get_elem? s.boxes (s.n_boxes - 1) ≡ some e) where
  abbrev after : Boxes
  after = deleted s i b e

  box_at-ok : (t : Boxes) (k : ℕ) (x : Box) → get_elem? t.boxes k ≡ some x → box_at k t ≡ ok x t
  unfolding box_at
  box_at-ok t k x h = rw (h, box_at)

  delete_box-deleted : delete_box i s ≡ ok tt after
  unfolding delete_box lock_boxes unlock_boxes set_box
  delete_box-deleted =
      let wraps : (s.n_boxes + 2 ^ 64 - 1) % 2 ^ 64 ≡ s.n_boxes - 1 = omega (arith, inv.count) in
      let held : Boxes = record s { mutex_locked = true } in
      rw (
        inv.unlocked,
        wraps,
        box_at-ok held i b there,
        box_at-ok held (s.n_boxes - 1) e at_end,
        lt→ltb i (length s.boxes) (omega (arith, inv.count, inv.slots)),
        lt→ltb (s.n_boxes - 1) (length (set s.boxes i (moved_over e b)))
            (omega (arith, inv.count, inv.slots, length-set s.boxes i (moved_over e b))),
        lt→ltb s.n_boxes 64 inv.count,
      )

  -- Behind the last but one place nothing has changed but box `i`, which is the last one moved.
  at_i : i < s.n_boxes - 1 → get_elem? after.boxes i ≡ some (moved_over e b)
  at_i before =
      get_elem?-set_ne (set s.boxes i (moved_over e b)) (s.n_boxes - 1) i (moved_over b e)
        (λ p. absurd (omega arith))
      ∙ get_elem?-set_self s.boxes i (moved_over e b) (omega (arith, inv.count, inv.slots))

  at_other : (j : ℕ) → i ≢ j → j < s.n_boxes - 1 → get_elem? after.boxes j ≡ get_elem? s.boxes j
  at_other j ne before =
      get_elem?-set_ne (set s.boxes i (moved_over e b)) (s.n_boxes - 1) j (moved_over b e)
        (λ p. absurd (omega arith))
      ∙ get_elem?-set_ne s.boxes i j (moved_over e b) ne

  -- A name that is left was there before, and its box is the old one or the last one moved.
  was-IsNamed :
      (j : ℕ) (name : List ℕ)
      → IsNamed after j name
      → ((i ≡ j) × IsNamed s (s.n_boxes - 1) name) ⊎ ((i ≢ j) × IsNamed s j name)
  was-IsNamed j name h = elim (ℕ_discrete i j) [
    | yes same ↦
        let at_j : get_elem? after.boxes i ≡ some h.box =
          subst (λ t. get_elem? after.boxes t ≡ some h.box) (sym same) h.there in
        let moved = at_i (omega (arith, h.inside)) in
        let one_box : moved_over e b ≡ h.box = cc in
        inl (
          same,
          record {
            inside = omega arith;
            box = e;
            there = at_end;
            named = ap (λ (t : Box). t.box_name) one_box ∙ h.named;
          },
        )
    | no ne ↦ inr (
      ne,
      record {
        inside = omega (arith, h.inside);
        box = h.box;
        there = sym (at_other j ne (h.inside)) ∙ h.there;
        named = h.named;
      },
    )
  ]

  -- A name other than the after one is left.
  still-IsNamed :
      (j : ℕ) (name : List ℕ)
      → name ≢ b.box_name
      → IsNamed s j name
      → (k : ℕ) × IsNamed after k name
  still-IsNamed j name ne h = elim (ℕ_discrete i j) [
    | yes same ↦
        let at_i' : get_elem? s.boxes i ≡ some h.box =
          subst (λ t. get_elem? s.boxes t ≡ some h.box) (sym same) h.there in
        let one_box : h.box ≡ b = cc in
        absurd (ne (sym h.named ∙ ap (λ (t : Box). t.box_name) one_box))
    | no differ ↦ elim (ℕ_discrete j (s.n_boxes - 1)) [
      | yes last ↦
          let at_j : get_elem? s.boxes (s.n_boxes - 1) ≡ some h.box =
            subst (λ t. get_elem? s.boxes t ≡ some h.box) last h.there in
          let one_box : e ≡ h.box = cc in
          (
            i,
            record {
              inside = omega (arith, h.inside);
              box = moved_over e b;
              there = at_i (omega (arith, h.inside));
              named = ap (λ (t : Box). t.box_name) one_box ∙ h.named;
            },
          )
      | no middle ↦ (
        j,
        record {
          inside = omega (arith, h.inside);
          box = h.box;
          there = at_other j differ (omega (arith, h.inside)) ∙ h.there;
          named = h.named;
        },
      )
    ]
  ]

  deleted_one : IsNamed s i b.box_name
  deleted_one = record { inside = inside; box = b; there = there; named = refl }

  -- The after name is gone.
  not_named : (j : ℕ) → IsNamed after j b.box_name → ⊥
  not_named j h = go (was-IsNamed j b.box_name h)
    where
      go : ((i ≡ j) × IsNamed s (s.n_boxes - 1) b.box_name) ⊎ ((i ≢ j) × IsNamed s j b.box_name) → ⊥
      go (inl (same, last)) =
          let end : i ≡ s.n_boxes - 1 =
            inv.distinct i (s.n_boxes - 1) b.box_name deleted_one last in
          absurd (omega (arith, h.inside))
      go (inr (ne, old)) = ne (inv.distinct i j b.box_name deleted_one old)

  after-IsBoxes : IsBoxes after
  after-IsBoxes = record {
    slots =
        length-set (set s.boxes i (moved_over e b)) (s.n_boxes - 1) (moved_over b e)
        ∙ length-set s.boxes i (moved_over e b)
        ∙ inv.slots;
    count = omega (arith, inv.count);
    unlocked = inv.unlocked;
    distinct = λ j k name hj hk. go j k name hj hk (was-IsNamed j name hj) (was-IsNamed k name hk);
  }
    where
      go :
          (j k : ℕ) (name : List ℕ)
          → IsNamed after j name
          → IsNamed after k name
          → ((i ≡ j) × IsNamed s (s.n_boxes - 1) name) ⊎ ((i ≢ j) × IsNamed s j name)
          → ((i ≡ k) × IsNamed s (s.n_boxes - 1) name) ⊎ ((i ≢ k) × IsNamed s k name)
          → j ≡ k
      go j k name hj hk (inl (p, h)) (inl (q, h')) = sym p ∙ q
      go j k name hj hk (inl (p, h)) (inr (q, h')) =
          let end : s.n_boxes - 1 ≡ k = inv.distinct (s.n_boxes - 1) k name h h' in
          absurd (omega (arith, hk.inside))
      go j k name hj hk (inr (p, h)) (inl (q, h')) =
          let end : s.n_boxes - 1 ≡ j = inv.distinct (s.n_boxes - 1) j name h' h in
          absurd (omega (arith, hj.inside))
      go j k name hj hk (inr (p, h)) (inr (q, h')) = inv.distinct j k name h h'

  -- With at most 63 boxes in use, of different names, and the mutex free, `delete_box` of one of
  -- them returns with one box less, the names left are different, and `find_box` does not find the
  -- deleted box's name.
  pub delete_box_lem :
      (delete_box i s ≡ ok tt (deleted s i b e))
      × IsBoxes (deleted s i b e)
      × (find_box b.box_name (deleted s i b e) ≡ ok minus_one (deleted s i b e))
  delete_box_lem = (delete_box-deleted, after-IsBoxes, go found)
    where
      found : Found after 0 b.box_name (λ r. find_box b.box_name after ≡ ok r after)
      found =
          find_box-Found after b.box_name (omega (arith, after-IsBoxes.count, after-IsBoxes.slots))
            inv.unlocked

      go :
          Found after 0 b.box_name (λ r. find_box b.box_name after ≡ ok r after)
          → find_box b.box_name after ≡ ok minus_one after
      go (inl (r, none_there)) = r
      go (inr (k, r, first)) = absurd (not_named k first.1)

  -- Every other name that was found is found, at a box of that name.
  pub find_box-deleted :
      (name : List ℕ) (j : ℕ)
      → name ≢ b.box_name
      → find_box name s ≡ ok (pos j) s
      → (k : ℕ) × (find_box name (deleted s i b e) ≡ ok (pos k) (deleted s i b e))
        × IsNamed (deleted s i b e) k name
  find_box-deleted name j ne before =
      go (find_box-Found s name (omega (arith, inv.count, inv.slots)) inv.unlocked) (
        find_box-Found after name (omega (arith, after-IsBoxes.count, after-IsBoxes.slots))
          inv.unlocked)
    where
      go :
          Found s 0 name (λ r. find_box name s ≡ ok r s)
          → Found after 0 name (λ r. find_box name after ≡ ok r after)
          → (k : ℕ) × (find_box name after ≡ ok (pos k) after) × IsNamed after k name
      go (inl (r, none_there)) then_found = absurd (let wrong : minus_one ≡ pos j = cc in cc)
      go (inr (j', r, first)) (inr (k, r', first')) = (k, r', first'.1)
      go (inr (j', r, first)) (inl (r', none_left)) =
          let (k, left) = still-IsNamed j' name ne first.1 in
          absurd (none_left k (omega arith) left)

  -- With at most 63 boxes in use, of different names, and the mutex free, `delete_box` of one of
  -- them returns, and every other name that `find_box` found before it finds behind it, at a box in
  -- use of that name.
  pub find_box-delete_box :
      (name : List ℕ) (j : ℕ)
      → name ≢ b.box_name
      → find_box name s ≡ ok (pos j) s
      → (s' : Boxes) × (k : ℕ) × (delete_box i s ≡ ok tt s')
        × (find_box name s' ≡ ok (pos k) s')
        × IsNamed s' k name
  find_box-delete_box name j ne before =
      let (k, found, is_named) = find_box-deleted name j ne before in
      (deleted s i b e, k, delete_box-deleted, found, is_named)

  -- With at most 63 boxes in use, of different names, and the mutex free, `delete_box` of one that
  -- is not the last returns, and its place holds a box with the name, the sizes, the publisher and
  -- the number of subscribers of the last one, but with the list of subscribers and the subscriber
  -- index of the deleted box.
  pub delete_box-subscribers :
      i < s.n_boxes - 1
      → (s' : Boxes) × (c : Box) × (delete_box i s ≡ ok tt s')
        × (get_elem? s'.boxes i ≡ some c)
        × (c.box_name ≡ e.box_name)
        × (c.box_size ≡ e.box_size)
        × (c.publisher ≡ e.publisher)
        × (c.n_publishers ≡ e.n_publishers)
        × (c.n_subscribers ≡ e.n_subscribers)
        × (c.subscribers ≡ b.subscribers)
        × (c.subscriber_index ≡ b.subscriber_index)
  delete_box-subscribers before = (
    deleted s i b e,
    moved_over e b,
    delete_box-deleted,
    at_i before,
    refl,
    refl,
    refl,
    refl,
    refl,
    refl,
    refl,
  )
