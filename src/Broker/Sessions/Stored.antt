-- ===== src/Broker/Sessions/Stored.antt =====
-- The box that a session works on, and the messages in its file.
use so.Prelude.{
  ℕ, zero, suc, ◌+◌, ◌%◌, ◌^◌, ◌<◌, ◌≡◌, refl, ap, ◌∙◌, false, none, some, List, [], ◌∷◌, ◌++◌,
  length, get_elem?, get_elem?-set_ne, get_elem?-set_self, lt_of_get_elem?, set, lt→ltb, subst,
  Option,
}
use native.Mathlib.Decide.{ℕ_discrete}
use so.Prelude.Int.{pos}
use so.Prelude.Run.{ok}
use so.Boxes.{Box, Boxes, find_from, find_box, lock_boxes, unlock_boxes, box_at, set_box}
use so.Broker.Sessions.{grow_box}

-- Messages as a box's file holds them: each with its terminator.
abbrev pub stored : List (List ℕ) → List ℕ
stored [] = []
stored (m ∷ ms) = m ++ (0 ∷ stored ms)

-- How many bytes the messages have, without the terminators.
abbrev pub total : List (List ℕ) → ℕ
total [] = 0
total (m ∷ ms) = length m + total ms

-- The boxes' mutex is free, and the name is found at box `i`, of this size.
pub record HasBox (s : Boxes) (name : List ℕ) (i size : ℕ) : Type 0 where
  pub unlocked : s.mutex_locked ≡ false
  pub found : find_from s.boxes name s.n_boxes 0 ≡ some (pos i)
  pub inside : i < 64
  pub box : Box
  pub there : get_elem? s.boxes i ≡ some box
  pub box_size : box.box_size ≡ size

pub HasBox-find_box :
    (s : Boxes) (name : List ℕ) (i size : ℕ) → HasBox s name i size → find_box name s ≡ ok (pos i) s
unfolding find_box lock_boxes unlock_boxes
HasBox-find_box s name i size has = rw (has.unlocked, has.found) refl

-- The search goes by the names only.
find_from-set :
    (boxes : List Box) (name : List ℕ) (i : ℕ) (box box' : Box) (n j : ℕ)
    → get_elem? boxes i ≡ some box
    → box'.box_name ≡ box.box_name
    → find_from (set boxes i box') name n j ≡ find_from boxes name n j
unfolding find_from
find_from-set boxes name i box box' zero j there same = refl
find_from-set boxes name i box box' (suc n) j there same = elim (ℕ_discrete i j) [
  | no ne ↦
      other (get_elem? boxes j) refl (get_elem?-set_ne boxes i j box' ne)
        (find_from-set boxes name i box box' n (j + 1) there same)
  | yes here ↦
      let new : get_elem? (set boxes i box') j ≡ some box' =
        subst (λ t. get_elem? (set boxes i box') t ≡ some box') here
          (get_elem?-set_self boxes i box' (lt_of_get_elem? boxes i there)) in
      let old : get_elem? boxes j ≡ some box =
        subst (λ t. get_elem? boxes t ≡ some box) here there in
      rw (new, old, find_from-set boxes name i box box' n (j + 1) there same, same, find_from) refl
]
  where
    other :
        (o : Option Box)
        → get_elem? boxes j ≡ o
        → get_elem? (set boxes i box') j ≡ get_elem? boxes j
        → find_from (set boxes i box') name n (j + 1) ≡ find_from boxes name n (j + 1)
        → find_from (set boxes i box') name (suc n) j ≡ find_from boxes name (suc n) j
    other none e kept rest = let new = kept ∙ e in rw (new, e, find_from) refl
    other (some b) e kept rest = let new = kept ∙ e in rw (new, e, rest, find_from) refl

-- The boxes with box `i` grown by `n` bytes.
abbrev pub grown_boxes : Boxes → ℕ → Box → ℕ → Boxes
grown_boxes s i box n = record s {
  boxes = set s.boxes i (record box { box_size = (box.box_size + n) % 2 ^ 64 });
}

pub grow_box-grown :
    (s : Boxes) (name : List ℕ) (i size n : ℕ) (has : HasBox s name i size)
    → grow_box i n s ≡ ok tt (grown_boxes s i has.box n)
unfolding grow_box box_at set_box
grow_box-grown s name i size n has =
    rw (has.there, lt→ltb i (length s.boxes) (lt_of_get_elem? s.boxes i has.there), box_at)

pub grown-HasBox :
    (s : Boxes) (name : List ℕ) (i size n : ℕ) (has : HasBox s name i size)
    → HasBox (grown_boxes s i has.box n) name i ((size + n) % 2 ^ 64)
grown-HasBox s name i size n has = record {
  unlocked = has.unlocked;
  found = find_from-set s.boxes name i has.box _ s.n_boxes 0 has.there refl ∙ has.found;
  inside = has.inside;
  box = record has.box { box_size = (has.box.box_size + n) % 2 ^ 64 };
  there = get_elem?-set_self s.boxes i _ (lt_of_get_elem? s.boxes i has.there);
  box_size = ap (λ t. (t + n) % 2 ^ 64) has.box_size;
}
