-- ===== src/Boxes/Tests.antt =====
-- Two boxes, one deleted and one added.
use so.Prelude.{
  ℕ, zero, suc, ◌≡◌, ◌≢◌, refl, sym, ap, ◌∙◌, false, some, List, [], ◌∷◌, replicate, get_elem?,
  arith,
}
use so.Prelude.Int.{pos, minus_one}
use so.Prelude.Run.{ok}
use so.Boxes.{
  Box, Boxes, find_box, find_from, same_text, lock_boxes, unlock_boxes, add_box, delete_box,
}
use so.Boxes.Add.{with_box, add_box_lem}
use so.Boxes.Delete.{IsBoxes, deleted, delete_box_lem, find_box-delete_box, delete_box-subscribers}
use so.Boxes.Search.{IsNamed, Found, find_box-Found}

abbrev named : ℕ → Box
named c = record {
  box_name = c ∷ [];
  publisher = [];
  box_size = 0;
  n_publishers = 0;
  n_subscribers = 1;
  subscribers = replicate 64 (c ∷ []);
  subscriber_index = pos 1;
  last = 0;
}

abbrev two : Boxes
two = record {
  boxes = named b'a' ∷ named b'b' ∷ replicate 62 (named 0);
  n_boxes = 2;
  mutex_locked = false;
}

a_ne_b : ◌≢◌ {A = List ℕ} (b'a' ∷ []) (b'b' ∷ [])
a_ne_b same = let wrong : ◌≡◌ {A = ℕ} b'a' b'b' = cc in absurd (omega arith)

two-IsBoxes : IsBoxes two
two-IsBoxes = record { slots = refl; count = omega arith; unlocked = refl; distinct = distinct }
  where
    clash : (name : List ℕ) → IsNamed two 0 name → IsNamed two 1 name → ⊥
    clash name h h' =
        let at_0 = h.there in
        let at_1 = h'.there in
        let is_a : named b'a' ≡ h.box = cc in
        let is_b : named b'b' ≡ h'.box = cc in
        a_ne_b (
          ap (λ (t : Box). t.box_name) is_a
          ∙ h.named
          ∙ sym h'.named
          ∙ sym (ap (λ (t : Box). t.box_name) is_b))

    distinct : (j k : ℕ) (name : List ℕ) → IsNamed two j name → IsNamed two k name → j ≡ k
    distinct zero zero name h h' = refl
    distinct zero (suc zero) name h h' = absurd (clash name h h')
    distinct (suc zero) zero name h h' = absurd (clash name h' h)
    distinct (suc zero) (suc zero) name h h' = refl
    distinct (suc (suc j)) k name h h' = absurd (omega (arith, h.inside))
    distinct j (suc (suc k)) name h h' = absurd (omega (arith, h'.inside))

find_box-Found_example : Found two 0 (b'b' ∷ []) (λ r. find_box (b'b' ∷ []) two ≡ ok r two)
find_box-Found_example = find_box-Found two (b'b' ∷ []) (omega arith) refl

delete_box_lem_example :
    (delete_box 0 two ≡ ok tt (deleted two 0 (named b'a') (named b'b')))
    × IsBoxes (deleted two 0 (named b'a') (named b'b'))
    × (find_box (b'a' ∷ []) (deleted two 0 (named b'a') (named b'b'))
        ≡ ok minus_one (deleted two 0 (named b'a') (named b'b')))
delete_box_lem_example =
    delete_box_lem two 0 (named b'a') (named b'b') two-IsBoxes (omega arith) refl refl

found_b : find_box (b'b' ∷ []) two ≡ ok (pos 1) two
unfolding find_box find_from same_text lock_boxes unlock_boxes
found_b = refl

find_box-delete_box_example :
    (s' : Boxes) × (k : ℕ) × (delete_box 0 two ≡ ok tt s')
    × (find_box (b'b' ∷ []) s' ≡ ok (pos k) s')
    × IsNamed s' k (b'b' ∷ [])
find_box-delete_box_example =
    find_box-delete_box two 0 (named b'a') (named b'b') two-IsBoxes (omega arith) refl refl
      (b'b' ∷ []) 1 (λ same. a_ne_b (sym same)) found_b

delete_box-subscribers_example :
    (s' : Boxes) × (c : Box) × (delete_box 0 two ≡ ok tt s')
    × (get_elem? s'.boxes 0 ≡ some c)
    × (c.box_name ≡ b'b' ∷ [])
    × (c.box_size ≡ 0)
    × (c.publisher ≡ [])
    × (c.n_publishers ≡ 0)
    × (c.n_subscribers ≡ 1)
    × (c.subscribers ≡ replicate 64 (b'a' ∷ []))
    × (c.subscriber_index ≡ pos 1)
delete_box-subscribers_example =
    delete_box-subscribers two 0 (named b'a') (named b'b') two-IsBoxes (omega arith) refl refl
      (omega arith)

absent_c : find_box (b'c' ∷ []) two ≡ ok minus_one two
unfolding find_box find_from same_text lock_boxes unlock_boxes
absent_c = refl

add_box_lem_example :
    (add_box (named b'c') two ≡ ok tt (with_box two (named b'c')))
    × IsBoxes (with_box two (named b'c'))
    × (find_box (b'c' ∷ []) (with_box two (named b'c')) ≡ ok (pos 2) (with_box two (named b'c')))
add_box_lem_example = add_box_lem two (named b'c') two-IsBoxes (omega arith) absent_c
