-- ===== src/Broker/Listing.antt =====
-- What `reply_to_list_boxes` writes to a manager.
use so.Prelude.{
  ℕ, zero, suc, ◌+◌, ◌-◌, ◌%◌, ◌^◌, ◌≤◌, ◌<◌, ◌≡◌, sym, ap, ◌∙◌, true, false, some, List, [], ◌∷◌,
  ◌++◌, length, append_assoc, append-nil, take, drop, set, get_elem?, get_elem?_of_lt,
  get_elem?-set_self, set-set, length-set, arith, lt→ltb, ◌==◌, lt_of_get_elem?,
}
use so.Prelude.Run.{ok}
use so.Boxes.{Box, Boxes, box_at, set_box, lock_boxes, unlock_boxes}
use so.Pcq.Bounds.{removed}
use so.Broker.{Broker, Surroundings, write_boxes, set_last, reply_to_list_boxes}
use so.Broker.Create.{IsReady}
use so.Broker.Replies.{end_session-removed}

drop-cons :
    (xs : List Box) (i : ℕ) (x : Box) → get_elem? xs i ≡ some x → drop i xs ≡ x ∷ drop (i + 1) xs
drop-cons [] i x h = absurd (let wrong = h in cc)
drop-cons (y ∷ xs) zero x h = let same : y ≡ x = cc in ap (λ t. t ∷ xs) same
drop-cons (y ∷ xs) (suc i) x h =
    let shift : suc i + 1 ≡ suc (i + 1) = omega arith in
    drop-cons xs i x h ∙ ap (λ t. x ∷ drop t (y ∷ xs)) (sym shift)

write_boxes-ok :
    (n i : ℕ) (b : Broker)
    → i + n ≤ length b.boxes.boxes
    → write_boxes n i b ≡ ok tt (record b { listed = b.listed ++ take n (drop i b.boxes.boxes) })
unfolding write_boxes
write_boxes-ok zero i b h = λ k. ok tt (record b { listed = sym (append-nil b.listed) k })
write_boxes-ok (suc n) i b h =
    let (x, there) = get_elem?_of_lt b.boxes.boxes i (omega arith) in
    let next : Broker = record b { listed = b.listed ++ (x ∷ []) } in
    rw (there, write_boxes)
      (write_boxes-ok n (i + 1) next (omega arith)
        ∙ ap (λ t. ok tt (record b { listed = t }))
            (append_assoc b.listed (x ∷ []) (take n (drop (i + 1) b.boxes.boxes))
              ∙ ap (λ t. b.listed ++ take (suc n) t) (sym (drop-cons b.boxes.boxes i x there))))

abbrev pub with_last : ℕ → Box → Box
with_last flag box = record box { last = flag }

set_last-ok :
    (flag : ℕ) (s : Boxes) (e : Box)
    → 0 < s.n_boxes
    → s.n_boxes < 64
    → get_elem? s.boxes (s.n_boxes - 1) ≡ some e
    → set_last flag s ≡ ok tt (record s { boxes = set s.boxes (s.n_boxes - 1) (with_last flag e) })
unfolding set_last set_box box_at
set_last-ok flag s e some_boxes few at_end =
    let wraps : (s.n_boxes + 2 ^ 64 - 1) % 2 ^ 64 ≡ s.n_boxes - 1 = omega arith in
    let inside : s.n_boxes - 1 < length s.boxes = lt_of_get_elem? s.boxes (s.n_boxes - 1) at_end in
    rw (wraps, at_end, box_at, lt→ltb (s.n_boxes - 1) (length s.boxes) inside)

-- The broker behind a listing, where `e` is the last box.
abbrev pub listed_all : Broker → Box → Broker
listed_all b e = record b {
  boxes = record b.boxes { boxes = set b.boxes.boxes (b.boxes.n_boxes - 1) (with_last 0 e) };
  listed =
      b.listed ++ take b.boxes.n_boxes (set b.boxes.boxes (b.boxes.n_boxes - 1) (with_last 1 e));
  queue = removed b.queue false;
}

module _ (around : Surroundings) (pipe : List ℕ) (b : Broker) (e : Box) (ready : IsReady b)
    (writable : around.can_write pipe ≡ true) (some_boxes : 0 < b.boxes.n_boxes)
    (at_end : get_elem? b.boxes.boxes (b.boxes.n_boxes - 1) ≡ some e) where
  abbrev end : ℕ
  end = b.boxes.n_boxes - 1

  abbrev marked : Boxes
  marked = record b.boxes { boxes = set b.boxes.boxes end (with_last 1 e) }

  abbrev all_written : Broker
  all_written = record b { boxes = marked; listed = b.listed ++ take b.boxes.n_boxes marked.boxes }

  end_lt : end < length b.boxes.boxes
  end_lt = lt_of_get_elem? b.boxes.boxes end at_end

  locking : lock_boxes b.boxes ≡ ok tt (record b.boxes { mutex_locked = true })
  unfolding lock_boxes
  locking = rw ready.boxes_valid.unlocked

  unlocking : unlock_boxes (record marked { mutex_locked = true }) ≡ ok tt marked
  unfolding unlock_boxes
  unlocking = λ k. ok tt (record marked { mutex_locked = sym ready.boxes_valid.unlocked k })

  written : write_boxes b.boxes.n_boxes 0 (record b { boxes = marked }) ≡ ok tt all_written
  written =
      write_boxes-ok b.boxes.n_boxes 0 (record b { boxes = marked })
        (omega (
          arith,
          ready.boxes_valid.count,
          ready.boxes_valid.slots,
          length-set b.boxes.boxes end (with_last 1 e),
        ))

  clearing :
      set_last 0 marked ≡ ok tt (record b.boxes { boxes = set b.boxes.boxes end (with_last 0 e) })
  clearing =
      set_last-ok 0 marked (with_last 1 e) some_boxes ready.boxes_valid.count
        (get_elem?-set_self b.boxes.boxes end (with_last 1 e) end_lt)
      ∙ ap (λ t. ok tt (record b.boxes { boxes = t }))
          (set-set b.boxes.boxes end (with_last 1 e) (with_last 0 e))

  -- Let the session be ready to run, the manager's pipe writable and some box in use. Then
  -- `reply_to_list_boxes` writes the boxes in use in their order, the last one with `last` at 1 and
  -- the others as they are, leaves the last one with `last` at 0, takes the session out of the
  -- queue and changes nothing else.
  pub reply_to_list_boxes_lem : reply_to_list_boxes around pipe b ≡ ok tt (listed_all b e)
  unfolding reply_to_list_boxes
  reply_to_list_boxes_lem =
      let not_empty : (b.boxes.n_boxes == 0) ≡ false = ground arith in
      rw (
        writable,
        not_empty,
        locking,
        set_last-ok 1 (record b.boxes { mutex_locked = true }) e some_boxes ready.boxes_valid.count
            at_end,
        unlocking,
        written,
        clearing,
        end_session-removed (record all_written { boxes = (listed_all b e).boxes })
            ready.queue_valid ready.queue_free ready.session,
      )
