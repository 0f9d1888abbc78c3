-- ===== src/Broker/Tests.antt =====
-- A box created on a new file system.
use so.Prelude.{◌≡◌, refl, false, [], ◌∷◌, replicate, arith}
use so.Prelude.Returns.{Returns}
use so.Fs.Samples.{fresh_valid, with_file}
use so.Fs.Sound.{IsSound}
use so.Fs.Sound.Samples.{fresh_sound, is_name_a}
use so.Boxes.{Box}
use so.Broker.{Broker, create_box, reply_to_list_boxes}
use so.Prelude.Run.{ok}
use so.Broker.Samples.{around, broker, request}
use so.Broker.Listing.{listed_all, reply_to_list_boxes_lem}
use so.Broker.Replies.{HasText}
use so.Broker.Create.{IsReady, BoxCreated, create_box-BoxCreated}

ready : IsReady broker
ready = record {
  fs_valid = fresh_valid;
  fs_free = refl;
  boxes_valid = record {
    slots = refl;
    count = omega arith;
    unlocked = refl;
    distinct = λ j k name h h'. absurd (omega (arith, h.inside));
  };
  queue_valid = record {
    buffer = refl;
    small = omega arith;
    size = omega arith;
    head = λ some_slots. omega arith;
    tail = omega arith;
    inserted = omega arith;
  };
  queue_free = refl;
  session = omega arith;
}

has_text : HasText around.stack_message (7 ∷ [])
has_text = record {
  rest = replicate 1022 9;
  bytes = refl;
  is_text = (omega arith, tt);
  size = refl;
}

create_box-BoxCreated_example :
    Returns
      (λ u b'.
        (sound' : IsSound b'.fs) × BoxCreated around request (7 ∷ []) broker fresh_sound b' sound')
      (create_box around request broker)
create_box-BoxCreated_example =
    create_box-BoxCreated around request (7 ∷ []) broker ready fresh_sound (omega arith) has_text
      refl is_name_a (omega arith) (omega arith)

-- The same broker with one box in use.
abbrev one_box : Broker
one_box = record broker {
  boxes = record { boxes = replicate 64 around.stack_box; n_boxes = 1; mutex_locked = false };
}

one_box-IsReady : IsReady one_box
one_box-IsReady = record {
  fs_valid = fresh_valid;
  fs_free = refl;
  boxes_valid = record {
    slots = refl;
    count = omega arith;
    unlocked = refl;
    distinct = λ j k name h h'. omega (arith, h.inside, h'.inside);
  };
  queue_valid = ready.queue_valid;
  queue_free = refl;
  session = omega arith;
}

reply_to_list_boxes_lem_example :
    reply_to_list_boxes around (b'm' ∷ []) one_box ≡ ok tt (listed_all one_box around.stack_box)
reply_to_list_boxes_lem_example =
    reply_to_list_boxes_lem around (b'm' ∷ []) one_box around.stack_box one_box-IsReady refl
      (omega arith) refl

-- The same broker with the file `a` and its box.
abbrev box_a : Box
box_a = record around.stack_box { box_name = b'a' ∷ [] }

abbrev a_broker : Broker
a_broker = record broker {
  boxes = record {
    boxes = box_a ∷ replicate 63 around.stack_box;
    n_boxes = 1;
    mutex_locked = false;
  };
  fs = with_file;
}
