-- ===== src/Broker/Sessions/Tests.antt =====
-- One message on a box whose file is open twice: by its publisher, and by its subscriber.
use so.Prelude.{ℕ, ◌≡◌, refl, inr, true, List, [], ◌∷◌, replicate, arith}
use so.Prelude.Int.{pos}
use so.Prelude.Run.{ok}
use so.Prelude.Returns.{Returns}
use so.Fs.Lookup.{at_root}
use so.Fs.Open.{with_handle, with_handle-IsValid, entry_of}
use so.Fs.Open.Create.{new_file}
use so.Fs.Samples.{open_disk, open_valid, with_file}
use so.Fs.Sound.Samples.{file_sound, is_name_a}
use so.Fs.Types.{Fs}
use so.Fs.Valid.{IsValid}
use so.Boxes.{Box, find_from, find_box, lock_boxes, unlock_boxes, same_text}
use so.Broker.{Broker}
use so.Broker.Samples.{around, broker, request}
use so.Broker.Create.{IsReady}
use so.Broker.Sessions.{Reading, recieve_loop, publisher_function}
use so.Broker.Sessions.Publishing.{AtEnd, Received, recieve_loop-Received}
use so.Broker.Sessions.Refusal.{TurnedAway, publisher_function-TurnedAway}
use so.Broker.Sessions.Stored.{HasBox, stored, total}
use so.Client.{Host, Client}
use so.Client.Publisher.Frames.{frames}

-- The file on handles 0 and 1.
abbrev twice_open : Fs
twice_open = with_handle open_disk 1 1 0

abbrev twice_valid : IsValid twice_open
twice_valid =
    at_root twice_open 0
      (with_handle-IsValid open_disk 1 1 0 new_file open_valid (λ e. absurd (omega arith))
        (refl, refl) (omega arith))
      (refl, refl)

abbrev box_a : Box
box_a = record around.stack_box { box_name = b'a' ∷ []; box_size = 0 }

abbrev shared : Broker
shared = record broker {
  boxes = record broker.boxes { boxes = box_a ∷ replicate 63 around.stack_box; n_boxes = 1 };
  fs = twice_open;
}

abbrev lines : List (List ℕ)
lines = (b'h' ∷ b'i' ∷ []) ∷ []

abbrev buffer : List ℕ
buffer = replicate 1024 7

abbrev nothing_read : Reading
nothing_read = record { buffer = replicate 1024 9; i = 0; char_buffer = 0 }

abbrev host : Host
host = record {
  system = record { unlinks = λ p. true; makes = λ p. true; opens = λ p. pos 3 };
  can_register = true;
  can_write = true;
  pipe_array = replicate 256 7;
  name_array = replicate 32 7;
  message_array = replicate 1024 7;
}

abbrev client : Client
client = record { registered = []; written = []; printed = []; n_messages = 0; unlinked = [] }

abbrev at_end : AtEnd twice_open 0 1 []
at_end = record {
  valid = twice_valid;
  unlocked = refl;
  entry = entry_of 1 0;
  inode = new_file;
  is_open = (refl, refl);
  number = refl;
  holds = (refl, refl);
  same = refl;
  at_end = refl;
  space = inr (1, omega arith, refl);
}

abbrev has_box : HasBox shared.boxes (b'a' ∷ []) 0 0
unfolding find_from same_text
has_box = record {
  unlocked = refl;
  found = refl;
  inside = omega arith;
  box = box_a;
  there = refl;
  box_size = refl;
}

recieve_loop-Received_example :
    Returns
      (λ r b'. (r ≡ pos 0) × Received shared 0 1 0 (b'a' ∷ []) [] (stored lines) 0 (total lines) b')
      (recieve_loop 2 (pos 0) (b'a' ∷ []) (pos 0) buffer (frames 9 lines) shared)
recieve_loop-Received_example =
    recieve_loop-Received lines 2 shared 0 1 0 (b'a' ∷ []) buffer [] 0
      ((omega arith, (omega arith, tt)), omega arith, tt) (omega arith) refl (omega arith) at_end
      has_box (omega arith)

-- The box `a` has a publisher.
abbrev occupied : Broker
occupied = record broker {
  boxes = record broker.boxes {
    boxes = record box_a { n_publishers = 1 } ∷ replicate 63 around.stack_box;
    n_boxes = 1;
  };
  fs = with_file;
}

occupied-IsReady : IsReady occupied
occupied-IsReady = record {
  fs_valid = file_sound.valid;
  fs_free = refl;
  boxes_valid = record {
    slots = refl;
    count = omega arith;
    unlocked = refl;
    distinct = λ j k name h h'. omega (arith, h.inside, h'.inside);
  };
  queue_valid = record {
    buffer = refl;
    small = omega arith;
    size = omega arith;
    head = λ some_slots. omega arith;
    tail = omega arith;
    inserted = omega arith;
  };
  queue_free = refl;
  session = omega arith;
}

found_occupied : find_box (b'a' ∷ []) occupied.boxes ≡ ok (pos 0) occupied.boxes
unfolding find_box lock_boxes unlock_boxes find_from same_text
found_occupied = refl

publisher_function-TurnedAway_example :
    Returns
      (λ u b'. TurnedAway request occupied file_sound b')
      (publisher_function host.system request buffer (frames 9 lines) occupied)
publisher_function-TurnedAway_example =
    publisher_function-TurnedAway request occupied occupied-IsReady file_sound host.system is_name_a
      (omega arith) buffer (frames 9 lines) (omega arith)
      (inr (0, record box_a { n_publishers = 1 }, found_occupied, refl, refl))
