-- ===== src/Broker/Samples.antt =====
-- A broker on a new file system, and what its sessions find outside.
use so.Prelude.{true, false, none, some, [], ◌∷◌, replicate}
use so.Prelude.Int.{pos}
use so.Fs.Samples.{fresh_disk}
use so.Broker.{Broker, Request, Surroundings}

abbrev pub around : Surroundings
around = record {
  can_write = λ pipe. true;
  stack_box = record {
    box_name = [];
    publisher = [];
    box_size = 9;
    n_publishers = 9;
    n_subscribers = 9;
    subscribers = replicate 64 [];
    subscriber_index = pos 9;
    last = 9;
  };
  stack_message = 7 ∷ 0 ∷ replicate 1022 9;
}

abbrev pub broker : Broker
broker = record {
  boxes = record { boxes = replicate 64 around.stack_box; n_boxes = 0; mutex_locked = false };
  fs = fresh_disk;
  queue = record {
    pcq_buffer = some 1 ∷ none ∷ none ∷ [];
    pcq_capacity = 3;
    pcq_current_size = 1;
    pcq_head = 0;
    pcq_tail = 1;
    pusher_locked = false;
    popper_locked = false;
  };
  replies = [];
  listed = [];
}

abbrev pub request : Request
request = record { client_name_pipe_path = b'm' ∷ []; box_name = b'a' ∷ [] }
