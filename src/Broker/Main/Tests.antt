-- ===== src/Broker/Main/Tests.antt =====
-- A request of a publisher and one for a listing on the register pipe.
use so.Prelude.{refl, none, List, [], ◌∷◌, replicate, arith}
use so.Prelude.Returns.{Returns}
use so.Broker.{Broker}
use so.Broker.Samples.{broker, request}
use so.Broker.Main.{Session, publisher, listing, Arrays, main_thread_function}
use so.Broker.Main.Dispatch.{wires, Started, HasRoom, main_thread_function-Started}

abbrev arrays : Arrays
arrays = record { box_request = replicate 288 7; pipe_name = replicate 256 7 }

abbrev idle_broker : Broker
idle_broker = record broker {
  queue = record broker.queue {
    pcq_buffer = none ∷ none ∷ none ∷ none ∷ [];
    pcq_capacity = 4;
    pcq_current_size = 0;
    pcq_tail = 0;
  };
}

abbrev sessions : List Session
sessions = publisher request ∷ listing (b'm' ∷ []) ∷ []

has_room : HasRoom idle_broker.queue 2
has_room = record {
  queue = record {
    buffer = refl;
    small = omega arith;
    size = omega arith;
    head = λ some_slots. omega arith;
    tail = omega arith;
    inserted = omega arith;
  };
  unlocked = refl;
  room = omega arith;
}

main_thread_function-Started_example :
    Returns
      (Started idle_broker sessions)
      (main_thread_function 3 arrays (wires sessions) idle_broker)
main_thread_function-Started_example =
    main_thread_function-Started sessions 3 arrays idle_broker
      (
        record {
          client = (omega arith, tt);
          client_fits = omega arith;
          name = (omega arith, tt);
          name_fits = omega arith;
        },
        (((omega arith, tt), omega arith), tt),
      )
      (omega arith) (refl, refl) has_room
