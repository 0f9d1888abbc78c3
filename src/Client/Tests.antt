-- ===== src/Client/Tests.antt =====
-- Two boxes that come in the wrong order, and a request for the box `a`.
use so.Prelude.{ℕ, ◌≡◌, refl, true, replicate, ◌++◌, some, List, [], ◌∷◌, length, arith}
use mathlib.Core.List.{Perm}
use so.Prelude.Int.{pos}
use so.Prelude.Run.{ok}
use so.Boxes.{Box}
use so.Broker.Samples.{around, request}
use so.Client.{Host, Client, send_request}
use so.Client.Requests.{send_request-request_in}
use so.Wire.Requests.{request_in}
use so.Client.Samples.{insertion_sort, insertion_sort-IsQsort}
use so.Client.Manager.{list_reply, lines_of}
use so.Client.Manager.Sorting.{IsSorted, list_reply-IsSorted}

abbrev client : Client
client = record { registered = []; written = []; printed = []; n_messages = 0; unlinked = [] }

abbrev box_b : Box
box_b = record around.stack_box { box_name = b'b' ∷ []; last = 0 }

abbrev box_a : Box
box_a = record around.stack_box { box_name = b'a' ∷ []; last = 1 }

list_reply-IsSorted_example :
    (sorted : List Box) × (list_reply insertion_sort box_b (box_a ∷ []) client
      ≡ ok (some (lines_of sorted)) client)
    × IsSorted sorted
    × Perm sorted (box_b ∷ (box_a ∷ []))
list_reply-IsSorted_example =
    list_reply-IsSorted insertion_sort box_b (box_a ∷ []) client insertion_sort-IsQsort
      ((λ same. omega (arith, same)), refl) (omega arith) (omega arith)

abbrev host : Host
host = record {
  system = record { unlinks = λ p. true; makes = λ p. true; opens = λ p. pos 3 };
  can_register = true;
  can_write = true;
  pipe_array = replicate 256 7;
  name_array = replicate 32 9;
  message_array = replicate 1024 7;
}

send_request-request_in_example :
    (bytes : List ℕ) × (send_request host 3 (b'm' ∷ []) (b'a' ∷ []) client
      ≡ ok tt (record client { registered = client.registered ++ (3 ∷ bytes) }))
    × (length bytes ≡ 288)
    × (request_in (bytes ++ (7 ∷ [])) ≡ some request)
send_request-request_in_example =
    send_request-request_in host 3 request client (7 ∷ []) refl refl refl (record {
      client = (omega arith, tt);
      client_fits = omega arith;
      name = (omega arith, tt);
      name_fits = omega arith;
    })
