-- ===== src/Broker/Remove.antt =====
-- What `remove_box` does to the boxes and to the file system, and what it replies.
use so.Prelude.{
  ℕ, ◌-◌, ◌≡◌, ◌≢◌, ◌⊎◌, true, false, none, List, [], ◌∷◌, ◌++◌, arith, get_elem?, get_elem?_of_lt,
  some,
}
use so.Prelude.Int.{pos, minus_one}
use so.Prelude.Run.{ok, ◌>>=◌}
use so.Prelude.Returns
use so.Prelude.Returns.{Returns, mono}
use so.Fs.Types.{Fs, OpenFileEntry}
use so.Fs.Sound.{IsSound, view, Updates}
use so.Fs.Valid.{IsOpen}
use so.Pcq.Bounds.{removed}
use so.Boxes.{Box, Boxes, find_box}
use so.Boxes.Delete.{IsBoxes, deleted}
use so.Boxes.Search.{IsNamed}
use so.Broker.{Broker, Request, Surroundings, could_not_remove}
use so.Broker.Create.{IsReady}
use so.Broker.Replies.{HasText, reply_told, answered}

-- The boxes with the name removed, and every other name still found.
abbrev pub NameRemoved : Boxes → List ℕ → Boxes → Type 0
NameRemoved s name s' =
    (find_box name s' ≡ ok minus_one s')
    × ((t : List ℕ) (j : ℕ)
        → t ≢ name
        → find_box t s ≡ ok (pos j) s
        → (k : ℕ) × (find_box t s' ≡ ok (pos k) s'))

-- Every open handle is where it was.
abbrev pub StillOpen : Fs → Fs → Type 0
StillOpen s s' = (h : ℕ) (e : OpenFileEntry) → IsOpen s h e → IsOpen s' h e

module _ (around : Surroundings) (request : Request) (lay : List ℕ) where
  abbrev client : List ℕ
  client = request.client_name_pipe_path

  abbrev name : List ℕ
  name = request.box_name

  -- The one reply of a session, and its element of the queue taken out.
  abbrev pub Answered : ℕ → Broker → Broker → Type 0
  Answered n b b' =
      (b'.replies ≡ b.replies ++ (reply_told client 6 could_not_remove lay n ∷ []))
      × (b'.queue ≡ removed b.queue false)

  -- How `remove_box` ends: there was no such file and the reply is -1; or the file is removed, and
  -- the box too where there was one, with the reply 0, else with the reply -1.
  abbrev pub BoxRemoved : (b : Broker) → IsSound b.fs → (b' : Broker) → IsSound b'.fs → Type 0
  BoxRemoved b sound b' sound' =
      IsBoxes b'.boxes
      × (((view b.fs sound.valid name ≡ none)
            × (b'.fs ≡ b.fs)
            × (b'.boxes ≡ b.boxes)
            × Answered 0 b b')
          ⊎ (Updates (view b.fs sound.valid) name none (view b'.fs sound'.valid)
              × StillOpen b.fs b'.fs
              × NameRemoved b.boxes name b'.boxes
              × (((i : ℕ) × (find_box name b.boxes ≡ ok (pos i) b.boxes) × Answered 1 b b')
                  ⊎ ((find_box name b.boxes ≡ ok minus_one b.boxes)
                      × (b'.boxes ≡ b.boxes)
                      × Answered 0 b b'))))

  module _ (b : Broker) (ready : IsReady b) (has : HasText around.stack_message lay)
      (writable : around.can_write client ≡ true) where
    abbrev told : ℕ → Boxes → Fs → Broker
    told n boxes s =
        answered (record b { boxes = boxes; fs = s }) (reply_told client 6 could_not_remove lay n)

    abbrev Ends : IsSound b.fs → Unit {0} → Broker → Type 0
    Ends sound u b' = (t : IsSound b'.fs) × BoxRemoved b sound b' t

    -- Behind the removal of the file.
    module _ (sound : IsSound b.fs) (s : Fs) (sound' : IsSound s)
        (updates : Updates (view b.fs sound.valid) name none (view s sound'.valid))
        (still : StillOpen b.fs s) where
      module _ (i : ℕ) (present : find_box name b.boxes ≡ ok (pos i) b.boxes)
          (h : IsNamed b.boxes i name) where
        last_box : (e : Box) × (get_elem? b.boxes.boxes (b.boxes.n_boxes - 1) ≡ some e)
        last_box =
            get_elem?_of_lt b.boxes.boxes (b.boxes.n_boxes - 1)
              (omega (arith, h.inside, ready.boxes_valid.count, ready.boxes_valid.slots))

        abbrev left : Boxes
        left = deleted b.boxes i h.box last_box.0
