-- ===== src/Broker/Create.antt =====
-- What `create_box` does to the boxes and to the file system, and what it replies.
use so.Prelude.{
  ℕ, ◌+◌, ◌<◌, ◌≡◌, ◌⊎◌, inl, inr, refl, ap, ◌∙◌, true, false, some, List, [], ◌∷◌, ◌++◌, length,
  get_elem?, set, set-set, set_same, arith, lt→ltb, if◌then◌else◌, subst,
}
use native.Mathlib.Decide.{ℕ_discrete}
use so.Prelude.Int.{ℤ, pos, minus_one, eq_int}
use so.Prelude.Run.{Run, ok, ◌>>=◌, ◌>>◌}
use so.Prelude.Returns
use so.Prelude.Returns.{Returns, returns, mono}
use so.Fs.Access.{max_open_files}
use so.Fs.Types.{Fs, OpenFileEntry, free, taken}
use so.Fs.Directory.Names.{IsName}
use so.Fs.Operations.{tfs_close}
use so.Fs.Scan.{AllTaken}
use so.Fs.Sound.{IsSound, view, Updates, Unchanged, OnFile}
use so.Fs.Sound.Keep.{OthersKept, open-Opened, tfs_close-Sound}
use so.Fs.Sound.Open.{SameHandles}
use so.Fs.Sound.Opening.{OpenSpec, NotThere, opened_bytes, tfs_open-Sound}
use so.Fs.Valid.{IsValid, IsOpen}
use so.Pcq.Bounds.{IsQueue, removed}
use so.Boxes.{Boxes, find_box, add_box}
use so.Boxes.Add.{with_box, add_box_lem}
use so.Boxes.Delete.{IsBoxes}
use so.Boxes.Search.{Found, find_box-Found}
use so.Broker.{
  Broker, Request, Surroundings, in_boxes, in_fs, with_fs, o_creat_mode, new_box, could_not_create,
  reply_to_box_creation, create_file, create_box,
}
use so.Broker.Replies.{HasText, reply_told, answered, reply_to_box_creation-answered}

-- The state in which a session can run: the file system and the boxes are valid, every mutex is
-- free, and the queue has the session's slot in it.
pub record IsReady (b : Broker) : Type 0 where
  pub fs_valid : IsValid b.fs
  pub fs_free : b.fs.locked ≡ false
  pub boxes_valid : IsBoxes b.boxes
  pub queue_valid : IsQueue b.queue
  pub queue_free : b.queue.popper_locked ≡ false
  pub session : 0 < b.queue.pcq_current_size

pub with_fs-Returns :
    {A : Type 0} {P : A → Fs → Type 0} (b : Broker) {r : Run Fs A}
    → Returns P r
    → Returns (λ a b'. (s : Fs) × P a s × (b' ≡ record b { fs = s })) (with_fs b r)
with_fs-Returns b (returns {s = s} p) = returns (s, p, refl)

-- The same handles are FREE, and those that are open are where they were.
abbrev pub HandlesKept : Fs → Fs → Type 0
HandlesKept s s' =
    (s'.free_open_file_entries ≡ s.free_open_file_entries)
    × ((h : ℕ) (e : OpenFileEntry) → IsOpen s h e → IsOpen s' h e)

SameHandles-HandlesKept : (s s' : Fs) → SameHandles s s' → HandlesKept s s'
SameHandles-HandlesKept s s' (table, states) = (
  states,
  λ h e opened.
      (ap (λ t. get_elem? t h) states ∙ opened.0, ap (λ t. get_elem? t h) table ∙ opened.1),
)

-- A handle that was FREE, opened and closed.
closed-HandlesKept :
    (s s1 s2 : Fs) (h : ℕ)
    → get_elem? s.free_open_file_entries h ≡ some free
    → s1.free_open_file_entries ≡ set s.free_open_file_entries h taken
    → OthersKept s h s1
    → s2.free_open_file_entries ≡ set s1.free_open_file_entries h free
    → OthersKept s1 h s2
    → HandlesKept s s2
closed-HandlesKept s s1 s2 h was_free opened others closed others' = (
  closed
      ∙ ap (λ t. set t h free) opened
      ∙ set-set s.free_open_file_entries h taken free
      ∙ set_same s.free_open_file_entries h free was_free,
  kept,
)
  where
    kept : (i : ℕ) (e : OpenFileEntry) → IsOpen s i e → IsOpen s2 i e
    kept i e is_open = elim (ℕ_discrete i h) [
      | no ne ↦ others' i e ne (others i e ne is_open)
      | yes same ↦
          let here : get_elem? s.free_open_file_entries h ≡ some taken =
            subst (λ t. get_elem? s.free_open_file_entries t ≡ some taken) same is_open.0 in
          absurd (let wrong : free ≡ taken = cc in cc)
    ]

module _ (around : Surroundings) (request : Request) (lay : List ℕ) where
  abbrev client : List ℕ
  client = request.client_name_pipe_path

  abbrev name : List ℕ
  name = request.box_name

  -- The one reply of a session.
  abbrev Told : ℕ → Broker → Broker → Type 0
  Told n b b' = b'.replies ≡ b.replies ++ (reply_told client 4 could_not_create lay n ∷ [])

  -- The file of the box is there, with the bytes that `tfs_open` leaves it, and no other is changed.
  abbrev FileMade : (s : Fs) → IsSound s → (s' : Fs) → IsSound s' → Type 0
  FileMade s sound s' sound' =
      (x : List ℕ) × (opened_bytes o_creat_mode (view s sound.valid name) ≡ some x)
      × Updates (view s sound.valid) name (some x) (view s' sound'.valid)

  -- The four ends of `create_box`: there is such a box; the file is not there and cannot be made; it
  -- is there, but no handle is FREE; or the box is added.
  abbrev pub Ending : (b : Broker) → IsSound b.fs → (b' : Broker) → IsSound b'.fs → Type 0
  Ending b sound b' sound' =
      ((i : ℕ) × (find_box name b.boxes ≡ ok (pos i) b.boxes)
        × (b'.boxes ≡ b.boxes)
        × (b'.fs ≡ b.fs)
        × Told 0 b b')
      ⊎ ((find_box name b.boxes ≡ ok minus_one b.boxes)
          × (((b'.boxes ≡ b.boxes)
                × NotThere b.fs sound name o_creat_mode
                × Unchanged (view b.fs sound.valid) (view b'.fs sound'.valid)
                × Told 0 b b')
              ⊎ (((b'.boxes ≡ b.boxes)
                    × AllTaken b.fs.free_open_file_entries 0 (max_open_files b.fs)
                    × FileMade b.fs sound b'.fs sound'
                    × Told 0 b b')
                  ⊎ ((b'.boxes ≡ with_box b.boxes (new_box around name))
                      × (find_box name b'.boxes ≡ ok (pos b.boxes.n_boxes) b'.boxes)
                      × FileMade b.fs sound b'.fs sound'
                      × Told 1 b b'))))

  abbrev pub BoxCreated : (b : Broker) → IsSound b.fs → (b' : Broker) → IsSound b'.fs → Type 0
  BoxCreated b sound b' sound' =
      IsBoxes b'.boxes
      × (b'.queue ≡ removed b.queue false)
      × (b'.listed ≡ b.listed)
      × HandlesKept b.fs b'.fs
      × Ending b sound b' sound'

  module _ (b : Broker) (ready : IsReady b) (sound : IsSound b.fs) (room : b.boxes.n_boxes + 1 < 64)
      (has : HasText around.stack_message lay) (writable : around.can_write client ≡ true)
      (is_name : IsName name) where
    abbrev Ends : Unit {0} → Broker → Type 0
    Ends u b' = (sound' : IsSound b'.fs) × BoxCreated b sound b' sound'

    abbrev told : ℕ → Boxes → Fs → Broker
    told n boxes s =
        answered (record b { boxes = boxes; fs = s }) (reply_told client 4 could_not_create lay n)

    reply-told :
        (n : ℕ) (boxes : Boxes) (s : Fs)
        → reply_to_box_creation around client n (record b { boxes = boxes; fs = s })
          ≡ ok tt (told n boxes s)
    reply-told n boxes s =
        reply_to_box_creation-answered around client lay n (record b { boxes = boxes; fs = s }) has
          writable ready.queue_valid ready.queue_free ready.session

    ended :
        (n : ℕ) (boxes : Boxes) (s : Fs) (sound' : IsSound s)
        → IsBoxes boxes
        → HandlesKept b.fs s
        → Ending b sound (told n boxes s) sound'
        → Returns Ends (ok tt (told n boxes s))
    ended n boxes s sound' valid handles how = returns (sound', (valid, refl, refl, handles, how))

    module _ (absent : find_box name b.boxes ≡ ok minus_one b.boxes) where
      added_boxes :
          (add_box (new_box around name) b.boxes ≡ ok tt (with_box b.boxes (new_box around name)))
          × IsBoxes (with_box b.boxes (new_box around name))
          × (find_box name (with_box b.boxes (new_box around name))
              ≡ ok (pos b.boxes.n_boxes) (with_box b.boxes (new_box around name)))
      added_boxes = add_box_lem b.boxes (new_box around name) ready.boxes_valid room absent

      -- Behind the `tfs_open` of a handle.
      accepted :
          (s : Fs) (sound' : IsSound s) (h : ℕ)
          → FileMade b.fs sound s sound'
          → get_elem? b.fs.free_open_file_entries h ≡ some free
          → s.free_open_file_entries ≡ set b.fs.free_open_file_entries h taken
          → OnFile s sound'.valid h name 0
          → OthersKept b.fs h s
          → Returns Ends (
              (do
                c ← in_fs (tfs_close (pos h))
                in_boxes (add_box (new_box around name))
                reply_to_box_creation around client 1)
                (record b { fs = s }))
      accepted s sound' h (x, bytes, updates) was_free states (e, is_open, found, at, named)
            others =
          Returns.bind
            (with_fs-Returns (record b { fs = s })
              (tfs_close-Sound s sound' h (open-Opened s sound' h e is_open)))
            (λ c c'. λ (s2, (sound2, (zero, states2, others2, same2)), after).
              let boxes = with_box b.boxes (new_box around name) in
              rw (after, added_boxes.0, reply-told 1 boxes s2)
                (ended 1 boxes s2 sound2 added_boxes.1
                  (closed-HandlesKept b.fs s s2 h was_free states others states2 others2)
                  (inr (
                    absent,
                    inr (
                        inr (
                          refl,
                          added_boxes.2,
                          (
                            x,
                            bytes,
                            (
                              same2 name is_name ∙ updates.0,
                              λ t is_t ne. same2 t is_t ∙ updates.1 t is_t ne,
                            ),
                          ),
                          refl,
                        )),
                  ))))

      opened :
          (r : ℤ) (s : Fs) (sound' : IsSound s)
          → OpenSpec b.fs sound name o_creat_mode r s sound'
          → Returns Ends (
              (if eq_int r minus_one then reply_to_box_creation around client 0 else (do
                c ← in_fs (tfs_close r)
                in_boxes (add_box (new_box around name))
                reply_to_box_creation around client 1))
                (record b { fs = s }))
      opened r s sound' (inl (failed, same, handles, why)) =
          rw (failed, reply-told 0 b.boxes s)
            (ended 0 b.boxes s sound' ready.boxes_valid (SameHandles-HandlesKept b.fs s handles)
              (inr (absent, inl (refl, why, same, refl))))
      opened r s sound' (inr (x, bytes, updates, inl (failed, all, handles))) =
          rw (failed, reply-told 0 b.boxes s)
            (ended 0 b.boxes s sound' ready.boxes_valid (SameHandles-HandlesKept b.fs s handles)
              (inr (absent, inr (inl (refl, all, (x, bytes, updates), refl)))))
      opened r s sound'
            (inr (x, bytes, updates, inr (h, result, was_free, states, on_file, others))) =
          rw result (accepted s sound' h (x, bytes, updates) was_free states on_file others)

    -- Let the file system be sound, the boxes valid, their mutexes and the poppers' free, the queue
    -- within its bounds and not empty, at most 62 boxes in use, the client's pipe writable and of a
    -- name below 256 bytes, the box's name one of 1 to 31 bytes that are not zero, and let the
    -- uninitialised 1024 bytes of `error_message` have a terminator among them. Then `create_box`
    -- returns in a sound state with valid boxes, an element of the queue taken out, the same handles
    -- FREE and every open one where it was. It ends in one of four ways, with one reply. There is a
    -- box of the name: nothing else changes, and the reply is -1. The file is missing and no inode
    -- or directory entry is left for it: the files and the boxes are as before, and the reply is -1.
    -- Every handle is TAKEN: the file is there, but the boxes are as before, and the reply is -1.
    -- Else the file is there, with the bytes it had or empty, every other file is as before, the new
    -- box is added, `find_box` finds the name at it, and the reply is 0.
    pub create_box-BoxCreated :
        length client < 256
        → length name < 32
        → Returns
            (λ u b'. (sound' : IsSound b'.fs) × BoxCreated b sound b' sound')
            (create_box around request b)
    unfolding create_box create_file
    create_box-BoxCreated short_pipe short_name = go (
        find_box-Found b.boxes name
          (omega (arith, ready.boxes_valid.count, ready.boxes_valid.slots))
          ready.boxes_valid.unlocked)
      where
        go :
            Found b.boxes 0 name (λ r. find_box name b.boxes ≡ ok r b.boxes)
            → Returns Ends (create_box around request b)
        go (inl (absent, none_there)) =
            rw (lt→ltb (length client) 256 short_pipe, lt→ltb (length name) 32 short_name, absent)
              (Returns.bind
                (with_fs-Returns b (
                  tfs_open-Sound b.fs sound name is_name o_creat_mode
                    (λ trunc. absurd (let wrong = trunc in cc))))
                (λ r c. λ (s, (sound', spec), after). rw after (opened absent r s sound' spec)))
        go (inr (i, present, first)) =
            rw
              (
                lt→ltb (length client) 256 short_pipe,
                lt→ltb (length name) 32 short_name,
                present,
                reply-told 0 b.boxes b.fs,
              )
              (ended 0 b.boxes b.fs sound ready.boxes_valid (refl, λ h e is_open. is_open)
                (inl (i, present, refl, refl, refl)))
