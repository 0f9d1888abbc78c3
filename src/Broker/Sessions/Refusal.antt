-- ===== src/Broker/Sessions/Refusal.antt =====
-- A publisher that is turned away: of a box that is not there, or that has a publisher.
use so.Prelude.{
  ℕ, ◌<◌, ◌≡◌, ◌⊎◌, inl, inr, refl, sym, ap, ◌∙◌, true, false, none, some, Option, List, ◌++◌,
  length, get_elem?, arith, lt→ltb, ◌==◌, ◌||◌, if◌then◌else◌, Bool-cases,
}
use so.Prelude.Int.{ℤ, pos, minus_one, eq_int}
use so.Prelude.Run.{ok, ◌>>=◌}
use so.Prelude.Returns
use so.Prelude.Returns.{Returns, returns, mono}
use so.Fs.Types.{Fs}
use so.Fs.Directory.Names.{IsName}
use so.Fs.Sound.{IsSound, view, Unchanged}
use so.Fs.Sound.Opening.{OpenSpec, opened_bytes, tfs_open-Sound}
use so.Pcq.Bounds.{removed}
use so.Boxes.{Box, Boxes, find_box, box_at, same_text}
use so.Boxes.Search.{same_text-eq, same_text_self}
use so.Broker.{Broker, Request, in_boxes}
use so.Broker.Create.{IsReady, with_fs-Returns}
use so.Broker.Replies.{end_session-removed}
use so.Wire.{System, tmp, open_pipe}
use so.Broker.Sessions.{
  o_append_mode, recieve_messages_from_publisher, register_publisher, publisher_function,
}

same_bytes :
    (old : Option (List ℕ)) (x : List ℕ) → opened_bytes o_append_mode old ≡ some x → old ≡ some x
same_bytes none x e = absurd (let wrong = e in cc)
same_bytes (some old) x e = e

-- Without O_CREAT and O_TRUNC `tfs_open` changes no file.
opened-Unchanged :
    (s : Fs) (sound : IsSound s) (name : List ℕ) (r : ℤ) (s' : Fs) (sound' : IsSound s')
    → OpenSpec s sound name o_append_mode r s' sound'
    → Unchanged (view s sound.valid) (view s' sound'.valid)
opened-Unchanged s sound name r s' sound' (inl (failed, same, handles, why)) t is_t = same t is_t
opened-Unchanged s sound name r s' sound' (inr (x, bytes, updates, handle)) t is_t =
    elim (Bool-cases (same_text t name)) [
      | inr differ ↦ updates.1 t is_t (λ e.
          let same : same_text t name ≡ true = ap (same_text t) (sym e) ∙ same_text_self t in cc)
      | inl equal ↦
          let same = same_text-eq t name equal in
          ap (view s' sound'.valid) same
          ∙ updates.0
          ∙ sym (same_bytes (view s sound.valid name) x bytes)
          ∙ ap (view s sound.valid) (sym same)
    ]

module _ (request : Request) where
  abbrev client : List ℕ
  client = request.client_name_pipe_path

  abbrev name : List ℕ
  name = request.box_name

  -- The session is over, with no file and no box changed.
  pub record TurnedAway (b : Broker) (sound : IsSound b.fs) (b' : Broker) : Type 0 where
    pub fs : Fs
    pub fs_sound : IsSound fs
    pub files : Unchanged (view b.fs sound.valid) (view fs fs_sound.valid)
    pub rest : b' ≡ record b { fs = fs; queue = removed b.queue false }

  -- The box is not there, or has a publisher.
  abbrev pub Refused : Boxes → Type 0
  Refused s =
      (find_box name s ≡ ok minus_one s)
      ⊎ ((i : ℕ) × (box : Box) × (find_box name s ≡ ok (pos i) s)
          × (get_elem? s.boxes i ≡ some box)
          × (box.n_publishers ≡ 1))

  module _ (b : Broker) (ready : IsReady b) (sound : IsSound b.fs) (system : System)
      (is_name : IsName name) (short_pipe : length client < 256) where
    open_pipe-Returns :
        (c : Broker) → Returns (λ d c'. c' ≡ c) (open_pipe {S = Broker} system client c)
    unfolding open_pipe
    open_pipe-Returns c =
        let fits = lt→ltb (length (tmp ++ client)) 261 (omega (arith, short_pipe)) in
        elim (Bool-cases (eq_int (system.opens (tmp ++ client)) minus_one)) [
          | inl failed ↦ rw (fits, failed) (returns refl)
          | inr opened ↦ rw (fits, opened) (returns refl)
        ]

    -- `recieve_messages_from_publisher` with `ver` at 0.
    turned_away :
        (s : Fs) (sound_s : IsSound s)
        → Unchanged (view b.fs sound.valid) (view s sound_s.valid)
        → (box_index : ℤ) (buffer pipe : List ℕ)
        → Returns
            (λ u b'. TurnedAway b sound b')
            (recieve_messages_from_publisher system request box_index 0 buffer pipe
              (record b { fs = s }))
    unfolding recieve_messages_from_publisher
    turned_away s sound_s same box_index buffer pipe =
        Returns.bind
          (with_fs-Returns (record b { fs = s })
            (tfs_open-Sound s sound_s name is_name o_append_mode
              (λ trunc. absurd (let wrong = trunc in cc))))
          (λ r c. λ (s', (sound', spec), after). rw after (
            Returns.bind (open_pipe-Returns (record b { fs = s' })) (λ d c'. λ kept. rw kept (
              rw
                (end_session-removed (record b { fs = s' }) ready.queue_valid ready.queue_free
                  ready.session)
                (returns (record {
                  fs = s';
                  fs_sound = sound';
                  files = λ t is_t.
                      opened-Unchanged s sound_s name r s' sound' spec t is_t ∙ same t is_t;
                  rest = refl;
                }))))))

    -- Let the file system be sound, the boxes valid, their mutexes and the poppers' free, the queue
    -- within its bounds and not empty, the request's pipe name below 256 bytes and its box name one
    -- of 1 to 31 bytes that are not zero; and let the box not be there, or have a publisher. Then
    -- `publisher_function` returns, whatever comes through the publisher's pipe: no file, no box and
    -- no reply is changed, and an element is taken out of the queue.
    pub publisher_function-TurnedAway :
        (buffer pipe : List ℕ)
        → length name < 32
        → Refused b.boxes
        → Returns (λ u b'. TurnedAway b sound b') (publisher_function system request buffer pipe b)
    unfolding publisher_function register_publisher box_at
    publisher_function-TurnedAway buffer pipe short_name why =
        rw (lt→ltb (length client) 256 short_pipe, lt→ltb (length name) 32 short_name)
          (Returns.bind
            (with_fs-Returns b (
              tfs_open-Sound b.fs sound name is_name o_append_mode
                (λ trunc. absurd (let wrong = trunc in cc))))
            (λ r c. λ (s, (sound', spec), after).
              rw after (refused r s sound' (opened-Unchanged b.fs sound name r s sound' spec) why)))
      where
        refused :
            (r : ℤ) (s : Fs) (sound' : IsSound s)
            → Unchanged (view b.fs sound.valid) (view s sound'.valid)
            → Refused b.boxes
            → Returns
                (λ u b'. TurnedAway b sound b')
                ((do
                  box_index ← in_boxes (find_box name)
                  if eq_int box_index minus_one || eq_int r minus_one
                      then recieve_messages_from_publisher system request box_index 0 buffer pipe
                      else register_publisher system request box_index buffer pipe)
                  (record b { fs = s }))
        refused r s sound' same (inl absent) =
            rw absent (turned_away s sound' same minus_one buffer pipe)
        refused r s sound' same (inr (i, box, present, there, taken)) =
            let full : (box.n_publishers == 1) ≡ true = ground arith in
            elim (Bool-cases (eq_int r minus_one)) [
              | inl failed ↦ rw (present, failed) (turned_away s sound' same (pos i) buffer pipe)
              | inr handle ↦
                  rw (present, handle, there, full, box_at, register_publisher)
                    (turned_away s sound' same (pos i) buffer pipe)
            ]
