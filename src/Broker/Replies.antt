-- ===== src/Broker/Replies.antt =====
-- The replies to a manager, and the end of a session.
use so.Prelude.{
  ℕ, suc, ◌+◌, ◌<◌, ◌≡◌, refl, ◌∙◌, inl, inr, Bool, true, ltb, ◌&&◌, false, some, List, [], ◌∷◌,
  ◌++◌, length, arith, Bool-cases, ◌==◌, if◌then◌else◌,
}
use so.Prelude.Int.{pos, minus_one}
use so.Prelude.Run.{ok}
use so.Prelude.Bytes.{IsText, strncpy_bytes, length-strncpy_bytes}
use so.Pcq.{pcq_dequeue}
use so.Pcq.Bounds.{IsQueue, Dequeued, removed, dequeue_with-Dequeued}
use so.Broker.{
  Broker, Reply, Surroundings, end_session, reply_message, could_not_create, could_not_remove,
  reply_to_box_creation, reply_to_box_removal,
}
use so.Wire.Strings.{fill_string-append, strcpy-append}

-- A test for `IsText`.
abbrev has_no_zero : List ℕ → Bool
has_no_zero [] = true
has_no_zero (c ∷ s) = ltb 0 c && has_no_zero s

has_no_zero-IsText : (s : List ℕ) → has_no_zero s ≡ true → IsText s
has_no_zero-IsText [] h = tt
has_no_zero-IsText (c ∷ s) h =
    let byte : 0 < c = ground arith in
    let rest : has_no_zero s ≡ true = ground arith in (byte, has_no_zero-IsText s rest)

-- The uninitialised `error_message` has 1024 bytes with this text and a terminator in them.
pub record HasText (array text : List ℕ) : Type 0 where
  pub rest : List ℕ
  pub bytes : array ≡ text ++ (0 ∷ rest)
  pub is_text : IsText text
  pub size : length text + suc (length rest) ≡ 1024

-- The reply to a session: -1 with a text, or 0 with what lay in `error_message`, up to 1024 bytes
-- with zeros.
abbrev pub reply_told : List ℕ → ℕ → List ℕ → List ℕ → ℕ → Reply
reply_told pipe code text lay n = record {
  pipe_name = pipe;
  code = code;
  return_code = if n == 0 then minus_one else pos 0;
  error_message = strncpy_bytes 1024 (if n == 0 then text else lay);
}

pub reply_message-told :
    (around : Surroundings) (text lay : List ℕ) (n : ℕ)
    → HasText around.stack_message lay
    → IsText text
    → length text < 1024
    → reply_message around text n ≡ some (strncpy_bytes 1024 (if n == 0 then text else lay))
unfolding reply_message
reply_message-told around text lay n has is_text short =
    let filled = fill_string-append 1024 lay has.rest has.is_text has.size in
    let (rest, copied, size) =
      strcpy-append (strncpy_bytes 1024 lay) text (omega (arith, length-strncpy_bytes 1024 lay)) in
    elim (Bool-cases (n == 0)) [
      | inl failed ↦
          rw (failed, has.bytes, filled, copied)
            (fill_string-append 1024 text rest is_text (size ∙ length-strncpy_bytes 1024 lay))
      | inr done ↦ rw (done, has.bytes) filled
    ]

pub end_session-removed :
    (b : Broker)
    → IsQueue b.queue
    → b.queue.popper_locked ≡ false
    → 0 < b.queue.pcq_current_size
    → end_session b ≡ ok tt (record b { queue = removed b.queue false })
unfolding end_session
end_session-removed b inv free some_there = go (dequeue_with-Dequeued b.queue inv true)
  where
    go :
        Dequeued b.queue inv true (pcq_dequeue b.queue)
        → end_session b ≡ ok tt (record b { queue = removed b.queue false })
    go (inl (held, r)) = absurd (let wrong : true ≡ false = cc in cc)
    go (inr (inl (free', empty, r))) = absurd (omega arith)
    go (inr (inr (free', some', r))) = rw (r, end_session)

-- The state behind a reply.
abbrev pub answered : Broker → Reply → Broker
answered b reply = record b { queue = removed b.queue false; replies = b.replies ++ (reply ∷ []) }

module _ (around : Surroundings) (pipe lay : List ℕ) (n : ℕ) (b : Broker)
    (has : HasText around.stack_message lay) (writable : around.can_write pipe ≡ true)
    (inv : IsQueue b.queue) (free : b.queue.popper_locked ≡ false)
    (some_there : 0 < b.queue.pcq_current_size) where
  pub reply_to_box_creation-answered :
      reply_to_box_creation around pipe n b
      ≡ ok tt (answered b (reply_told pipe 4 could_not_create lay n))
  unfolding reply_to_box_creation
  reply_to_box_creation-answered =
      let sent : Broker = record b {
        replies = b.replies ++ (reply_told pipe 4 could_not_create lay n ∷ []);
      } in
      rw
        (
          reply_message-told around could_not_create lay n has
              (has_no_zero-IsText could_not_create refl) (omega arith),
          writable,
          end_session-removed sent inv free some_there,
        )
        refl

  pub reply_to_box_removal-answered :
      reply_to_box_removal around pipe n b
      ≡ ok tt (answered b (reply_told pipe 6 could_not_remove lay n))
  unfolding reply_to_box_removal
  reply_to_box_removal-answered =
      let sent : Broker = record b {
        replies = b.replies ++ (reply_told pipe 6 could_not_remove lay n ∷ []);
      } in
      rw
        (
          reply_message-told around could_not_remove lay n has
              (has_no_zero-IsText could_not_remove refl) (omega arith),
          writable,
          end_session-removed sent inv free some_there,
        )
        refl
