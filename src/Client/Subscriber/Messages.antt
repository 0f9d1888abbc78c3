-- ===== src/Client/Subscriber/Messages.antt =====
-- What the subscriber prints of the messages that come through its pipe.
use so.Prelude.{
  ℕ, zero, suc, ◌+◌, ◌<◌, ◌≡◌, refl, sym, ap, ◌∙◌, some, List, [], ◌∷◌, ◌++◌, append_assoc,
  append-nil, length, take, replicate, arith,
}
use so.Prelude.Run.{ok}
use so.Prelude.Bytes.{splice, IsText, strncpy_bytes, length-strncpy_bytes}
use so.Wire.{string_at, read_pipe}
use so.Wire.Requests.{drop-append}
use so.Wire.Strings.{string_at-strncpy_bytes}
use so.Client.{Client}
use so.Client.Publisher.Frames.{frames}
use so.Client.Subscriber.{print_messages}

-- Messages that fit into a frame.
abbrev pub AreMessages : List (List ℕ) → Type 0
AreMessages [] = Unit
AreMessages (m ∷ ms) = IsText m × (length m < 1024) × AreMessages ms

pub take-append : (xs ys : List ℕ) (n : ℕ) → length xs ≡ n → take n (xs ++ ys) ≡ xs
take-append [] ys zero e = refl
take-append [] ys (suc n) e = absurd (omega arith)
take-append (x ∷ xs) ys zero e = absurd (omega arith)
take-append (x ∷ xs) ys (suc n) e = ap (λ t. x ∷ t) (take-append xs ys n (omega arith))

pub splice-whole : (bs mem : List ℕ) → length bs ≡ length mem → splice 0 bs mem ≡ bs
unfolding splice
splice-whole [] [] e = refl
splice-whole [] (x ∷ mem) e = absurd (omega arith)
splice-whole (b ∷ bs) [] e = absurd (omega arith)
splice-whole (b ∷ bs) (x ∷ mem) e = ap (λ t. b ∷ t) (splice-whole bs mem (omega arith))

-- A read of a whole frame into a buffer of its size.
pub read_pipe-frame :
    (message m rest : List ℕ)
    → length message ≡ 1024
    → read_pipe 1024 message (strncpy_bytes 1024 m ++ rest) ≡ (strncpy_bytes 1024 m, rest)
read_pipe-frame message m rest whole =
    let size : length (strncpy_bytes 1024 m) ≡ 1024 = length-strncpy_bytes 1024 m in
    rw
      (
        take-append (strncpy_bytes 1024 m) rest 1024 size,
        drop-append (strncpy_bytes 1024 m) rest 1024 size,
      )
      (ap (λ t. (t, rest)) (splice-whole (strncpy_bytes 1024 m) message (size ∙ sym whole)))

pub text_of_frame :
    (m : List ℕ) → IsText m → length m < 1024 → string_at (strncpy_bytes 1024 m) ≡ some m
text_of_frame m is_text short =
    ap string_at (sym (append-nil (strncpy_bytes 1024 m)))
    ∙ string_at-strncpy_bytes 1024 m [] is_text short

-- The loop prints each message, and counts them.
pub print_messages-frames :
    (ms : List (List ℕ)) (fuel : ℕ) (message : List ℕ) (c : Client)
    → AreMessages ms
    → length ms < fuel
    → length message ≡ 1024
    → print_messages fuel message (frames 10 ms) c
      ≡ ok tt (record c { printed = c.printed ++ ms; n_messages = c.n_messages + length ms })
unfolding print_messages
print_messages-frames ms zero message c are enough whole = absurd (omega arith)
print_messages-frames [] (suc fuel) message c are enough whole =
    let count : c.n_messages ≡ c.n_messages + 0 = omega arith in
    ap (λ t. ok tt (record c { printed = t })) (sym (append-nil c.printed))
    ∙ ap (λ t. ok tt (record c { printed = c.printed ++ []; n_messages = t })) count
print_messages-frames (m ∷ ms) (suc fuel) message c are enough whole =
    let count : c.n_messages + 1 + length ms ≡ c.n_messages + suc (length ms) = omega arith in
    rw
      (
        ap (λ t. t.0) (read_pipe-frame message m (frames 10 ms) whole),
        ap (λ t. t.1) (read_pipe-frame message m (frames 10 ms) whole),
        text_of_frame m are.0 are.1,
        print_messages,
      )
      (print_messages-frames ms fuel (replicate 1024 0)
          (record c { printed = c.printed ++ (m ∷ []); n_messages = c.n_messages + 1 }) are.2
          (omega arith) refl
        ∙ ap (λ t. ok tt (record c { printed = t; n_messages = c.n_messages + 1 + length ms }))
            (append_assoc c.printed (m ∷ []) ms)
        ∙ ap (λ t. ok tt (record c { printed = c.printed ++ (m ∷ ms); n_messages = t })) count)
