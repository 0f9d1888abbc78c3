-- ===== src/Client/Publisher/Frames.antt =====
-- What the publisher writes to its pipe for the lines of its input.
use so.Prelude.{
  ℕ, zero, suc, ◌+◌, ◌-◌, ◌<◌, ◌≡◌, ◌≢◌, refl, sym, ap, ◌∙◌, true, false, some, List, [], ◌∷◌, ◌++◌,
  append_assoc, append-nil, length, length-append, set, ◌==◌, arith,
}
use so.Prelude.Run.{ok}
use so.Prelude.Bytes.{IsText, strncpy_bytes, length-strncpy_bytes}
use so.Wire.Strings.{string_at-append, strcpy-append, fill_string-append}
use so.Client.{Host, Client, write_own-ok}
use so.Client.Publisher.{fgets_bytes, fgets, end_message, frame_message, send_lines}

-- A line of the input without its newline: no byte of it is zero or a newline.
abbrev pub IsLine : List ℕ → Type 0
IsLine [] = Unit
IsLine (c ∷ l) = (0 < c) × (c ≢ 10) × IsLine l

abbrev pub AreLines : List (List ℕ) → Type 0
AreLines [] = Unit
AreLines (l ∷ ls) = IsLine l × (length l < 1023) × AreLines ls

-- The input with these lines.
abbrev pub lines_bytes : List (List ℕ) → List ℕ
lines_bytes [] = []
lines_bytes (l ∷ ls) = l ++ (10 ∷ lines_bytes ls)

-- The frames of messages under a code: the code, and 1024 bytes with the message and zeros.
abbrev pub frames : ℕ → List (List ℕ) → List ℕ
frames code [] = []
frames code (m ∷ ms) = code ∷ (strncpy_bytes 1024 m ++ frames code ms)

pub line-IsText : (l : List ℕ) → IsLine l → IsText l
line-IsText [] is_line = tt
line-IsText (c ∷ l) is_line = (is_line.0, line-IsText l is_line.2)

newline-IsText : (l : List ℕ) → IsLine l → IsText (l ++ (10 ∷ []))
newline-IsText [] is_line = (omega arith, tt)
newline-IsText (c ∷ l) is_line = (is_line.0, newline-IsText l is_line.2)

fgets_bytes-line :
    (n : ℕ) (l rest : List ℕ)
    → IsLine l
    → length l < n
    → fgets_bytes n (l ++ (10 ∷ rest)) ≡ (l ++ (10 ∷ []), rest)
unfolding fgets_bytes
fgets_bytes-line zero l rest is_line h = absurd (omega arith)
fgets_bytes-line (suc n) [] rest is_line h = refl
fgets_bytes-line (suc n) (c ∷ l) rest is_line h =
    let byte : (c == 10) ≡ false = let ne = is_line.1 in ground arith in
    rw (byte, fgets_bytes-line n l rest is_line.2 (omega arith))

fgets-line :
    (l rest : List ℕ)
    → IsLine l
    → length l < 1023
    → fgets 1024 (l ++ (10 ∷ rest)) ≡ some (l ++ (10 ∷ []), rest)
fgets-line [] rest is_line h = ap some (fgets_bytes-line 1023 [] rest is_line h)
fgets-line (c ∷ l) rest is_line h = ap some (fgets_bytes-line 1023 (c ∷ l) rest is_line h)

pub set-append : (l rest : List ℕ) (c v : ℕ) → set (l ++ (c ∷ rest)) (length l) v ≡ l ++ (v ∷ rest)
set-append [] rest c v = refl
set-append (d ∷ l) rest c v = ap (λ t. d ∷ t) (set-append l rest c v)

-- A line of at most 1022 bytes becomes a message of 1024: the line and zeros.
frame_message-line :
    (message l : List ℕ)
    → IsLine l
    → length l < 1023
    → length message ≡ 1024
    → frame_message message (l ++ (10 ∷ [])) ≡ some (strncpy_bytes 1024 l)
unfolding frame_message end_message
frame_message-line message l is_line short whole =
    let size : length (l ++ (10 ∷ [])) ≡ length l + 1 = omega (arith, length-append l (10 ∷ [])) in
    let (rest, copied, left) = strcpy-append message (l ++ (10 ∷ [])) (omega arith) in
    let there : (l ++ (10 ∷ [])) ++ (0 ∷ rest) ≡ l ++ (10 ∷ (0 ∷ rest)) =
      append_assoc l (10 ∷ []) (0 ∷ rest) in
    let not_full : (length (l ++ (10 ∷ [])) == 1024) ≡ false = ground arith in
    let not_empty : (length (l ++ (10 ∷ [])) == 0) ≡ false = ground arith in
    let cut : set ((l ++ (10 ∷ [])) ++ (0 ∷ rest)) (length (l ++ (10 ∷ [])) - 1) 0
        ≡ l ++ (0 ∷ (0 ∷ rest)) =
      ap (λ t. set t (length (l ++ (10 ∷ [])) - 1) 0) there
      ∙ ap (λ t. set (l ++ (10 ∷ (0 ∷ rest))) t 0) (omega arith)
      ∙ set-append l (0 ∷ rest) 10 0 in
    rw
      (
        string_at-append (l ++ (10 ∷ [])) [] (newline-IsText l is_line),
        copied,
        string_at-append (l ++ (10 ∷ [])) rest (newline-IsText l is_line),
        not_full,
        not_empty,
        cut,
      )
      (fill_string-append 1024 l (0 ∷ rest) (line-IsText l is_line) (omega arith))

-- The loop writes one frame for each line.
pub send_lines-frames :
    (ls : List (List ℕ)) (fuel : ℕ) (host : Host) (message : List ℕ) (c : Client)
    → AreLines ls
    → length ls < fuel
    → length message ≡ 1024
    → host.can_write ≡ true
    → send_lines fuel host message (lines_bytes ls) c
      ≡ ok tt (record c { written = c.written ++ frames 9 ls })
unfolding send_lines
send_lines-frames ls zero host message c are_lines enough whole writable = absurd (omega arith)
send_lines-frames [] (suc fuel) host message c are_lines enough whole writable =
    ap (λ t. ok tt (record c { written = t })) (sym (append-nil c.written))
send_lines-frames (l ∷ ls) (suc fuel) host message c are_lines enough whole writable =
    rw
      (
        fgets-line l (lines_bytes ls) are_lines.0 are_lines.1,
        frame_message-line message l are_lines.0 are_lines.1 whole,
        write_own-ok host (9 ∷ []) c writable,
        write_own-ok host (strncpy_bytes 1024 l) (record c { written = c.written ++ (9 ∷ []) })
            writable,
        send_lines,
      )
      (send_lines-frames ls fuel host (strncpy_bytes 1024 l)
          (record c { written = (c.written ++ (9 ∷ [])) ++ strncpy_bytes 1024 l }) are_lines.2
          (omega arith) (length-strncpy_bytes 1024 l) writable
        ∙ ap (λ t. ok tt (record c { written = t })) joined)
  where
    joined :
        ((c.written ++ (9 ∷ [])) ++ strncpy_bytes 1024 l) ++ frames 9 ls
        ≡ c.written ++ frames 9 (l ∷ ls)
    joined =
        append_assoc (c.written ++ (9 ∷ [])) (strncpy_bytes 1024 l) (frames 9 ls)
        ∙ append_assoc c.written (9 ∷ []) (strncpy_bytes 1024 l ++ frames 9 ls)
