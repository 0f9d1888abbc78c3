-- ===== src/Wire/Strings.antt =====
-- Strings in arrays: what `fill_string` leaves is the string and zeros, whatever lay there.
use so.Prelude.{
  ℕ, zero, suc, ◌+◌, ◌-◌, ◌<◌, ◌≡◌, refl, sym, ap, ◌∙◌, false, some, List, [], ◌∷◌, ◌++◌, length,
  length-append, append_assoc, replicate, arith, lt→ltb, le→leb, ◌==◌, ◌==◌,
}
use so.Prelude.Bytes.{splice, IsText, strncpy_bytes}
use so.Wire.{and_some, string_at, strcpy, clear_from, fill_string}

-- A string in front of a terminator is read back.
pub string_at-append : (s rest : List ℕ) → IsText s → string_at (s ++ (0 ∷ rest)) ≡ some s
unfolding string_at
string_at-append [] rest is_text = refl
string_at-append (c ∷ s) rest is_text =
    let byte : (c == 0) ≡ false = let above = is_text.0 in ground arith in
    rw (byte, string_at-append s rest is_text.1)

pub strncpy_bytes-append :
    (n m : ℕ) (s : List ℕ) → n ≡ length s + m → strncpy_bytes n s ≡ s ++ replicate m 0
unfolding strncpy_bytes
strncpy_bytes-append zero zero [] e = refl
strncpy_bytes-append zero (suc m) [] e = absurd (omega arith)
strncpy_bytes-append zero m (c ∷ s) e = absurd (omega arith)
strncpy_bytes-append (suc n) zero [] e = absurd (omega arith)
strncpy_bytes-append (suc n) (suc m) [] e =
    ap (λ t. 0 ∷ t) (strncpy_bytes-append n m [] (omega arith))
strncpy_bytes-append (suc n) m (c ∷ s) e =
    ap (λ t. c ∷ t) (strncpy_bytes-append n m s (omega arith))

pub splice-strcpy :
    (s array : List ℕ)
    → length s < length array
    → (rest : List ℕ) × (splice 0 (s ++ (0 ∷ [])) array ≡ s ++ (0 ∷ rest))
      × (length rest + suc (length s) ≡ length array)
unfolding splice
splice-strcpy [] [] h = absurd (omega arith)
splice-strcpy [] (x ∷ array) h = (array, refl, omega arith)
splice-strcpy (c ∷ s) [] h = absurd (omega arith)
splice-strcpy (c ∷ s) (x ∷ array) h =
    let (rest, e, l) = splice-strcpy s array (omega arith) in (rest, ap (λ t. c ∷ t) e, omega arith)

splice-zeros :
    (s rest : List ℕ) (n : ℕ)
    → n ≡ length rest
    → splice (length s) (replicate n 0) (s ++ rest) ≡ s ++ replicate n 0
unfolding splice
splice-zeros [] [] zero h = refl
splice-zeros [] (x ∷ rest) zero h = absurd (omega arith)
splice-zeros [] [] (suc n) h = absurd (omega arith)
splice-zeros [] (x ∷ rest) (suc n) h = ap (λ t. 0 ∷ t) (splice-zeros [] rest n (omega arith))
splice-zeros (c ∷ s) rest n h = ap (λ t. c ∷ t) (splice-zeros s rest n h)

-- `fill_string` keeps the string and clears what lies behind it.
pub fill_string-append :
    (size : ℕ) (s rest : List ℕ)
    → IsText s
    → length s + suc (length rest) ≡ size
    → fill_string size (s ++ (0 ∷ rest)) ≡ some (strncpy_bytes size s)
unfolding fill_string
fill_string-append size s rest is_text whole =
    let there : length (s ++ (0 ∷ rest)) ≡ size = omega (arith, length-append s (0 ∷ rest)) in
    ap (λ t. and_some t (clear_from size (s ++ (0 ∷ rest)))) (string_at-append s rest is_text)
    ∙ rw
        (le→leb (length s) size (omega arith), le→leb size (length (s ++ (0 ∷ rest))) (omega arith))
        (ap some (
          splice-zeros s (0 ∷ rest) (size - length s) (omega arith)
          ∙ sym (strncpy_bytes-append size (size - length s) s (omega arith))))

pub strcpy-append :
    (array s : List ℕ)
    → length s < length array
    → (rest : List ℕ) × (strcpy array s ≡ some (s ++ (0 ∷ rest)))
      × (length s + suc (length rest) ≡ length array)
strcpy-append array s short =
    let (rest, copied, l) = splice-strcpy s array short in
    (rest, rw (lt→ltb (length s) (length array) short) (ap some copied), omega arith)

-- A string copied into an array of the size and filled up.
pub strcpy-fill_string :
    (size : ℕ) (array s : List ℕ)
    → IsText s
    → length array ≡ size
    → length s < size
    → (copy : List ℕ) × (strcpy array s ≡ some copy)
      × (fill_string size copy ≡ some (strncpy_bytes size s))
strcpy-fill_string size array s is_text whole short =
    let (rest, copied, l) = strcpy-append array s (omega arith) in
    (s ++ (0 ∷ rest), copied, fill_string-append size s rest is_text (l ∙ whole))

-- A string in a field of a structure is read back.
pub string_at-strncpy_bytes :
    (size : ℕ) (s rest : List ℕ)
    → IsText s
    → length s < size
    → string_at (strncpy_bytes size s ++ rest) ≡ some s
string_at-strncpy_bytes size s rest is_text short = go (size - length s - 1) (omega arith)
  where
    go : (m : ℕ) → size ≡ length s + suc m → string_at (strncpy_bytes size s ++ rest) ≡ some s
    go m e =
        ap (λ t. string_at (t ++ rest)) (strncpy_bytes-append size (suc m) s e)
        ∙ ap string_at (append_assoc s (0 ∷ replicate m 0) rest)
        ∙ string_at-append s (replicate m 0 ++ rest) is_text
