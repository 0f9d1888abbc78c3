-- ===== src/Prelude/Bytes.antt =====
-- Memory as a list of bytes: reading and writing ranges, and the C string functions over it.
use so.Prelude.{
  ℕ, zero, suc, ◌+◌, ◌-◌, ◌≤◌, ◌<◌, ◌≡◌, refl, ap, sym, ◌∙◌, Bool, true, List, [], ◌∷◌, ◌++◌, ◌&&◌,
  ◌||◌, arith, length, take, drop, ◌==◌, length-take, length-drop,
}

-- The `n` bytes from `off` on.
abbrev pub slice : ℕ → ℕ → List ℕ → List ℕ
slice off n mem = take n (drop off mem)

-- `bs` written over the bytes from `off` on; what would lie past the end is lost.
unfoldable pub splice : ℕ → List ℕ → List ℕ → List ℕ
splice zero [] mem = mem
splice zero (b ∷ bs) [] = []
splice zero (b ∷ bs) (x ∷ mem) = b ∷ splice zero bs mem
splice (suc off) bs [] = []
splice (suc off) bs (x ∷ mem) = x ∷ splice off bs mem

pub length-splice : (off : ℕ) (bs mem : List ℕ) → length (splice off bs mem) ≡ length mem
unfolding splice
length-splice zero [] mem = refl
length-splice zero (b ∷ bs) [] = refl
length-splice zero (b ∷ bs) (x ∷ mem) = ap suc (length-splice zero bs mem)
length-splice (suc off) bs [] = refl
length-splice (suc off) bs (x ∷ mem) = ap suc (length-splice off bs mem)

pub length-slice : (off n : ℕ) (mem : List ℕ) → off + n ≤ length mem → length (slice off n mem) ≡ n
length-slice off n mem h = omega (arith, length-take n (drop off mem), length-drop off mem)

-- A range that ends before the write.
pub slice-splice_before :
    (off n at : ℕ) (bs mem : List ℕ)
    → off + n ≤ at
    → slice off n (splice at bs mem) ≡ slice off n mem
unfolding splice
slice-splice_before zero zero at bs mem h = refl
slice-splice_before zero (suc n) zero bs mem h = absurd (omega arith)
slice-splice_before zero (suc n) (suc at) bs [] h = refl
slice-splice_before zero (suc n) (suc at) bs (x ∷ mem) h =
    ap (λ t. x ∷ t) (slice-splice_before zero n at bs mem (omega arith))
slice-splice_before (suc off) n zero bs mem h = absurd (omega arith)
slice-splice_before (suc off) n (suc at) bs [] h = refl
slice-splice_before (suc off) n (suc at) bs (x ∷ mem) h =
    slice-splice_before off n at bs mem (omega arith)

-- A range that starts behind the write.
pub drop-splice_after :
    (off at : ℕ) (bs mem : List ℕ)
    → at + length bs ≤ off
    → drop off (splice at bs mem) ≡ drop off mem
unfolding splice
drop-splice_after off zero [] mem h = refl
drop-splice_after zero zero (b ∷ bs) mem h = absurd (omega arith)
drop-splice_after (suc off) zero (b ∷ bs) [] h = refl
drop-splice_after (suc off) zero (b ∷ bs) (x ∷ mem) h =
    drop-splice_after off zero bs mem (omega arith)
drop-splice_after zero (suc at) bs mem h = absurd (omega arith)
drop-splice_after (suc off) (suc at) bs [] h = refl
drop-splice_after (suc off) (suc at) bs (x ∷ mem) h = drop-splice_after off at bs mem (omega arith)

pub slice-splice_after :
    (off n at : ℕ) (bs mem : List ℕ)
    → at + length bs ≤ off
    → slice off n (splice at bs mem) ≡ slice off n mem
slice-splice_after off n at bs mem h = ap (take n) (drop-splice_after off at bs mem h)

take-splice-zero :
    (bs mem : List ℕ) → length bs ≤ length mem → take (length bs) (splice zero bs mem) ≡ bs
unfolding splice
take-splice-zero [] mem h = refl
take-splice-zero (b ∷ bs) [] h = absurd (omega arith)
take-splice-zero (b ∷ bs) (x ∷ mem) h = ap (λ t. b ∷ t) (take-splice-zero bs mem (omega arith))

-- What was written is read back.
pub slice-splice_self :
    (off : ℕ) (bs mem : List ℕ)
    → off + length bs ≤ length mem
    → slice off (length bs) (splice off bs mem) ≡ bs
unfolding splice
slice-splice_self zero bs mem h = take-splice-zero bs mem (omega arith)
slice-splice_self (suc off) bs [] h = absurd (omega arith)
slice-splice_self (suc off) bs (x ∷ mem) h = slice-splice_self off bs mem (omega arith)

take-splice :
    (n k : ℕ) (bs mem : List ℕ)
    → k + length bs ≤ n
    → take n (splice k bs mem) ≡ splice k bs (take n mem)
unfolding splice
take-splice n zero [] mem h = refl
take-splice zero zero (b ∷ bs) mem h = absurd (omega arith)
take-splice (suc n) zero (b ∷ bs) [] h = refl
take-splice (suc n) zero (b ∷ bs) (x ∷ mem) h =
    ap (λ t. b ∷ t) (take-splice n zero bs mem (omega arith))
take-splice zero (suc k) bs mem h = absurd (omega arith)
take-splice (suc n) (suc k) bs [] h = refl
take-splice (suc n) (suc k) bs (x ∷ mem) h = ap (λ t. x ∷ t) (take-splice n k bs mem (omega arith))

splice-nil : (k : ℕ) (bs : List ℕ) → [] ≡ splice k bs []
unfolding splice
splice-nil zero [] = refl
splice-nil zero (b ∷ bs) = refl
splice-nil (suc k) bs = refl

take-take : (k n : ℕ) (mem : List ℕ) → k ≤ n → take k (take n mem) ≡ take k mem
take-take zero n mem h = refl
take-take (suc k) zero mem h = absurd (omega arith)
take-take (suc k) (suc n) [] h = refl
take-take (suc k) (suc n) (x ∷ mem) h = ap (λ t. x ∷ t) (take-take k n mem (omega arith))

drop-take : (a m : ℕ) (mem : List ℕ) → drop a (take m mem) ≡ take (m - a) (drop a mem)
drop-take zero m mem = ap (λ t. take t mem) m-sub_zero
  where
    m-sub_zero : m ≡ m - zero
    m-sub_zero = omega arith
drop-take (suc a) zero mem = ap (λ t. take t (drop (suc a) mem)) zero-sub
  where
    zero-sub : zero ≡ zero - suc a
    zero-sub = omega arith
drop-take (suc a) (suc m) [] = drop-take_nil (suc m - suc a)
  where
    drop-take_nil : (k : ℕ) → ◌≡◌ {A = List ℕ} [] (take k [])
    drop-take_nil zero = refl
    drop-take_nil (suc k) = refl
drop-take (suc a) (suc m) (x ∷ mem) = drop-take a m mem ∙ ap (λ t. take t (drop a mem)) suc-sub_suc
  where
    suc-sub_suc : m - a ≡ suc m - suc a
    suc-sub_suc = omega arith

drop-splice :
    (off k at : ℕ) (bs mem : List ℕ)
    → at ≡ off + k
    → drop off (splice at bs mem) ≡ splice k bs (drop off mem)
unfolding splice
drop-splice zero k at bs mem e = let e' : at ≡ k = omega arith in ap (λ t. splice t bs mem) e'
drop-splice (suc off) k zero bs mem e = absurd (omega arith)
drop-splice (suc off) k (suc at) bs [] e = splice-nil k bs
drop-splice (suc off) k (suc at) bs (x ∷ mem) e = drop-splice off k at bs mem (omega arith)

-- A write into a range, read back as the range with the write in it.
pub slice-splice_inside :
    (off k n : ℕ) (bs mem : List ℕ)
    → k + length bs ≤ n
    → slice off n (splice (off + k) bs mem) ≡ splice k bs (slice off n mem)
slice-splice_inside off k n bs mem h =
    ap (take n) (drop-splice off k (off + k) bs mem refl) ∙ take-splice n k bs (drop off mem) h

-- A write in bounds keeps what lies before and behind it.
pub splice-eq-append :
    (k : ℕ) (bs mem : List ℕ)
    → k + length bs ≤ length mem
    → splice k bs mem ≡ take k mem ++ (bs ++ drop (k + length bs) mem)
unfolding splice
splice-eq-append zero [] mem h = refl
splice-eq-append zero (b ∷ bs) [] h = absurd (omega arith)
splice-eq-append zero (b ∷ bs) (x ∷ mem) h =
    ap (λ t. b ∷ t) (splice-eq-append zero bs mem (omega arith))
    ∙ ap (λ t. b ∷ (bs ++ drop t mem)) zero-add_length
    ∙ ap (λ t. b ∷ (bs ++ drop t (x ∷ mem))) (suc-add_length)
  where
    zero-add_length : zero + length bs ≡ length bs
    zero-add_length = omega arith

    suc-add_length : suc (length bs) ≡ zero + suc (length bs)
    suc-add_length = omega arith
splice-eq-append (suc k) bs [] h = absurd (omega arith)
splice-eq-append (suc k) bs (x ∷ mem) h =
    ap (λ t. x ∷ t) (splice-eq-append k bs mem (omega arith))
    ∙ ap (λ t. x ∷ (take k mem ++ (bs ++ drop t (x ∷ mem)))) suc-add_length
  where
    suc-add_length : suc (k + length bs) ≡ suc k + length bs
    suc-add_length = omega arith

pub take-slice : (k n off : ℕ) (mem : List ℕ) → k ≤ n → take k (slice off n mem) ≡ slice off k mem
take-slice k n off mem h = take-take k n (drop off mem) h

pub drop_all : (k : ℕ) (mem : List ℕ) → length mem ≤ k → drop k mem ≡ []
drop_all zero [] h = refl
drop_all zero (x ∷ mem) h = absurd (omega arith)
drop_all (suc k) [] h = refl
drop_all (suc k) (x ∷ mem) h = drop_all k mem (omega arith)

pub drop-drop : (k n : ℕ) (mem : List ℕ) → drop k (drop n mem) ≡ drop (n + k) mem
drop-drop k zero mem = ap (λ t. drop t mem) zero-add_k
  where
    zero-add_k : k ≡ zero + k
    zero-add_k = omega arith
drop-drop k (suc n) [] = drop_all k [] (omega arith) ∙ sym (drop_all (suc n + k) [] (omega arith))
drop-drop k (suc n) (x ∷ mem) = drop-drop k n mem ∙ ap (λ t. drop t (x ∷ mem)) suc-add_k
  where
    suc-add_k : suc (n + k) ≡ suc n + k
    suc-add_k = omega arith

-- A range of a range.
pub slice-slice :
    (a n off m : ℕ) (mem : List ℕ) → a + n ≤ m → slice a n (slice off m mem) ≡ slice (off + a) n mem
slice-slice a n off m mem h =
    ap (take n) (drop-take a m (drop off mem))
    ∙ take-take n (m - a) (drop a (drop off mem)) (omega arith)
    ∙ ap (take n) (drop-drop a off mem)

-- `strcmp(a, b) == 0`: the bytes agree up to and including the first terminator. What a list
-- stands before is its terminator.
unfoldable pub strcmp_eq : List ℕ → List ℕ → Bool
strcmp_eq [] [] = true
strcmp_eq [] (b ∷ bs) = b == 0
strcmp_eq (a ∷ as') [] = a == 0
strcmp_eq (a ∷ as') (b ∷ bs) = (a == b) && ((a == 0) || strcmp_eq as' bs)

-- `strncmp(a, b, n) == 0`.
unfoldable pub strncmp_eq : ℕ → List ℕ → List ℕ → Bool
strncmp_eq zero a b = true
strncmp_eq (suc n) [] [] = true
strncmp_eq (suc n) [] (b ∷ bs) = b == 0
strncmp_eq (suc n) (a ∷ as') [] = a == 0
strncmp_eq (suc n) (a ∷ as') (b ∷ bs) = (a == b) && ((a == 0) || strncmp_eq n as' bs)

-- The bytes that `strncpy(dest, s, n)` writes.
unfoldable pub strncpy_bytes : ℕ → List ℕ → List ℕ
strncpy_bytes zero s = []
strncpy_bytes (suc n) [] = 0 ∷ strncpy_bytes n []
strncpy_bytes (suc n) (c ∷ s) = c ∷ strncpy_bytes n s

-- A C string without its terminator: no byte of it is zero.
abbrev pub IsText : List ℕ → Type 0
IsText [] = Unit
IsText (c ∷ s) = (0 < c) × IsText s

pub length-strncpy_bytes : (n : ℕ) (s : List ℕ) → length (strncpy_bytes n s) ≡ n
unfolding strncpy_bytes
length-strncpy_bytes zero s = refl
length-strncpy_bytes (suc n) [] = ap suc (length-strncpy_bytes n [])
length-strncpy_bytes (suc n) (c ∷ s) = ap suc (length-strncpy_bytes n s)

-- A name copied in front of a terminator is found again.
pub strncmp_eq-strncpy_bytes_self :
    (n m : ℕ) (s rest : List ℕ)
    → length s ≤ m
    → m < n
    → strncmp_eq n (strncpy_bytes m s ++ (0 ∷ rest)) s ≡ true
unfolding strncmp_eq strncpy_bytes
strncmp_eq-strncpy_bytes_self zero m s rest h k = absurd (omega arith)
strncmp_eq-strncpy_bytes_self (suc n) zero [] rest h k = refl
strncmp_eq-strncpy_bytes_self (suc n) zero (c ∷ s) rest h k = absurd (omega arith)
strncmp_eq-strncpy_bytes_self (suc n) (suc m) [] rest h k = refl
strncmp_eq-strncpy_bytes_self (suc n) (suc m) (c ∷ s) rest h k =
    ground (arith, strncmp_eq-strncpy_bytes_self n m s rest)

-- A different name is not.
pub strncmp_eq-strncpy_bytes_ne :
    (n m : ℕ) (s t rest : List ℕ)
    → IsText s
    → IsText t
    → length s ≤ m
    → length t < n
    → m < n
    → strncmp_eq n (strncpy_bytes m s ++ (0 ∷ rest)) t ≡ true
    → s ≡ t
unfolding strncmp_eq strncpy_bytes
strncmp_eq-strncpy_bytes_ne zero m s t rest hs ht h k l e = absurd (omega arith)
strncmp_eq-strncpy_bytes_ne (suc n) zero [] [] rest hs ht h k l e = refl
strncmp_eq-strncpy_bytes_ne (suc n) zero [] (d ∷ t) rest hs ht h k l e = ground arith
strncmp_eq-strncpy_bytes_ne (suc n) zero (c ∷ s) t rest hs ht h k l e = absurd (omega arith)
strncmp_eq-strncpy_bytes_ne (suc n) (suc m) [] [] rest hs ht h k l e = refl
strncmp_eq-strncpy_bytes_ne (suc n) (suc m) [] (d ∷ t) rest hs ht h k l e = ground arith
strncmp_eq-strncpy_bytes_ne (suc n) (suc m) (c ∷ s) [] rest hs ht h k l e = ground arith
strncmp_eq-strncpy_bytes_ne (suc n) (suc m) (c ∷ s) (d ∷ t) rest hs ht h k l e =
    ground (arith, strncmp_eq-strncpy_bytes_ne n m s t rest hs.1 ht.1)

-- The bytes `data` written over `xs` from `off` on, which may go past its end.
abbrev pub overwrite : List ℕ → ℕ → List ℕ → List ℕ
overwrite xs off bytes = take off xs ++ (bytes ++ drop (off + length bytes) xs)

pub take-append-drop : (n : ℕ) (xs : List ℕ) → take n xs ++ drop n xs ≡ xs
take-append-drop zero xs = refl
take-append-drop (suc n) [] = refl
take-append-drop (suc n) (x ∷ xs) = ap (λ t. x ∷ t) (take-append-drop n xs)

pub overwrite-nil : (xs : List ℕ) (off : ℕ) → overwrite xs off [] ≡ xs
overwrite-nil xs off =
    let same : off + 0 ≡ off = omega arith in
    ap (λ t. take off xs ++ drop t xs) same ∙ take-append-drop off xs
