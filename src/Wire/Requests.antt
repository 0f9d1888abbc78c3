-- ===== src/Wire/Requests.antt =====
-- The bytes of a request, and what the broker reads out of them.
use so.Prelude.{
  ℕ, ◌<◌, ◌≡◌, refl, ap, ◌∙◌, none, some, Option, List, [], if◌then◌else◌, ltb, ◌++◌, length,
  lt→ltb, length-append, length-append, drop, append_assoc, zero, suc, ◌∷◌, arith,
}
use so.Prelude.Bytes.{IsText, strncpy_bytes, length-strncpy_bytes}
use so.Broker.{Request}
use so.Boxes.{pipe_name_size, box_name_size}
use so.Wire.{and_some, string_at}
use so.Wire.Strings.{string_at-strncpy_bytes}

-- What `strcpy` takes into an array of `size` bytes.
abbrev pub short_string : ℕ → List ℕ → Option (List ℕ)
short_string size s = if ltb (length s) size then some s else none

-- The strings that `strcpy` takes out of the bytes of a `register_request_t`, each into an array of
-- its size.
abbrev pub request_in : List ℕ → Option Request
request_in bytes = and_some (string_at bytes) (λ client.
    and_some (short_string pipe_name_size client) (λ client'.
      and_some (string_at (drop pipe_name_size bytes)) (λ name.
        and_some (short_string box_name_size name)
          (λ name'. some (record { client_name_pipe_path = client'; box_name = name' })))))

-- The strings of a request fit into its fields.
pub record IsRequest (request : Request) : Type 0 where
  pub client : IsText request.client_name_pipe_path
  pub client_fits : length request.client_name_pipe_path < 256
  pub name : IsText request.box_name
  pub name_fits : length request.box_name < 32

-- The bytes of a `register_request_t`.
abbrev pub request_bytes : Request → List ℕ
request_bytes request =
    strncpy_bytes 256 request.client_name_pipe_path ++ strncpy_bytes 32 request.box_name

pub length-request_bytes : (request : Request) → length (request_bytes request) ≡ 288
length-request_bytes request = omega (
  arith,
  length-append (strncpy_bytes 256 request.client_name_pipe_path)
      (strncpy_bytes 32 request.box_name),
  length-strncpy_bytes 256 request.client_name_pipe_path,
  length-strncpy_bytes 32 request.box_name,
)

pub drop-append : (xs ys : List ℕ) (n : ℕ) → length xs ≡ n → drop n (xs ++ ys) ≡ ys
drop-append [] ys zero e = refl
drop-append [] ys (suc n) e = absurd (omega arith)
drop-append (x ∷ xs) ys zero e = absurd (omega arith)
drop-append (x ∷ xs) ys (suc n) e = drop-append xs ys n (omega arith)

pub request_of_bytes :
    (request : Request) (rest : List ℕ)
    → IsRequest request
    → request_in (request_bytes request ++ rest) ≡ some request
request_of_bytes request rest fits =
    rw
      (
        client_there,
        name_there,
        lt→ltb (length request.client_name_pipe_path) 256 fits.client_fits,
        lt→ltb (length request.box_name) 32 fits.name_fits,
      )
      refl
  where
    client_there : string_at (request_bytes request ++ rest) ≡ some request.client_name_pipe_path
    client_there =
        ap string_at (
          append_assoc (strncpy_bytes 256 request.client_name_pipe_path)
            (strncpy_bytes 32 request.box_name) rest)
        ∙ string_at-strncpy_bytes 256 request.client_name_pipe_path
            (strncpy_bytes 32 request.box_name ++ rest) fits.client fits.client_fits

    name_there : string_at (drop 256 (request_bytes request ++ rest)) ≡ some request.box_name
    name_there =
        ap (λ t. string_at (drop 256 t))
          (append_assoc (strncpy_bytes 256 request.client_name_pipe_path)
            (strncpy_bytes 32 request.box_name) rest)
        ∙ ap string_at (
            drop-append (strncpy_bytes 256 request.client_name_pipe_path)
              (strncpy_bytes 32 request.box_name ++ rest) 256
              (length-strncpy_bytes 256 request.client_name_pipe_path))
        ∙ string_at-strncpy_bytes 32 request.box_name rest fits.name fits.name_fits
