-- ===== src/Client/Requests.antt =====
-- The request of a client on the register pipe, and what the broker reads out of it.
use so.Prelude.{ℕ, ◌≡◌, ap, true, some, List, [], ◌∷◌, ◌++◌, append_assoc, length}
use so.Prelude.Run.{ok}
use so.Broker.{Request}
use so.Client.{Host, Client, send_request, write_register-ok}
use so.Wire.Requests.{request_in, IsRequest, request_bytes, length-request_bytes, request_of_bytes}
use so.Wire.Strings.{strcpy-fill_string}

-- Let the register pipe be writable, let the arrays of a client's `register_request_t` have 256 and
-- 32 bytes, whatever lies in them, and let the pipe's name and the box's name, with no zero byte, be
-- below 256 and 32 bytes. Then `send_request`, with which publishers, subscribers and managers ask
-- for a session, writes its code and as many bytes as the structure has to the register pipe, and
-- out of these bytes, whatever comes behind them, the broker takes exactly the two names.
pub send_request-request_in :
    (host : Host) (code : ℕ) (request : Request) (c : Client) (rest : List ℕ)
    → host.can_register ≡ true
    → length host.pipe_array ≡ 256
    → length host.name_array ≡ 32
    → IsRequest request
    → (bytes : List ℕ) × (send_request host code request.client_name_pipe_path request.box_name c
        ≡ ok tt (record c { registered = c.registered ++ (code ∷ bytes) }))
      × (length bytes ≡ 288)
      × (request_in (bytes ++ rest) ≡ some request)
unfolding send_request
send_request-request_in host code request c rest writable pipe_array name_array fits =
    let (client, copied, filled) =
      strcpy-fill_string 256 host.pipe_array request.client_name_pipe_path fits.client pipe_array
        fits.client_fits in
    let (name, copied', filled') =
      strcpy-fill_string 32 host.name_array request.box_name fits.name name_array fits.name_fits in
    (
      request_bytes request,
      rw
          (
            copied,
            copied',
            filled,
            filled',
            write_register-ok host (code ∷ []) c writable,
            write_register-ok host (request_bytes request)
                (record c { registered = c.registered ++ (code ∷ []) }) writable,
          )
          (ap (λ t. ok tt (record c { registered = t }))
            (append_assoc c.registered (code ∷ []) (request_bytes request))),
      length-request_bytes request,
      request_of_bytes request rest fits,
    )
