-- ===== src/Client.antt =====
-- What the three client programs share: their pipes, and the request that each sends first.
pub mod Publisher
pub mod Subscriber
pub mod Manager
pub mod Requests
pub mod Samples
mod Tests
use so.Prelude.{ℕ, ◌+◌, ◌≡◌, ap, true, Bool, List, [], ◌∷◌, ◌++◌, if◌then◌else◌}
use so.Prelude.Int.{ℤ}
use so.Prelude.Run.{Cmd, Run, ok, exited, pure, exit_failure, ◌>>=◌, ◌>>◌}
use so.Boxes.{pipe_name_size, box_name_size}
use so.Wire.{System, strcpy, fill_string, or_fault}

-- What a client has done so far: the bytes written to the register pipe and to its own pipe, the
-- lines printed, how many messages a subscriber has printed, and the names unlinked.
pub record Client : Type 0 where
  pub registered : List ℕ
  pub written : List ℕ
  pub printed : List (List ℕ)
  pub n_messages : ℕ
  pub unlinked : List (List ℕ)

abbrev pub ClientCmd : Type 0 → Type 0
ClientCmd = Cmd Client

-- The operating system, whether writes to the two pipes succeed, and what lies in the arrays that a
-- client declares.
pub record Host : Type 0 where
  pub system : System
  pub can_register : Bool
  pub can_write : Bool
  pub pipe_array : List ℕ
  pub name_array : List ℕ
  pub message_array : List ℕ

-- The `write` calls to the register pipe, and the `exit` where one fails.
unfoldable pub write_register : Host → List ℕ → ClientCmd (Unit {0})
write_register host bytes c =
    if host.can_register then ok tt (record c { registered = c.registered ++ bytes }) else exited

unfoldable pub write_own : Host → List ℕ → ClientCmd (Unit {0})
write_own host bytes c =
    if host.can_write then ok tt (record c { written = c.written ++ bytes }) else exited

abbrev pub print : List ℕ → ClientCmd (Unit {0})
print line c = ok tt (record c { printed = c.printed ++ (line ∷ []) })

abbrev pub unlink : List ℕ → ClientCmd (Unit {0})
unlink name c = ok tt (record c { unlinked = c.unlinked ++ (name ∷ []) })

-- The code and the `register_request_t` that publishers, subscribers and managers send.
unfoldable pub send_request : Host → ℕ → List ℕ → List ℕ → ClientCmd (Unit {0})
send_request host code pipe_name box_name = do
  client ← or_fault (strcpy host.pipe_array pipe_name)
  name ← or_fault (strcpy host.name_array box_name)
  client' ← or_fault (fill_string pipe_name_size client)
  name' ← or_fault (fill_string box_name_size name)
  write_register host (code ∷ [])
  write_register host (client' ++ name')

pub write_register-ok :
    (host : Host) (bytes : List ℕ) (c : Client)
    → host.can_register ≡ true
    → write_register host bytes c ≡ ok tt (record c { registered = c.registered ++ bytes })
unfolding write_register
write_register-ok host bytes c h =
    ap (λ b. if b then ok tt (record c { registered = c.registered ++ bytes }) else exited) h

pub write_own-ok :
    (host : Host) (bytes : List ℕ) (c : Client)
    → host.can_write ≡ true
    → write_own host bytes c ≡ ok tt (record c { written = c.written ++ bytes })
unfolding write_own
write_own-ok host bytes c h =
    ap (λ b. if b then ok tt (record c { written = c.written ++ bytes }) else exited) h
