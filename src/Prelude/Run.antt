-- ===== src/Prelude/Run.antt =====
-- Stateful commands with the ways in which a C call can end: it returns, it calls `exit`, it reads
-- or writes outside an object, or it waits for ever for a mutex.
use so.Prelude.{Bool, true, false}

pub data Run (S A : Type 0) : Type 0 where
  ok : A → S → Run S A
  exited : Run S A
  fault : Run S A
  blocked : Run S A

abbrev pub Cmd : Type 0 → Type 0 → Type 0
Cmd S A = S → Run S A

module _ {S A : Type 0} where
  abbrev pub pure : A → Cmd S A
  pure a s = ok a s

  abbrev pub exit_failure : Cmd S A
  exit_failure s = exited

  abbrev pub out_of_bounds : Cmd S A
  out_of_bounds s = fault

module _ {S A B : Type 0} where
  abbrev pub and_then : Run S A → (A → Cmd S B) → Run S B
  and_then (ok a s) k = k a s
  and_then exited k = exited
  and_then fault k = fault
  and_then blocked k = blocked

  infixl 5 ◌>>=◌ ◌>>◌
  abbrev pub ◌>>=◌ : Cmd S A → (A → Cmd S B) → Cmd S B
  ◌>>=◌ m k s = and_then (m s) k

  abbrev pub ◌>>◌ : Cmd S A → Cmd S B → Cmd S B
  ◌>>◌ m k s = and_then (m s) (λ _. k)

-- `ALWAYS_ASSERT` of utils/betterassert.h: `PANIC` ends the process.
abbrev pub always_assert : {S : Type 0} → Bool → Cmd S (Unit {0})
always_assert true s = ok tt s
always_assert false s = exited
