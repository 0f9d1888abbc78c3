-- ===== src/Prelude/Returns.antt =====
-- Total correctness of a command: it returns, and the result and the state satisfy a predicate.
use so.Prelude.Run.{Run, ok, exited, fault, blocked, Cmd, and_then}

pub data Returns {S A : Type 0} (P : A → S → Type 0) : Run S A → Type 0 where
  returns : {a : A} {s : S} → P a s → Returns P (ok a s)

module _ {S A : Type 0} where
  -- Partial correctness: what holds if the command returns.
  abbrev pub IfOk : (A → S → Type 0) → Run S A → Type 0
  IfOk Q (ok a s) = Q a s
  IfOk Q exited = Unit
  IfOk Q fault = Unit
  IfOk Q blocked = Unit

module _ {S A : Type 0} {P : A → S → Type 0} where
  pub bind :
      {B : Type 0} {Q : B → S → Type 0} {r : Run S A} {k : A → Cmd S B}
      → Returns P r
      → ((a : A) (s : S) → P a s → Returns Q (k a s))
      → Returns Q (and_then r k)
  bind (returns p) next = next _ _ p

  pub mono :
      {Q : A → S → Type 0} {r : Run S A}
      → Returns P r
      → ((a : A) (s : S) → P a s → Q a s)
      → Returns Q r
  mono (returns p) weaken = returns (weaken _ _ p)

  pub result_of : (a : A) (s : S) → Returns P (ok a s) → P a s
  result_of a s (returns p) = p
