-- ===== src/Action.antt =====
-- Actions over a state that return a value or an error: a call of a stateful Go function, with the
-- state before and after it.
pub mod Preserves
use nexus_agent_protocol.Prelude.{Result, ok, err}

abbrev pub Action : Type 0 → Type 0 → Type 0 → Type 0
Action S E A = S → Result E A × S

module _ {S : Type 0} where
  abbrev pub pure : {E A : Type 0} → A → Action S E A
  pure a w = (ok a, w)

  abbrev pub fail : {E A : Type 0} → E → Action S E A
  fail e w = (err e, w)

  abbrev pub continue : {E A B : Type 0} → (A → Action S E B) → Result E A → S → Result E B × S
  continue f (ok a) w = f a w
  continue f (err e) w = (err e, w)

  infixl 5 ◌>>=◌ ◌>>◌
  abbrev pub ◌>>=◌ : {E A B : Type 0} → Action S E A → (A → Action S E B) → Action S E B
  ◌>>=◌ m f w = let (r, w') = m w in continue f r w'

  abbrev pub ◌>>◌ : {E A B : Type 0} → Action S E A → Action S E B → Action S E B
  m >> n = m >>= λ _. n

  -- the result as a value: the caller looks at the error itself
  abbrev pub tried : {E F A : Type 0} → Action S E A → Action S F (Result E A)
  tried m w = (ok (m w).0, (m w).1)
