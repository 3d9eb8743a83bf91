-- ===== src/Action/Preserves.antt =====
-- Actions that preserve a property of the state, with one rule for each way to build an action.
use nexus_agent_protocol.Prelude.{Bool, true, false, if◌then◌else◌, Result, ok, err}
use nexus_agent_protocol.Action.{Action, pure, fail, continue, ◌>>=◌, tried}

pub record Preserves {S E A : Type 0} (P : S → Type 0) (m : Action S E A) : Type 0 where
  pub keeps : (w : S) → P w → P (m w).1

module _ {S E : Type 0} (P : S → Type 0) where
  pub Preserves-pure : {A : Type 0} (x : A) → Preserves {E = E} P (pure x)
  Preserves-pure x = record { keeps = λ w h. h }

  pub Preserves-fail : {A : Type 0} (e : E) → Preserves {A = A} P (fail e)
  Preserves-fail e = record { keeps = λ w h. h }

module _ {S E A : Type 0} {P : S → Type 0} where
  pub Preserves-if :
      (b : Bool) {m n : Action S E A}
      → Preserves P m
      → Preserves P n
      → Preserves P (if b then m else n)
  Preserves-if true hm hn = hm
  Preserves-if false hm hn = hn

  pub Preserves-tried :
      {F : Type 0} {m : Action S E A} → Preserves P m → Preserves {E = F} P (tried m)
  Preserves-tried hm = record { keeps = hm.keeps }

  -- an action that looks at the state first
  pub Preserves-at :
      (m : S → Action S E A) → ((v : S) → Preserves P (m v)) → Preserves P (λ w. m w w)
  Preserves-at m h = record { keeps = λ w. (h w).keeps w }

module _ {S E A B : Type 0} {P : S → Type 0} where
  pub kept_then :
      (f : A → Action S E B) (r : Result E A) (w : S)
      → P w
      → ((x : A) → Preserves P (f x))
      → P (continue f r w).1
  kept_then f (ok x) w h k = (k x).keeps w h
  kept_then f (err e) w h k = h

  pub Preserves-bind :
      {m : Action S E A} {f : A → Action S E B}
      → Preserves P m
      → ((x : A) → Preserves P (f x))
      → Preserves P (m >>= f)
  Preserves-bind {m} {f} hm hf = record {
    keeps = λ w h. kept_then f (m w).0 (m w).1 (hm.keeps w h) hf;
  }
