-- ===== src/World/Keeps.antt =====
-- Actions whose world before and whose world after are always in a given relation.
use nexus_agent_protocol.Prelude.{
  Bool, true, false, Option, none, some, if◌then◌else◌, Result, ok, err,
}
use nexus_agent_protocol.World.{Error, World, M, pure, fail, continue, ◌>>=◌}
use nexus_agent_protocol.World.Effects.{SameData, SameData-refl, IsRead}

-- A relation on worlds that chains, and that ignores the number of calls.
pub record IsHistory (R : World → World → Type 0) : Type 0 where
  pub same : {v w : World} → SameData v w → R v w
  pub trans : {u v w : World} → R u v → R v w → R u w

pub record Keeps (R : World → World → Type 0) {A : Type 0} (m : M A) : Type 0 where
  pub holds : (w : World) → R w (m w).1

module _ {R : World → World → Type 0} (hist : IsHistory R) where
  pub Keeps-of_IsRead : {A : Type 0} {m : M A} → IsRead m → Keeps R m
  Keeps-of_IsRead h = record { holds = λ w. hist.same (h.same w) }

  pub Keeps-pure : {A : Type 0} (a : A) → Keeps R (pure a)
  Keeps-pure a = record { holds = λ w. hist.same (SameData-refl w) }

  pub Keeps-fail : {A : Type 0} (e : Error) → Keeps R (fail {A = A} e)
  Keeps-fail e = record { holds = λ w. hist.same (SameData-refl w) }

  pub Keeps-if :
      {A : Type 0} (b : Bool) {m n : M A} → Keeps R m → Keeps R n → Keeps R (if b then m else n)
  Keeps-if true hm hn = hm
  Keeps-if false hm hn = hn

  pub Keeps-option :
      {A B : Type 0} (o : Option A) {n : M B} {f : A → M B}
      → Keeps R n
      → ((a : A) → Keeps R (f a))
      → Keeps R (elim o [ none ↦ n | some a ↦ f a ])
  Keeps-option none hn hf = hn
  Keeps-option (some a) hn hf = hf a

  keeps_then :
      {A B : Type 0} (f : A → M B) (v : World) (r : Result Error A) (w : World)
      → R v w
      → ((a : A) → Keeps R (f a))
      → R v (continue f r w).1
  keeps_then f v (ok a) w h k = hist.trans h ((k a).holds w)
  keeps_then f v (err e) w h k = h

  pub Keeps-bind :
      {A B : Type 0} {m : M A} {f : A → M B}
      → Keeps R m
      → ((a : A) → Keeps R (f a))
      → Keeps R (m >>= f)
  Keeps-bind {m} {f} hm hf = record { holds = λ w. keeps_then f w (m w).0 (m w).1 (hm.holds w) hf }
