-- ===== src/World/Effects.antt =====
-- What an action does to the data of a world, with one rule for each way to build an action.
use nexus_agent_protocol.Prelude.{
  Bool, true, false, ◌≡◌, refl, Option, none, some, if◌then◌else◌, Result, ok, err,
}
use nexus_agent_protocol.Action.{Action, pure, fail, continue, ◌>>=◌}
use nexus_agent_protocol.World.{World}

-- Two worlds that differ in the number of calls at most.
pub record SameData (v w : World) : Type 0 where
  pub agents : w.agents ≡ v.agents
  pub ledger : w.ledger ≡ v.ledger
  pub events : w.events ≡ v.events

pub SameData-refl : (w : World) → SameData w w
SameData-refl w = record { agents = refl; ledger = refl; events = refl }

pub SameData-trans : {u v w : World} → SameData u v → SameData v w → SameData u w
SameData-trans h k = record {
  agents = cc (h.agents, k.agents);
  ledger = cc (h.ledger, k.ledger);
  events = cc (h.events, k.events);
}

-- The action changes no data.
pub record IsRead {E A : Type 0} (m : Action World E A) : Type 0 where
  pub same : (w : World) → SameData w (m w).1

-- The action returns no error.
pub record IsTotal {E A : Type 0} (m : Action World E A) : Type 0 where
  pub result : (w : World) → (a : A) × ((m w).0 ≡ ok a)

-- An action that returns an error has changed no data.
pub record IsAtomic {E A : Type 0} (m : Action World E A) : Type 0 where
  pub same : (w : World) (e : E) → (m w).0 ≡ err e → SameData w (m w).1

module _ {E A : Type 0} where
  pub IsRead-pure : (a : A) → IsRead {E = E} (pure a)
  IsRead-pure a = record { same = SameData-refl }

  pub IsRead-fail : (e : E) → IsRead (fail {A = A} e)
  IsRead-fail e = record { same = SameData-refl }

  pub IsTotal-pure : (a : A) → IsTotal {E = E} (pure a)
  IsTotal-pure a = record { result = λ w. (a, refl) }

  pub IsAtomic-of_IsRead : {m : Action World E A} → IsRead m → IsAtomic m
  IsAtomic-of_IsRead h = record { same = λ w e q. h.same w }

  pub IsRead-if :
      (b : Bool) {m n : Action World E A} → IsRead m → IsRead n → IsRead (if b then m else n)
  IsRead-if true hm hn = hm
  IsRead-if false hm hn = hn

  pub IsAtomic-if :
      (b : Bool) {m n : Action World E A} → IsAtomic m → IsAtomic n → IsAtomic (if b then m else n)
  IsAtomic-if true hm hn = hm
  IsAtomic-if false hm hn = hn

module _ {E A B : Type 0} where
  pub IsRead-option :
      (o : Option A) {n : Action World E B} {f : A → Action World E B}
      → IsRead n
      → ((a : A) → IsRead (f a))
      → IsRead (elim o [ none ↦ n | some a ↦ f a ])
  IsRead-option none hn hf = hn
  IsRead-option (some a) hn hf = hf a

  pub IsAtomic-option :
      (o : Option A) {n : Action World E B} {f : A → Action World E B}
      → IsAtomic n
      → ((a : A) → IsAtomic (f a))
      → IsAtomic (elim o [ none ↦ n | some a ↦ f a ])
  IsAtomic-option none hn hf = hn
  IsAtomic-option (some a) hn hf = hf a

  read_then :
      (f : A → Action World E B) (v : World) (r : Result E A) (w : World)
      → SameData v w
      → ((a : A) → IsRead (f a))
      → SameData v (continue f r w).1
  read_then f v (ok a) w h k = SameData-trans h ((k a).same w)
  read_then f v (err e) w h k = h

  atomic_then :
      (f : A → Action World E B) (v : World) (r : Result E A) (w : World) (e : E)
      → SameData v w
      → ((a : A) → IsAtomic (f a))
      → (continue f r w).0 ≡ err e
      → SameData v (continue f r w).1
  atomic_then f v (ok a) w e h k q = SameData-trans h ((k a).same w e q)
  atomic_then f v (err x) w e h k q = h

  total_then :
      (f : A → Action World E B) (v : World) (r : Result E A) (w : World) (e : E)
      → ((x : E) → r ≡ err x → SameData v w)
      → ((a : A) → IsTotal (f a))
      → (continue f r w).0 ≡ err e
      → SameData v (continue f r w).1
  total_then f v (ok a) w e h k q = let (b, t) = (k a).result w in absurd (cc (q, t))
  total_then f v (err x) w e h k q = h x refl

  pub IsRead-bind :
      {m : Action World E A} {f : A → Action World E B}
      → IsRead m
      → ((a : A) → IsRead (f a))
      → IsRead (m >>= f)
  IsRead-bind {m} {f} hm hf = record { same = λ w. read_then f w (m w).0 (m w).1 (hm.same w) hf }

  -- first reads, then an atomic rest
  pub IsAtomic-read :
      {m : Action World E A} {f : A → Action World E B}
      → IsRead m
      → ((a : A) → IsAtomic (f a))
      → IsAtomic (m >>= f)
  IsAtomic-read {m} {f} hm hf = record {
    same = λ w e. atomic_then f w (m w).0 (m w).1 e (hm.same w) hf;
  }

  -- first an atomic write, then a rest that cannot fail
  pub IsAtomic-total :
      {m : Action World E A} {f : A → Action World E B}
      → IsAtomic m
      → ((a : A) → IsTotal (f a))
      → IsAtomic (m >>= f)
  IsAtomic-total {m} {f} hm hf = record {
    same = λ w e. total_then f w (m w).0 (m w).1 e (hm.same w) hf;
  }

  pub IsTotal-bind :
      {m : Action World E A} {f : A → Action World E B}
      → IsTotal m
      → ((a : A) → IsTotal (f a))
      → IsTotal (m >>= f)
  IsTotal-bind {m} {f} hm hf = record {
    result = λ w. let (a, q) = hm.result w in let (b, t) = (hf a).result (m w).1 in (b, rw q t);
  }
