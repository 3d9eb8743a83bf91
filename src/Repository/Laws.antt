-- ===== src/Repository/Laws.antt =====
-- A read of the repository changes no data, and a write that fails changes none.
use nexus_agent_protocol.Prelude.{ℕ, Bool, refl, Option, none, some, List, arith, Bytes}
use nexus_agent_protocol.Model.Agent.{Agent}
use nexus_agent_protocol.World.{World, Env, tick}
use nexus_agent_protocol.World.Effects.{
  SameData, IsRead, IsAtomic, IsRead-pure, IsRead-fail, IsRead-bind,
}
use nexus_agent_protocol.Repository.{
  query, exec_update, one, get_by_id, get_by_agent_id, create, delete,
}

pub tick_same : (w : World) → SameData w (tick w)
tick_same w = record { agents = refl; ledger = refl; events = refl }

module _ (env : Env) where
  pub IsRead-query : {A : Type 0} (f : List Agent → A) → IsRead (query env f)
  unfolding query
  IsRead-query f = record { same = λ w. ground arith }

  pub IsRead-one : (o : Option Agent) → IsRead (one env o)
  unfolding one
  IsRead-one none = IsRead-fail _
  IsRead-one (some a) = IsRead-pure a

  pub IsAtomic-exec_update :
      (p : Agent → Bool) (f : ℕ → Agent → Agent) → IsAtomic (exec_update env p f)
  unfolding exec_update
  IsAtomic-exec_update p f = record { same = λ w e q. ground arith }

  pub IsAtomic-create : (a : Agent) → IsAtomic (create env a)
  unfolding create
  IsAtomic-create a = record { same = λ w e q. ground arith }

  pub IsAtomic-delete : (id : ℕ) → IsAtomic (delete env id)
  unfolding delete
  IsAtomic-delete id = record { same = λ w e q. ground arith }

  pub IsRead-get_by_id : (id : ℕ) → IsRead (get_by_id env id)
  unfolding get_by_id
  IsRead-get_by_id id = IsRead-bind (IsRead-query _) IsRead-one

  pub IsRead-get_by_agent_id : (t c a : Bytes) → IsRead (get_by_agent_id env t c a)
  unfolding get_by_agent_id
  IsRead-get_by_agent_id t c a = IsRead-bind (IsRead-query _) IsRead-one
