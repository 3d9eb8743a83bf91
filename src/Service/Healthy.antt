-- ===== src/Service/Healthy.antt =====
-- A database that answers: what the calls of an operation on a stored agent then return.
use nexus_agent_protocol.Prelude.{
  ℕ, suc, ◌≡◌, refl, Bool, true, false, some, List, arith, Bytes, ok,
}
use nexus_agent_protocol.Model.Agent.{Agent}
use nexus_agent_protocol.World.{World, Env, ◌>>◌, tick}
use nexus_agent_protocol.Repository.{query, one, get_by_id, exec_update}
use nexus_agent_protocol.Repository.Table.{find, update_where, some_of-find}
use nexus_agent_protocol.Service.{Service, append_ledger, dispatch_webhook}

-- No call of the database fails.
abbrev pub Healthy : Env → Type 0
Healthy env = (n : ℕ) → env.fault n ≡ false

module _ (env : Env) (healthy : Healthy env) where
  pub get_by_id-found :
      (id : ℕ) (w : World) (a : Agent)
      → find id w.agents ≡ some a
      → get_by_id env id w ≡ (ok a, tick w)
  unfolding get_by_id query one
  get_by_id-found id w a h = rw (healthy w.calls, h) refl

  pub exec_update-found :
      (p : Agent → Bool) (f : ℕ → Agent → Agent) (id : ℕ) (w : World) (a : Agent)
      → find id w.agents ≡ some a
      → p a ≡ true
      → exec_update env p f w ≡ (
        ok tt,
        record w { agents = update_where p (f (env.now w.calls)) w.agents; calls = suc w.calls },
      )
  unfolding exec_update
  exec_update-found p f id w a h t = rw (healthy w.calls, some_of-find p id w.agents h t) refl

module _ (s : Service) where
  -- the ledger entry and the webhook event behind a write
  pub announce_ok :
      (u a o t : Bytes) (p q : List (Bytes × Bytes)) (w : World)
      → ((append_ledger s u a o p >> dispatch_webhook s t q) w).0 ≡ ok tt
  unfolding append_ledger dispatch_webhook
  announce_ok u a o t p q w = ground arith

  pub append_ok :
      (u a o : Bytes) (p : List (Bytes × Bytes)) (w : World) → (append_ledger s u a o p w).0 ≡ ok tt
  unfolding append_ledger
  append_ok u a o p w = ground arith

  pub append_agents :
      (u a o : Bytes) (p : List (Bytes × Bytes)) (w : World)
      → (append_ledger s u a o p w).1.agents ≡ w.agents
  unfolding append_ledger
  append_agents u a o p w = ground arith

  pub announce_agents :
      (u a o t : Bytes) (p q : List (Bytes × Bytes)) (w : World)
      → ((append_ledger s u a o p >> dispatch_webhook s t q) w).1.agents ≡ w.agents
  unfolding append_ledger dispatch_webhook
  announce_agents u a o t p q w = ground arith
