-- ===== src/World.antt =====
-- The state that the registry's services change, and the actions over it. An action returns a value
-- or an error, and the state after it. The environment decides which database call fails, what
-- the clock shows and which UUID is drawn: the number `calls` says how many calls were made.
pub mod Effects
pub mod Keeps
use nexus_agent_protocol.Prelude.{ℕ, suc, Bool, Option, List, Bytes, Result, ok, err}
pub use nexus_agent_protocol.Action.{pure, fail, continue, ◌>>=◌, ◌>>◌}
use nexus_agent_protocol.Action.{Action}
use nexus_agent_protocol.Model.Agent.{Agent, AgentStatus}
use nexus_agent_protocol.Model.Capability.{CapabilityError}
use nexus_agent_protocol.Ledger.{Entry}

pub data Error : Type 0 where
  not_found db_error duplicate : Error
  random_failed owner_user_required username_required quota_error : Error
  agent_limit : ℕ → Error
  owner_domain_required capability_missing endpoint_required : Error
  bad_capability : CapabilityError → Error
  check_email email_not_verified check_domain domain_not_verified issue_cert activate_with_cert :
      Error
  not_active not_suspended : AgentStatus → Error
  bad_sunset_date update_failed create_failed : Error

-- A webhook event: its type and its payload.
pub record Event : Type 0 where
  pub event_type : Bytes
  pub payload : List (Bytes × Bytes)

pub record World : Type 0 where
  pub agents : List Agent
  pub ledger : List Entry
  pub events : List Event
  pub calls : ℕ

pub record Env : Type 0 where
  pub fault : ℕ → Bool
  pub now : ℕ → ℕ
  pub new_uuid : ℕ → ℕ
  pub has_user : ℕ → ℕ → Bool
  pub order : ℕ → ℕ → ℕ

abbrev pub M : Type 0 → Type 0
M A = Action World Error A

-- One call of the database is made.
abbrev pub tick : World → World
tick w = record w { calls = suc w.calls }
