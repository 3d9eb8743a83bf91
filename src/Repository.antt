-- ===== src/Repository.antt =====
-- internal/registry/repository/agent.go over the rows of the table `agents`: reads and writes of
-- single rows. A call that fails changes no row.
pub mod Table
pub mod Like
pub mod Order
pub mod Search
pub mod Discovery
pub mod Laws
mod Tests
use nexus_agent_protocol.Prelude.{
  ℕ, suc, ◌+◌, Bool, true, false, ◌&&◌, ◌||◌, not, Option, none, some, List, [], ◌∷◌, ◌++◌, Bytes,
  codes, ◌==◌, if◌then◌else◌, is_empty, text_eq, some_of, first, Result, ok, err,
}
use nexus_agent_protocol.Model.Agent.{
  AgentStatus, active, suspended, deprecated, domain, is_active, is_suspended, is_unset, Agent,
}
use nexus_agent_protocol.World.{
  Error, not_found, db_error, duplicate, World, Env, M, pure, fail, ◌>>=◌, tick,
}
use Table.{find, update_where, delete_where}
use Like.{like}

module _ (env : Env) where
  -- a SELECT
  unfoldable pub query : {A : Type 0} → (List Agent → A) → M A
  query f w = if env.fault w.calls then (err db_error, tick w) else (ok (f w.agents), tick w)

  -- an UPDATE of the rows that pass a test, at the time of the call; no row is `ErrNotFound`
  unfoldable pub exec_update : (Agent → Bool) → (ℕ → Agent → Agent) → M (Unit {0})
  unfolding update_where
  exec_update p f w =
      if env.fault w.calls
      then (err db_error, tick w)
      else if some_of p w.agents
      then (
        ok tt,
        record w { agents = update_where p (f (env.now w.calls)) w.agents; calls = suc w.calls },
      )
      else (err not_found, tick w)

  -- scanOne
  unfoldable pub one : Option Agent → M Agent
  one none = fail not_found
  one (some a) = pure a

  -- GetByID
  unfoldable pub get_by_id : ℕ → M Agent
  get_by_id id = do r ← query (find id); one r

  -- GetByAgentID: `capability_node = $2 OR capability_node LIKE $3`
  unfoldable pub get_by_agent_id : Bytes → Bytes → Bytes → M Agent
  get_by_agent_id trust_root cap_node agent_id = do
    let prefix = cap_node ++ codes ">%"
    r ← query (
        first (λ a.
          text_eq a.trust_root trust_root
          && (text_eq a.capability_node cap_node || like prefix a.capability_node)
          && text_eq a.agent_id agent_id))
    one r

  -- the primary key, and the unique index on (trust_root, capability_node, agent_id)
  unfoldable pub taken : Agent → List Agent → Bool
  taken a = some_of (λ b.
      b.id == a.id
      || (text_eq b.trust_root a.trust_root
          && text_eq b.capability_node a.capability_node
          && text_eq b.agent_id a.agent_id))

  -- what `Create` writes into the caller's agent
  unfoldable pub stamped : ℕ → ℕ → Agent → Agent
  stamped id now a = record a {
    id = id;
    created_at = now;
    updated_at = now;
    registration_type = if is_unset a.registration_type then domain else a.registration_type;
  }

  -- the row that `Create` inserts: the columns that the statement leaves out have their defaults
  unfoldable pub inserted : Agent → Agent
  inserted a = record a {
    version = [];
    tags = [];
    support_url = [];
    last_seen_at = none;
    health_status = codes "unknown";
    revocation_reason = [];
    suspended_at = none;
    deprecated_at = none;
    sunset_date = none;
    replacement_uri = [];
  }

  -- `owner_user_id UUID REFERENCES users(id)`
  unfoldable pub owner_missing : ℕ → Option ℕ → Bool
  owner_missing n none = false
  owner_missing n (some user) = not (env.has_user n user)

  -- Create; the caller's agent, with its new id, is returned
  unfoldable pub create : Agent → M Agent
  unfolding taken stamped inserted owner_missing
  create agent w =
      let filled = stamped (env.new_uuid w.calls) (env.now w.calls) agent in
      if env.fault w.calls
      then (err db_error, tick w)
      else if taken filled w.agents
      then (err duplicate, tick w)
      else if owner_missing w.calls filled.owner_user_id
      then (err db_error, tick w)
      else (ok filled, record w { agents = inserted filled ∷ w.agents; calls = suc w.calls })

  abbrev has_id : ℕ → Agent → Bool
  has_id id a = a.id == id

  -- Update: the columns that may change, of the row with the agent's id
  unfoldable pub update : Agent → M (Unit {0})
  update agent = exec_update (has_id agent.id) (λ now a. record a {
    display_name = agent.display_name;
    description = agent.description;
    endpoint = agent.endpoint;
    public_key_pem = agent.public_key_pem;
    metadata = agent.metadata;
    updated_at = now;
    version = agent.version;
    tags = agent.tags;
    support_url = agent.support_url;
  })

  -- UpdateStatus
  unfoldable pub update_status : ℕ → AgentStatus → M (Unit {0})
  update_status id status =
      exec_update (has_id id) (λ now a. record a { status = status; updated_at = now })

  -- ActivateWithCert
  unfoldable pub activate_row : ℕ → Bytes → Bytes → M (Unit {0})
  activate_row id serial pem = exec_update (has_id id) (λ now a. record a {
    status = active;
    cert_serial = serial;
    public_key_pem = pem;
    updated_at = now;
  })

  -- Delete
  unfoldable pub delete : ℕ → M (Unit {0})
  unfolding delete_where
  delete id w =
      if env.fault w.calls
      then (err db_error, tick w)
      else if some_of (has_id id) w.agents
      then (ok tt, record w { agents = delete_where (has_id id) w.agents; calls = suc w.calls })
      else (err not_found, tick w)

  -- UpdateStatusWithReason
  unfoldable pub update_status_with_reason : ℕ → AgentStatus → Bytes → M (Unit {0})
  update_status_with_reason id status reason =
      exec_update (has_id id)
        (λ now a. record a { status = status; revocation_reason = reason; updated_at = now })

  -- Suspend: `WHERE id = $1 AND status = 'active'`
  unfoldable pub suspend_row : ℕ → M (Unit {0})
  suspend_row id =
      exec_update (λ a. has_id id a && is_active a.status)
        (λ now a. record a { status = suspended; suspended_at = some now; updated_at = now })

  -- Restore: `WHERE id = $1 AND status = 'suspended'`
  unfoldable pub restore_row : ℕ → M (Unit {0})
  restore_row id =
      exec_update (λ a. has_id id a && is_suspended a.status)
        (λ now a. record a { status = active; suspended_at = none; updated_at = now })

  -- Deprecate: `WHERE id = $1 AND status = 'active'`
  unfoldable pub deprecate_row : ℕ → Option ℕ → Bytes → M (Unit {0})
  deprecate_row id sunset replacement =
      exec_update (λ a. has_id id a && is_active a.status)
        (λ now a. record a {
          status = deprecated;
          deprecated_at = some now;
          sunset_date = sunset;
          replacement_uri = replacement;
          updated_at = now;
        })

  -- UpdateHealthStatus
  unfoldable pub update_health_status : ℕ → Bytes → ℕ → M (Unit {0})
  update_health_status id status last_seen = exec_update (has_id id) (λ now a. record a {
    health_status = status;
    last_seen_at = some last_seen;
    updated_at = now;
  })
