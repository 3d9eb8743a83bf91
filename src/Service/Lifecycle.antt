-- ===== src/Service/Lifecycle.antt =====
-- `Update`, `Revoke`, `Suspend`, `Restore`, `Deprecate`, `Delete` and `Resolve` of agent.go.
use nexus_agent_protocol.Prelude.{
  ℕ, ◌&&◌, not, Option, none, some, [], ◌∷◌, Bytes, codes, if◌then◌else◌, is_empty, Result, ok, err,
}
use nexus_agent_protocol.Model.Agent.{
  Agent, AgentMeta, UpdateRequest, DeprecateRequest, revoked, is_active, is_suspended,
  is_deprecated, uri,
}
use nexus_agent_protocol.World.{
  Error, not_active, not_suspended, bad_sunset_date, M, pure, fail, ◌>>=◌, ◌>>◌,
}
use nexus_agent_protocol.Repository.{
  get_by_id, get_by_agent_id, update, update_status, update_status_with_reason, suspend_row,
  restore_row, deprecate_row, delete, update_health_status,
}
use nexus_agent_protocol.Service.{Service, append_ledger, dispatch_webhook}
use nexus_agent_protocol.Service.Normalize.{normalize_capability}

abbrev if_set : Bytes → Bytes → Bytes
if_set new old = if is_empty new then old else new

abbrev if_some : {A : Type 0} → Option A → A → A
if_some none old = old
if_some (some new) old = new

-- nil leaves the metadata as they are
abbrev if_meta : AgentMeta → AgentMeta → AgentMeta
if_meta none old = old
if_meta (some new) old = some new

-- the assignments of `Update`
unfoldable pub edited : UpdateRequest → Agent → Agent
edited req a = record a {
  display_name = if_set req.display_name a.display_name;
  description = if_set req.description a.description;
  endpoint = if_set req.endpoint a.endpoint;
  public_key_pem = if_set req.public_key_pem a.public_key_pem;
  metadata = if_meta req.metadata a.metadata;
  version = if_set req.version a.version;
  tags = if_some req.tags a.tags;
  support_url = if_set req.support_url a.support_url;
}

abbrev pub system : Bytes
system = codes "nexus-system"

module _ (s : Service) where
  -- Get
  unfoldable pub get : ℕ → M Agent
  get id = get_by_id s.env id

  -- Update
  unfoldable pub update_agent : ℕ → UpdateRequest → M Agent
  unfolding edited
  update_agent id req = do
    a ← get_by_id s.env id
    let agent = edited req a
    update s.env agent
    append_ledger s (uri agent) (codes "update") agent.owner_domain (
        (codes "agent_id", agent.agent_id)
        ∷ (codes "display_name", agent.display_name)
        ∷ (codes "endpoint", agent.endpoint)
        ∷ [])
    pure agent

  -- Revoke
  unfoldable pub revoke : ℕ → Bytes → M (Unit {0})
  revoke id reason = do
    agent ← get_by_id s.env id
    (if not (is_empty reason)
        then update_status_with_reason s.env id revoked reason
        else update_status s.env id revoked)
    append_ledger s (uri agent) (codes "revoke") system
        ((codes "agent_id", agent.agent_id) ∷ (codes "reason", reason) ∷ [])
    dispatch_webhook s (codes "agent.revoked") (
        (codes "agent_id", s.show_uuid agent.id)
        ∷ (codes "uri", uri agent)
        ∷ (codes "reason", reason)
        ∷ [])

  -- Suspend
  unfoldable pub suspend : ℕ → M (Unit {0})
  suspend id = do
    agent ← get_by_id s.env id
    (if not (is_active agent.status) then fail (not_active agent.status) else do
      suspend_row s.env id
      append_ledger s (uri agent) (codes "suspend") system ((codes "agent_id", agent.agent_id) ∷ [])
      dispatch_webhook s (codes "agent.suspended")
          ((codes "agent_id", s.show_uuid agent.id) ∷ (codes "uri", uri agent) ∷ []))

  -- Restore
  unfoldable pub restore : ℕ → M (Unit {0})
  restore id = do
    agent ← get_by_id s.env id
    (if not (is_suspended agent.status) then fail (not_suspended agent.status) else do
      restore_row s.env id
      append_ledger s (uri agent) (codes "restore") system
          ((codes "agent_id", agent.agent_id) ∷ []))

  -- the parse of an optional sunset date
  unfoldable pub sunset_of : Bytes → M (Option ℕ)
  sunset_of date =
      if is_empty date
      then pure none
      else elim (s.parse_date date) [ none ↦ fail bad_sunset_date | some t ↦ pure (some t) ]

  abbrev pub date_of : Option DeprecateRequest → Bytes
  date_of none = []
  date_of (some req) = req.sunset_date

  abbrev replacement_of : Option DeprecateRequest → Bytes
  replacement_of none = []
  replacement_of (some req) = req.replacement_uri

  -- Deprecate; the request may be nil
  unfoldable pub deprecate : ℕ → Option DeprecateRequest → M (Unit {0})
  deprecate id req = do
    agent ← get_by_id s.env id
    (if not (is_active agent.status) then fail (not_active agent.status) else do
      sunset ← sunset_of (date_of req)
      deprecate_row s.env id sunset (replacement_of req)
      append_ledger s (uri agent) (codes "deprecate") system
          ((codes "agent_id", agent.agent_id) ∷ (codes "replacement_uri", replacement_of req) ∷ [])
      dispatch_webhook s (codes "agent.deprecated") (
          (codes "agent_id", s.show_uuid agent.id)
          ∷ (codes "uri", uri agent)
          ∷ (codes "replacement_uri", replacement_of req)
          ∷ []))

  -- Delete
  unfoldable pub delete_agent : ℕ → M (Unit {0})
  delete_agent id = delete s.env id

  -- UpdateHealthStatus
  unfoldable pub set_health : ℕ → Bytes → ℕ → M (Unit {0})
  set_health id status last_seen = update_health_status s.env id status last_seen

  -- the agent of a federated registry, or the local error
  unfoldable pub resolve_remote : Bytes → Bytes → Bytes → Error → M Agent
  resolve_remote trust_root cap_node agent_id e = elim s.remote_resolver [
    | none ↦ fail e
    | some remote ↦ elim (remote trust_root cap_node agent_id) [ none ↦ fail e | some a ↦ pure a ]
  ]

  -- the local agent, if it may be resolved
  unfoldable pub resolve_local : Agent → M Agent
  resolve_local a =
      if not (is_active a.status) && not (is_deprecated a.status)
      then fail (not_active a.status)
      else pure a

  -- the remote registry is asked only when the row is not found here
  unfoldable pub settle : Bytes → Bytes → Bytes → Result Error Agent → M Agent
  settle trust_root cap_node agent_id (err e) = resolve_remote trust_root cap_node agent_id e
  settle trust_root cap_node agent_id (ok a) = resolve_local a

  -- Resolve
  unfoldable pub resolve : Bytes → Bytes → Bytes → M Agent
  unfolding normalize_capability
  resolve trust_root cap_node agent_id w =
      let (r, w') = get_by_agent_id s.env trust_root (normalize_capability cap_node) agent_id w in
      settle trust_root cap_node agent_id r w'
