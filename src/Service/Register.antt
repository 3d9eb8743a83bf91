-- ===== src/Service/Register.antt =====
-- `Register`: an agent of the free tier or of a domain is created in the pending state.
use nexus_agent_protocol.Prelude.{
  ℕ, zero, suc, ◌/◌, ◌%◌, Bool, false, ◌&&◌, not, Option, none, some, List, [], ◌∷◌, ◌++◌, Bytes,
  codes, ltb, leb, ◌==◌, if◌then◌else◌, is_empty, length, keep, text_eq, to_lower, trim_space, ok,
  err,
}
use nexus_agent_protocol.Model.Agent.{
  Agent, AgentMeta, RegisterRequest, Skill, McpTool, RegistrationType, domain, nap_hosted,
  other_type, pending, is_nap_hosted, is_revoked, uri,
}
use nexus_agent_protocol.Model.Capability.{validate_capability_node}
use nexus_agent_protocol.World.{
  random_failed, owner_user_required, username_required, agent_limit, capability_missing,
  owner_domain_required, endpoint_required, bad_capability, M, pure, fail, tick, ◌>>=◌, ◌>>◌,
}
use nexus_agent_protocol.Repository.{query, create}
use nexus_agent_protocol.Service.{Service, append_ledger, dispatch_webhook}
use nexus_agent_protocol.Service.Normalize.{
  normalize_capability, derive_primary_skill, derive_skill_ids, derive_tool_names,
}

-- the loop that writes a time into eight bytes, the highest first
unfoldable pub time_bytes : ℕ → ℕ → Bytes → Bytes
time_bytes zero ts buf = buf
time_bytes (suc i) ts buf = time_bytes i (ts / 256) ((ts % 256) ∷ buf)

-- a key of the metadata is written
unfoldable pub put : Bytes → Bytes → List (Bytes × Bytes) → List (Bytes × Bytes)
put k v [] = (k, v) ∷ []
put k v ((j, u) ∷ m) = if text_eq j k then (k, v) ∷ m else (j, u) ∷ put k v m

abbrev entries_of : AgentMeta → List (Bytes × Bytes)
entries_of none = []
entries_of (some m) = m

-- what a marshalled list adds to the metadata; a map is made where there is none
unfoldable pub add_json : Bytes → Option Bytes → AgentMeta → AgentMeta
unfolding put
add_json key none meta = some (entries_of meta)
add_json key (some json) meta = some (put key json (entries_of meta))

unfoldable pub add_skills : (List Skill → Option Bytes) → List Skill → AgentMeta → AgentMeta
unfolding add_json
add_skills marshal [] meta = meta
add_skills marshal (sk ∷ skills) meta = add_json (codes "_skills") (marshal (sk ∷ skills)) meta

unfoldable pub add_tools : (List McpTool → Option Bytes) → List McpTool → AgentMeta → AgentMeta
unfolding add_json
add_tools marshal [] meta = meta
add_tools marshal (t ∷ tools) meta = add_json (codes "_mcp_tools") (marshal (t ∷ tools)) meta

-- the first of the three capability fields that is not empty when it is normalised
unfoldable pub capability_of : RegisterRequest → Bytes
unfolding normalize_capability
capability_of req =
    let capability = normalize_capability req.capability in
    let category = normalize_capability req.category in
    if not (is_empty capability)
    then capability
    else if not (is_empty category)
    then category
    else normalize_capability req.capability_node

abbrev pub check_capability : Bytes → M (Unit {0})
check_capability cap w = elim (validate_capability_node cap) [
  | ok _ ↦ (ok tt, w)
  | err e ↦ (err (bad_capability e), w)
]

abbrev owned_by : ℕ → Option ℕ → Bool
owned_by user none = false
owned_by user (some o) = o == user

-- the agent before it is stored, with the fields that both kinds share
unfoldable pub draft : RegisterRequest → Bytes → Bytes → Bytes → Bytes → RegistrationType → Agent
draft req trust_root capability agent_id owner_domain kind = record {
  id = 0;
  trust_root = trust_root;
  capability_node = capability;
  agent_id = agent_id;
  display_name = req.display_name;
  description = req.description;
  endpoint = req.endpoint;
  owner_domain = owner_domain;
  status = pending;
  cert_serial = [];
  public_key_pem = req.public_key_pem;
  metadata = req.metadata;
  created_at = 0;
  updated_at = 0;
  expires_at = none;
  owner_user_id = req.owner_user_id;
  registration_type = kind;
  version = [];
  tags = [];
  support_url = [];
  last_seen_at = none;
  health_status = [];
  revocation_reason = [];
  suspended_at = none;
  deprecated_at = none;
  sunset_date = none;
  replacement_uri = [];
  primary_skill = [];
  skill_ids = [];
  tool_names = [];
}

module _ (s : Service) where
  -- generateAgentID
  unfoldable pub generate_agent_id : M Bytes
  unfolding time_bytes to_lower
  generate_agent_id w = elim (s.random w.calls) [
    | none ↦ (err random_failed, tick w)
    | some buf ↦ (
      ok (codes "agent_" ++ to_lower (s.codec.base32 (time_bytes 8 (s.env.now w.calls) [] ++ buf))),
      tick w,
    )
  ]

  -- CountByOwner of the repository
  unfoldable pub count_by_owner : ℕ → M ℕ
  count_by_owner user =
      query s.env (λ rows.
        length (keep (λ a. owned_by user a.owner_user_id && not (is_revoked a.status)) rows))

  -- the quota of the free tier
  unfoldable pub check_quota : ℕ → M (Unit {0})
  check_quota user =
      if ltb 0 s.max_agents
      then (do
        count ← count_by_owner user
        if leb s.max_agents count then fail (agent_limit s.max_agents) else pure tt)
      else pure tt

  -- the agent of a user who is signed in
  unfoldable pub hosted_by : ℕ → RegisterRequest → Bytes → Bytes → M Agent
  unfolding draft
  hosted_by user req capability agent_id =
      if is_empty req.username
      then fail username_required
      else if is_empty capability
      then fail capability_missing
      else (do
        check_capability capability
        check_quota user
        pure (draft req s.trust_root capability agent_id [] nap_hosted))

  unfoldable pub hosted_agent : RegisterRequest → Bytes → Bytes → M Agent
  hosted_agent req capability agent_id = elim req.owner_user_id [
    | none ↦ fail owner_user_required
    | some user ↦ hosted_by user req capability agent_id
  ]

  unfoldable pub domain_agent : RegisterRequest → Bytes → Bytes → M Agent
  unfolding to_lower trim_space draft
  domain_agent req capability agent_id =
      let owner_domain = to_lower (trim_space req.owner_domain) in
      if is_empty owner_domain
      then fail owner_domain_required
      else if is_empty capability
      then fail capability_missing
      else if is_empty req.endpoint
      then fail endpoint_required
      else (do
        check_capability capability
        pure (draft req owner_domain capability agent_id req.owner_domain domain))

  -- the metadata and the search columns
  unfoldable pub with_skills : RegisterRequest → Bytes → Agent → Agent
  unfolding add_skills add_tools derive_primary_skill derive_skill_ids derive_tool_names
  with_skills req capability agent = record agent {
    metadata =
        add_tools s.codec.marshal_tools req.mcp_tools
          (add_skills s.codec.marshal_skills req.skills agent.metadata);
    primary_skill = derive_primary_skill req.skills capability;
    skill_ids = derive_skill_ids req.skills capability;
    tool_names = derive_tool_names req.mcp_tools;
  }

  -- the actor that the ledger names
  unfoldable pub actor_of : RegisterRequest → Agent → Bytes
  actor_of req agent =
      if not (is_empty agent.owner_domain)
      then agent.owner_domain
      else elim req.owner_user_id [ none ↦ [] | some user ↦ s.show_uuid user ]

  abbrev type_name : RegistrationType → Bytes
  type_name domain = codes "domain"
  type_name nap_hosted = codes "nap_hosted"
  type_name (other_type t) = t

  -- Register
  unfoldable pub register : RegisterRequest → M Agent
  unfolding with_skills capability_of actor_of
  register req = do
    agent_id ← generate_agent_id
    let capability = capability_of req
    agent ←
        (if is_nap_hosted req.registration_type
          then hosted_agent req capability agent_id
          else domain_agent req capability agent_id)
    row ← create s.env (with_skills req capability agent)
    append_ledger s (uri row) (codes "register") (actor_of req row) (
        (codes "trust_root", row.trust_root)
        ∷ (codes "capability_node", row.capability_node)
        ∷ (codes "agent_id", row.agent_id)
        ∷ (codes "registration_type", type_name row.registration_type)
        ∷ (codes "endpoint", row.endpoint)
        ∷ [])
    dispatch_webhook s (codes "agent.registered")
        ((codes "agent_id", s.show_uuid row.id) ∷ (codes "uri", uri row) ∷ [])
    pure row
