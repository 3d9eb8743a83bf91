-- ===== src/Model/Agent.antt =====
-- internal/registry/model/agent.go: the agent record, its URI and its trust tier.
use nexus_agent_protocol.Prelude.{
  ℕ, Bool, true, false, ◌&&◌, not, Option, List, [], ◌∷◌, ◌++◌, Bytes, codes, if◌then◌else◌,
  is_empty,
}
use nexus_agent_protocol.Model.Capability.{top_level_category}

-- AgentStatus; a status that only a remote registry may send is `other_status`.
pub data AgentStatus : Type 0 where
  pending active revoked expired suspended deprecated : AgentStatus
  other_status : Bytes → AgentStatus

pub data RegistrationType : Type 0 where
  domain nap_hosted : RegistrationType
  other_type : Bytes → RegistrationType

pub data TrustTier : Type 0 where
  unverified basic verified trusted : TrustTier

abbrev pub is_active : AgentStatus → Bool
is_active active = true
is_active _ = false

abbrev pub is_suspended : AgentStatus → Bool
is_suspended suspended = true
is_suspended _ = false

abbrev pub is_revoked : AgentStatus → Bool
is_revoked revoked = true
is_revoked _ = false

abbrev pub is_deprecated : AgentStatus → Bool
is_deprecated deprecated = true
is_deprecated _ = false

abbrev pub is_domain : RegistrationType → Bool
is_domain domain = true
is_domain _ = false

abbrev pub is_nap_hosted : RegistrationType → Bool
is_nap_hosted nap_hosted = true
is_nap_hosted _ = false

-- registration_type = ""
abbrev pub is_unset : RegistrationType → Bool
is_unset (other_type []) = true
is_unset _ = false

-- AgentMeta; `none` is the nil map
abbrev pub AgentMeta : Type 0
AgentMeta = Option (List (Bytes × Bytes))

-- Times are numbers; ids are numbers that stand for the 128 bits of a UUID.
pub record Agent : Type 0 where
  pub id : ℕ
  pub trust_root : Bytes
  pub capability_node : Bytes
  pub agent_id : Bytes
  pub display_name : Bytes
  pub description : Bytes
  pub endpoint : Bytes
  pub owner_domain : Bytes
  pub status : AgentStatus
  pub cert_serial : Bytes
  pub public_key_pem : Bytes
  pub metadata : AgentMeta
  pub created_at : ℕ
  pub updated_at : ℕ
  pub expires_at : Option ℕ
  pub owner_user_id : Option ℕ
  pub registration_type : RegistrationType
  pub version : Bytes
  pub tags : List Bytes
  pub support_url : Bytes
  pub last_seen_at : Option ℕ
  pub health_status : Bytes
  pub revocation_reason : Bytes
  pub suspended_at : Option ℕ
  pub deprecated_at : Option ℕ
  pub sunset_date : Option ℕ
  pub replacement_uri : Bytes
  pub primary_skill : Bytes
  pub skill_ids : List Bytes
  pub tool_names : List Bytes

-- (*Agent).URI
unfoldable pub uri : Agent → Bytes
unfolding top_level_category
uri a =
    let category = top_level_category a.capability_node in
    if not (is_empty a.primary_skill)
    then codes "agent://"
      ++ (a.trust_root ++ (b'/' ∷ category ++ (b'/' ∷ a.primary_skill ++ (b'/' ∷ a.agent_id))))
    else codes "agent://" ++ (a.trust_root ++ (b'/' ∷ category ++ (b'/' ∷ a.agent_id)))

-- (*Agent).ComputeTrustTier
unfoldable pub compute_trust_tier : Agent → TrustTier
compute_trust_tier a =
    if not (is_active a.status) && not (is_deprecated a.status)
    then unverified
    else if is_domain a.registration_type
    then (if not (is_empty a.cert_serial) then trusted else verified)
    else basic

-- A2ASkill of pkg/agentcard/schema.go
pub record Skill : Type 0 where
  pub id : Bytes
  pub name : Bytes
  pub description : Bytes
  pub tags : List Bytes

-- MCPTool of pkg/mcpmanifest/manifest.go
pub record McpTool : Type 0 where
  pub name : Bytes
  pub description : Bytes
  pub input_schema : Bytes

-- RegisterRequest, with the fields that `Register` and `ScoreThreat` read
pub record RegisterRequest : Type 0 where
  pub capability : Bytes
  pub category : Bytes
  pub capability_node : Bytes
  pub display_name : Bytes
  pub description : Bytes
  pub endpoint : Bytes
  pub owner_domain : Bytes
  pub public_key_pem : Bytes
  pub metadata : AgentMeta
  pub owner_user_id : Option ℕ
  pub registration_type : RegistrationType
  pub username : Bytes
  pub skills : List Skill
  pub mcp_tools : List McpTool

-- DeprecateRequest
pub record DeprecateRequest : Type 0 where
  pub sunset_date : Bytes
  pub replacement_uri : Bytes

-- UpdateRequest; `tags` is none where the source has a nil slice
pub record UpdateRequest : Type 0 where
  pub display_name : Bytes
  pub description : Bytes
  pub endpoint : Bytes
  pub public_key_pem : Bytes
  pub metadata : AgentMeta
  pub version : Bytes
  pub tags : Option (List Bytes)
  pub support_url : Bytes
