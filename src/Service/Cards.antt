-- ===== src/Service/Cards.antt =====
-- Agent cards and MCP manifests of agent.go.
use nexus_agent_protocol.Prelude.{
  Option, none, some, List, [], ◌∷◌, Bytes, codes, if◌then◌else◌, is_empty, text_eq, replace_all,
  Result, ok, err,
}
use nexus_agent_protocol.Model.Agent.{Agent, AgentMeta, Skill, McpTool, uri, compute_trust_tier}
use nexus_agent_protocol.Model.Capability.{top_level_category, format_display}
use nexus_agent_protocol.Service.{Service, A2aCard, McpManifest}

pub data CardError : Type 0 where
  issue_endorsement marshal_agent_card decode_tools : CardError

-- a key of the metadata; "" where it is missing, as each use tests for both
unfoldable pub meta_value : Bytes → List (Bytes × Bytes) → Bytes
meta_value k [] = []
meta_value k ((j, v) ∷ m) = if text_eq j k then v else meta_value k m

abbrev pub metadata_value : Bytes → AgentMeta → Bytes
metadata_value k none = []
metadata_value k (some m) = meta_value k m

-- the skill that is derived from the capability
unfoldable pub derived_skills : Agent → List Skill
unfolding format_display top_level_category replace_all
derived_skills a =
    if is_empty a.capability_node
    then []
    else record {
      id = replace_all b'>' (codes "-") a.capability_node;
      name = format_display a.capability_node;
      description = a.description;
      tags = top_level_category a.capability_node ∷ [];
    }
      ∷ []

abbrev or_else : List Skill → List Skill → List Skill
or_else [] other = other
or_else (sk ∷ skills) other = sk ∷ skills

module _ (s : Service) where
  -- buildSkills
  unfoldable pub build_skills : Agent → List Skill
  unfolding meta_value derived_skills
  build_skills a =
      let json = metadata_value (codes "_skills") a.metadata in
      if is_empty json then derived_skills a else elim (s.codec.unmarshal_skills json) [
        | none ↦ derived_skills a
        | some skills ↦ or_else skills (derived_skills a)
      ]

  -- the URL of this registry, with the default
  unfoldable pub registry : Bytes
  registry =
      if is_empty s.registry_url
      then codes "https://registry.nexusagentprotocol.com"
      else s.registry_url

  unfoldable pub card : Agent → Bytes → Bytes → A2aCard
  unfolding build_skills uri compute_trust_tier registry
  card a serial endorsement = record {
    name = a.display_name;
    description = a.description;
    url = a.endpoint;
    version = codes "1.0";
    skills = build_skills a;
    nap_uri = uri a;
    nap_trust_tier = compute_trust_tier a;
    nap_registry = registry;
    nap_cert_serial = serial;
    nap_endorsement = endorsement;
  }

  abbrev marshalled : A2aCard → Result CardError Bytes
  marshalled c = elim (s.codec.marshal_card c) [ none ↦ err marshal_agent_card | some j ↦ ok j ]

  -- generateAgentCard; "" where no token issuer is configured
  unfoldable pub generate_agent_card : Agent → Bytes → Result CardError Bytes
  unfolding card
  generate_agent_card a serial = elim s.endorse [
    | none ↦ ok []
    | some endorse ↦ elim (endorse (uri a) (compute_trust_tier a) serial registry) [
      | none ↦ err issue_endorsement
      | some endorsement ↦ marshalled (card a serial endorsement)
    ]
  ]

  -- GetAgentCardJSON
  unfoldable pub get_agent_card_json : Agent → Result CardError Bytes
  unfolding generate_agent_card
  get_agent_card_json a = elim (generate_agent_card a a.cert_serial) [
    | err e ↦ err e
    | ok [] ↦ marshalled (card a [] [])
    | ok (c ∷ json) ↦ ok (c ∷ json)
  ]

  unfoldable pub manifest : Agent → List McpTool → McpManifest
  unfolding uri compute_trust_tier registry
  manifest a tools = record {
    schema_version = codes "2024-11-05";
    name = a.display_name;
    version = if is_empty a.version then codes "1.0" else a.version;
    description = a.description;
    tools = tools;
    nap_uri = uri a;
    nap_trust_tier = compute_trust_tier a;
    nap_registry = registry;
  }

  -- GenerateMCPManifest
  unfoldable pub generate_mcp_manifest : Agent → Result CardError (Option McpManifest)
  unfolding meta_value manifest
  generate_mcp_manifest a =
      let json = metadata_value (codes "_mcp_tools") a.metadata in
      if is_empty json then ok none else elim (s.codec.unmarshal_tools json) [
        | none ↦ err decode_tools
        | some [] ↦ ok none
        | some (t ∷ tools) ↦ ok (some (manifest a (t ∷ tools)))
      ]

  -- the manifest as the activation result holds it
  unfoldable pub manifest_json : Agent → Bytes
  unfolding generate_mcp_manifest
  manifest_json a = elim (generate_mcp_manifest a) [
    | ok (some m) ↦ elim (s.codec.marshal_manifest m) [ none ↦ [] | some json ↦ json ]
    | _ ↦ []
  ]
