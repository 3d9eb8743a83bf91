-- ===== src/Service.antt =====
-- internal/registry/service/agent.go: the service of the agent lifecycle. What the service is
-- configured with, and the two effects that every operation ends with.
pub mod Normalize
pub mod Cards
pub mod Register
pub mod Lifecycle
pub mod Activate
pub mod Operations
pub mod Atomic
pub mod Histories
pub mod Rows
pub mod Permanence
pub mod Healthy
pub mod Transitions
pub mod Verdict
pub mod Activation
pub mod Drafts
pub mod Registration
pub mod Acceptance
pub mod Resolution
pub mod Audit
pub mod Toys
mod Tests
use nexus_agent_protocol.Prelude.{
  ℕ, suc, Bool, true, false, Option, none, some, List, [], ◌∷◌, ◌++◌, Bytes, if◌then◌else◌, Result,
  ok, err,
}
use nexus_agent_protocol.Model.Agent.{Agent, Skill, McpTool, TrustTier}
use nexus_agent_protocol.Ledger.{Hashing}
use nexus_agent_protocol.Ledger.Postgres.{Faults, pg_append}
use nexus_agent_protocol.World.{Error, Event, World, Env, M, pure, tick}

-- The certificate that the issuer returns.
pub record Cert : Type 0 where
  pub serial : Bytes
  pub cert_pem : Bytes
  pub key_pem : Bytes
  pub not_after : ℕ

-- *identity.Issuer: `issue` takes the URI, the owner's name and the owner's e-mail
pub record Issuer : Type 0 where
  pub issue : Bytes → Bytes → Bytes → Option Cert
  pub ca_pem : Bytes

-- A2ACard of pkg/agentcard/schema.go; its capabilities are always the zero value
pub record A2aCard : Type 0 where
  pub name : Bytes
  pub description : Bytes
  pub url : Bytes
  pub version : Bytes
  pub skills : List Skill
  pub nap_uri : Bytes
  pub nap_trust_tier : TrustTier
  pub nap_registry : Bytes
  pub nap_cert_serial : Bytes
  pub nap_endorsement : Bytes

-- MCPManifest of pkg/mcpmanifest/manifest.go; it has no resources
pub record McpManifest : Type 0 where
  pub schema_version : Bytes
  pub name : Bytes
  pub version : Bytes
  pub description : Bytes
  pub tools : List McpTool
  pub nap_uri : Bytes
  pub nap_trust_tier : TrustTier
  pub nap_registry : Bytes

-- encoding/json and encoding/base32, as far as the service calls them; `none` is an error.
pub record Codec : Type 0 where
  pub marshal_skills : List Skill → Option Bytes
  pub unmarshal_skills : Bytes → Option (List Skill)
  pub marshal_tools : List McpTool → Option Bytes
  pub unmarshal_tools : Bytes → Option (List McpTool)
  pub marshal_card : A2aCard → Option Bytes
  pub marshal_manifest : McpManifest → Option Bytes
  pub marshal_map : List (Bytes × Bytes) → Option Bytes
  pub base32 : Bytes → Bytes

-- AgentService: `none` and `false` are the nil of an optional collaborator. A collaborator's answer
-- `none` is its error. `endorse` is the token issuer's `IssueEndorsement`. The ledger is that of
-- PostgreSQL, with what its column keeps of a time and the calls of an `Append` that fail.
pub record Service : Type 0 where
  pub env : Env
  pub hashing : Hashing
  pub codec : Codec
  pub issuer : Option Issuer
  pub endorse : Option (Bytes → TrustTier → Bytes → Bytes → Option Bytes)
  pub has_ledger : Bool
  pub ledger_column : ℕ → ℕ
  pub ledger_faults : ℕ → Faults
  pub dns_verifier : Option (Bytes → Option Bool)
  pub email_checker : Option (ℕ → Option Bool)
  pub owner_info : Option (ℕ → Option (Bytes × Bytes))
  pub remote_resolver : Option (Bytes → Bytes → Bytes → Option Agent)
  pub has_webhooks : Bool
  pub trust_root : Bytes
  pub max_agents : ℕ
  pub registry_url : Bytes
  pub random : ℕ → Option Bytes
  pub parse_date : Bytes → Option ℕ
  pub show_uuid : ℕ → Bytes

module _ (s : Service) where
  -- appendLedger, to the ledger in PostgreSQL; a failure is logged and forgotten
  unfoldable pub append_ledger : Bytes → Bytes → Bytes → List (Bytes × Bytes) → M (Unit {0})
  unfolding pg_append
  append_ledger agent_uri action actor payload w =
      if s.has_ledger
      then (
        ok tt,
        record w {
          ledger =
              (pg_append s.hashing s.ledger_column (s.ledger_faults w.calls) (s.env.now w.calls)
                agent_uri action actor (s.codec.marshal_map payload) w.ledger).1;
          calls = suc w.calls;
        },
      )
      else (ok tt, w)

  -- dispatchWebhook: the events in the order in which they are handed over
  unfoldable pub dispatch_webhook : Bytes → List (Bytes × Bytes) → M (Unit {0})
  dispatch_webhook event_type payload w =
      if s.has_webhooks
      then (
        ok tt,
        record w {
          events = w.events ++ record { event_type = event_type; payload = payload } ∷ [];
        },
      )
      else (ok tt, w)
