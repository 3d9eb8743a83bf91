-- ===== src/Service/Toys.antt =====
-- A service with toy collaborators and a small table, for the tests.
use nexus_agent_protocol.Prelude.{ℕ, ◌+◌, ◌/◌, true, false, none, some, [], ◌∷◌, codes}
use nexus_agent_protocol.Model.Agent.{Agent, AgentStatus, active, domain}
use nexus_agent_protocol.Ledger.{new}
use nexus_agent_protocol.Ledger.Postgres.{no_faults}
use nexus_agent_protocol.Ledger.Decimal.{decimal}
use nexus_agent_protocol.World.{World, Env}
use nexus_agent_protocol.Service.{Service, Codec}

abbrev pub clock : Env
clock = record {
  fault = λ n. false;
  now = λ n. n;
  new_uuid = λ n. n + 100;
  has_user = λ n user. true;
  order = λ n i. 0;
}

abbrev pub toy_codec : Codec
toy_codec = record {
  marshal_skills = λ l. some (codes "[]");
  unmarshal_skills = λ x. some [];
  marshal_tools = λ l. some (codes "[]");
  unmarshal_tools = λ x. some [];
  marshal_card = λ c. some (codes "{}");
  marshal_manifest = λ m. some (codes "{}");
  marshal_map = λ m. some (codes "{}");
  base32 = λ x. codes "AAAA";
}

-- Every domain is verified, and there is no issuer.
abbrev pub toy_service : Service
toy_service = record {
  env = clock;
  hashing = record { sha256_hex = λ x. x; format_time = decimal };
  codec = toy_codec;
  issuer = none;
  endorse = none;
  has_ledger = true;
  ledger_column = λ t. t / 10;
  ledger_faults = λ n. no_faults;
  dns_verifier = some (λ d. some true);
  email_checker = none;
  owner_info = none;
  remote_resolver = none;
  has_webhooks = true;
  trust_root = codes "nexusagentprotocol.com";
  max_agents = 3;
  registry_url = codes "https://registry";
  random = λ n. some (codes "rr");
  parse_date = λ d. none;
  show_uuid = decimal;
}

abbrev pub row : ℕ → AgentStatus → Agent
row id st = record {
  id = id;
  trust_root = codes "acme.com";
  capability_node = codes "finance>billing";
  agent_id = codes "agent_1";
  display_name = codes "A";
  description = [];
  endpoint = codes "https://a";
  owner_domain = codes "acme.com";
  status = st;
  cert_serial = [];
  public_key_pem = [];
  metadata = none;
  created_at = 1;
  updated_at = 1;
  expires_at = none;
  owner_user_id = none;
  registration_type = domain;
  version = [];
  tags = [];
  support_url = [];
  last_seen_at = none;
  health_status = codes "unknown";
  revocation_reason = [];
  suspended_at = none;
  deprecated_at = none;
  sunset_date = none;
  replacement_uri = [];
  primary_skill = codes "billing";
  skill_ids = [];
  tool_names = [];
}

abbrev pub store : AgentStatus → World
store st = record { agents = row 7 st ∷ row 8 active ∷ []; ledger = new 0; events = []; calls = 0 }
