-- ===== src/Repository/Tests.antt =====
-- Searches of a small table, and the theorems at it.
use nexus_agent_protocol.Prelude.{
  ℕ, ◌-◌, IsIn, ◌≡◌, refl, true, false, none, List, [], ◌∷◌, Bytes, codes, ◌==◌, if◌then◌else◌,
  length, All, text_eq, ok,
}
use nexus_agent_protocol.Model.Agent.{Agent, AgentStatus, active, revoked, domain}
use nexus_agent_protocol.World.{World, Env, tick}
use nexus_agent_protocol.Repository.Like.{any_suffix, like_from, like}
use nexus_agent_protocol.Repository.Like.Laws.{is_plain}
use nexus_agent_protocol.Repository.Order.{count, insert, sort, page, shuffle, insert_at}
use nexus_agent_protocol.Repository.Search.{
  newest, rank, by_rank, select, in_category, in_search, search_by_capability,
}
use nexus_agent_protocol.Repository.Search.Laws.{
  search_by_capability_lem, is_wanted, IsRanked, shorter,
}

abbrev row : ℕ → AgentStatus → Bytes → Bytes → Agent
row id st cap serial = record {
  id = id;
  trust_root = codes "acme";
  capability_node = cap;
  agent_id = codes "agent_1";
  display_name = codes "A";
  description = [];
  endpoint = codes "https://a";
  owner_domain = codes "acme";
  status = st;
  cert_serial = serial;
  public_key_pem = [];
  metadata = none;
  created_at = id;
  updated_at = id;
  expires_at = none;
  owner_user_id = none;
  registration_type = domain;
  version = [];
  tags = [];
  support_url = [];
  last_seen_at = none;
  health_status = [];
  revocation_reason = [];
  suspended_at = none;
  deprecated_at = none;
  sunset_date = none;
  replacement_uri = [];
  primary_skill = [];
  skill_ids = [];
  tool_names = [];
}

abbrev rows : List Agent
rows =
    row 1 active (codes "finance") []
    ∷ row 2 revoked (codes "finance") []
    ∷ row 3 active (codes "finance>tax") (codes "s")
    ∷ row 4 active (codes "health") []
    ∷ row 5 active (codes "finance>tax") []
    ∷ []

abbrev world : World
world = record { agents = rows; ledger = []; events = []; calls = 0 }

abbrev env : Env
env = record {
  fault = λ n. false;
  now = λ n. n;
  new_uuid = λ n. n;
  has_user = λ n user. true;
  order = λ n i. 0;
}

found :
    select (λ n. n) by_rank (in_search (codes "finance") []) 0 0 rows
    ≡ row 3 active (codes "finance>tax") (codes "s")
      ∷ row 5 active (codes "finance>tax") []
      ∷ row 1 active (codes "finance") []
      ∷ []
unfolding select shuffle insert_at sort insert page by_rank rank newest in_search in_category like
    like_from any_suffix text_eq
found = refl

finance_is_plain : is_plain (codes "finance") ≡ true
unfolding is_plain
finance_is_plain = refl

search_by_capability_lem_example :
    (found : List Agent) × (search_by_capability env (codes "finance") [] 2 0 world
      ≡ (ok found, tick world))
    × All (λ a. IsIn a rows × (is_wanted (codes "finance") [] a ≡ true)) found
    × IsRanked found
    × (length found
        ≡ shorter (if 2 == 0 then 50 else 2) (count (is_wanted (codes "finance") []) rows - 0))
search_by_capability_lem_example =
    search_by_capability_lem env (codes "finance") [] 2 0 world refl finance_is_plain
