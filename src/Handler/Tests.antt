-- ===== src/Handler/Tests.antt =====
-- The handlers of internal/registry/handler/agent.go, run at concrete requests, and their theorems
-- there.
use nexus_agent_protocol.Prelude.{
  ℕ, zero, suc, ◌≤◌, ◌<◌, ◌≡◌, refl, true, false, none, some, List, [], ◌∷◌, arith, Bytes, codes,
  length, some_of, ◌==◌, map, ok,
}
use nexus_agent_protocol.Model.Agent.{Agent, active}
use nexus_agent_protocol.World.{tick}
use nexus_agent_protocol.World.Effects.{IsAtomic}
use nexus_agent_protocol.Repository.Table.{find}
use nexus_agent_protocol.Identity.{Context}
use nexus_agent_protocol.Service.Toys.{row, store}
use nexus_agent_protocol.Handler.Toys.{toy_server}
use nexus_agent_protocol.Handler.{agents_body, batch_body, Server, is_agent, is_owner, authorized}
use nexus_agent_protocol.Handler.Requests.{suspending, removing, handle, target, is_guarded}
use nexus_agent_protocol.Handler.Atomic.{handle-IsAtomic}
use nexus_agent_protocol.Handler.Authorization.{IsRefused, unauthorized-IsRefused}
use nexus_agent_protocol.Handler.Queries.{ListQuery, list_agents, resolve_one, batch_resolve}
use nexus_agent_protocol.Handler.Paging.{list_agents_bounds}
use nexus_agent_protocol.Handler.Batch.{batch_order}

-- a user who owns nothing
abbrev stranger : Context
stranger = record {
  agent_claims = none;
  user_claims = some (record {
    user_id = codes "u";
    email = codes "u@x";
    username = codes "u";
    token_type = codes "user";
    role = codes "user";
  });
}

stored_seven : find 7 (store active).agents ≡ some (row 7 active)
unfolding find
stored_seven = refl

not_owner : authorized toy_server (row 7 active) stranger ≡ false
unfolding authorized is_agent is_owner
not_owner = refl

handle-IsAtomic_example : IsAtomic (handle toy_server stranger (suspending (codes "7")))
handle-IsAtomic_example = handle-IsAtomic toy_server stranger (suspending (codes "7"))

deletion_target : target (removing (codes "7")) ≡ some (codes "7")
unfolding target
deletion_target = refl

deletion_guarded : is_guarded toy_server (removing (codes "7")) (row 7 active) ≡ true
unfolding is_guarded
deletion_guarded = refl

unauthorized-IsRefused_example :
    IsRefused
      (handle toy_server stranger (removing (codes "7")))
      (store active)
      (tick (store active))
      stranger
unauthorized-IsRefused_example =
    unauthorized-IsRefused toy_server stranger (row 7 active) (store active) 7
      (removing (codes "7")) (codes "7") deletion_target refl refl stored_seven deletion_guarded
      not_owner

abbrev open_server : Server
open_server = record toy_server { tokens = false }

-- where only users have tokens, nobody is kept from deleting an agent
deletion_open : is_guarded open_server (removing (codes "7")) (row 7 active) ≡ false
unfolding is_guarded
deletion_open = refl

abbrev everything : ListQuery
everything = record {
  q = [];
  trust_root = [];
  capability_node = [];
  username = [];
  skill = [];
  tool = [];
  limit = codes "1000";
  offset = [];
}

list_agents_bounds_example :
    (agents : List Agent) × (list_agents toy_server everything (store active)
      ≡ (ok (record { code = 200; body = agents_body agents }), tick (store active)))
    × (length agents ≤ 200)
list_agents_bounds_example = list_agents_bounds toy_server everything (store active) refl

abbrev two_uris : List Bytes
two_uris = codes "agent://a" ∷ codes "b" ∷ []

abbrev backwards : List ℕ
backwards = 1 ∷ 0 ∷ []

two_few : length two_uris ≤ 100
two_few = omega arith

all_run : (j : ℕ) → j < length two_uris → some_of (λ i. i == j) backwards ≡ true
all_run zero h = refl
all_run (suc zero) h = refl
all_run (suc (suc j)) h = absurd (omega (arith, h))

batch_order_example :
    (m : ℕ) × (batch_resolve toy_server backwards (some two_uris) (store active) ≡ (
      ok (record {
        code = 200;
        body = batch_body (map (λ u. (u, (resolve_one toy_server u (store active)).0)) two_uris);
      }),
      record (store active) { calls = m },
    ))
batch_order_example =
    batch_order toy_server (λ n. refl) backwards two_uris (store active) two_few all_run
