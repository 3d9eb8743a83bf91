-- ===== src/Health.antt =====
-- internal/health/checker.go: the checker of the agents' endpoints, over the world of the agent
-- service. `healthServiceAdapter` of cmd/registry/main.go hands its calls to that service.
pub mod Alerts
mod Tests
use nexus_agent_protocol.Prelude.{
  ℕ, suc, ◌+◌, Bool, true, false, ◌&&◌, not, Option, none, some, List, [], ◌∷◌, ◌++◌, Bytes, codes,
  if◌then◌else◌, ◌==◌, ltb, leb, map, Result, ok, err,
}
use nexus_agent_protocol.Model.Agent.{Agent, uri}
use nexus_agent_protocol.World.{Error, World}
use nexus_agent_protocol.Repository.Discovery.{list_active_endpoints}
use nexus_agent_protocol.Service.{Service, dispatch_webhook}
use nexus_agent_protocol.Service.Lifecycle.{set_health}

-- EndpointAgent
pub record EndpointAgent : Type 0 where
  pub id : ℕ
  pub uri : Bytes
  pub endpoint : Bytes

pub data Method : Type 0 where
  head get : Method

-- HealthChecker: `request` is the status that a request gets at the time of a number of database calls,
-- and `valid` says whether the request can be built. The threshold is not 0, as `New` sees to.
pub record HealthChecker : Type 0 where
  pub service : Service
  pub fail_threshold : ℕ
  pub valid : Bytes → Bool
  pub request : ℕ → Method → Bytes → Option ℕ

-- the failure counts, which are 0 where the map has no key, and the world
pub record Checked : Type 0 where
  pub fail_counts : ℕ → ℕ
  pub world : World

-- the configuration that `New` keeps: 0 is replaced
unfoldable pub threshold_of : ℕ → ℕ
threshold_of n = if n == 0 then 3 else n

abbrev is_success : Option ℕ → Bool
is_success none = false
is_success (some code) = leb 200 code && ltb code 300

-- a write of the map
unfoldable pub set_count : ℕ → ℕ → (ℕ → ℕ) → ℕ → ℕ
set_count id n counts x = if id == x then n else counts x

abbrev pub endpoint_agent : Agent → EndpointAgent
endpoint_agent a = record { id = a.id; uri = uri a; endpoint = a.endpoint }

module _ (h : HealthChecker) where
  -- probeEndpoint: HEAD, and then GET
  unfoldable pub probe_endpoint : ℕ → Bytes → Bool
  probe_endpoint time endpoint =
      if not (h.valid endpoint)
      then false
      else if is_success (h.request time head endpoint)
      then true
      else is_success (h.request time get endpoint)

  abbrev healthy : Bytes
  healthy = codes "healthy"

  abbrev degraded : Bytes
  degraded = codes "degraded"

  -- UpdateHealthStatus; its error is logged only
  unfoldable pub update_health : ℕ → Bytes → World → World
  update_health id status w = (set_health h.service id status (h.service.env.now w.calls) w).1

  -- the event of an agent that degrades
  unfoldable pub announce : EndpointAgent → World → World
  announce a w =
      (dispatch_webhook h.service (codes "agent.health_degraded")
        ((codes "agent_id", h.service.show_uuid a.id) ∷ (codes "uri", a.uri) ∷ []) w).1

  -- what a probe does to the world: the count is the one after the probe
  unfoldable pub report : EndpointAgent → Bool → ℕ → World → World
  report a success count w =
      if success
      then update_health a.id healthy w
      else if count == h.fail_threshold
      then announce a (update_health a.id degraded w)
      else w

  -- the goroutine of one agent, from its probe on
  unfoldable pub check_one : EndpointAgent → Checked → Checked
  check_one a c =
      let success = probe_endpoint c.world.calls a.endpoint in
      let count = if success then 0 else suc (c.fail_counts a.id) in
      record {
        fail_counts = set_count a.id count c.fail_counts;
        world = report a success count c.world;
      }

  -- the goroutines of a round, in the order in which they run
  unfoldable pub check_each : List EndpointAgent → Checked → Checked
  check_each [] c = c
  check_each (a ∷ agents) c = check_each agents (check_one a c)

  unfoldable pub round :
      (List EndpointAgent → List EndpointAgent)
      → (ℕ → ℕ)
      → Result Error (List Agent)
      → World
      → Checked
  round schedule counts (ok agents) w =
      check_each (schedule (map endpoint_agent agents)) (record { fail_counts = counts; world = w })
  round schedule counts (err e) w = record { fail_counts = counts; world = w }

  -- CheckAll: the scheduler orders the goroutines
  unfoldable pub check_all : (List EndpointAgent → List EndpointAgent) → Checked → Checked
  check_all schedule c =
      let (r, w) = list_active_endpoints h.service.env c.world in round schedule c.fail_counts r w

-- the rounds of `Start`, with the scheduler's order of each
unfoldable pub run_rounds :
    HealthChecker → List (List EndpointAgent → List EndpointAgent) → Checked → Checked
run_rounds h [] c = c
run_rounds h (schedule ∷ rounds) c = run_rounds h rounds (check_all h schedule c)
