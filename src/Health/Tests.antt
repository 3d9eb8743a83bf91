-- ===== src/Health/Tests.antt =====
-- The health checker run at concrete rounds, and its theorem there.
use nexus_agent_protocol.Prelude.{◌≡◌, refl, true, none, List, [], ◌∷◌, ◌++◌}
use nexus_agent_protocol.Model.Agent.{active}
use nexus_agent_protocol.Service.Toys.{toy_service, store}
use nexus_agent_protocol.Health.{EndpointAgent, HealthChecker, run_rounds}
use nexus_agent_protocol.Health.Alerts.{alerts, history, started, degraded_once}

-- nothing answers, and two failures in a row degrade
abbrev toy_checker : HealthChecker
toy_checker = record {
  service = toy_service;
  fail_threshold = 2;
  valid = λ endpoint. true;
  request = λ time method endpoint. none;
}

abbrev rounds : List (List EndpointAgent → List EndpointAgent)
rounds = (λ agents. agents) ∷ (λ agents. agents) ∷ (λ agents. agents) ∷ []

degraded_once_example :
    (run_rounds toy_checker rounds (started toy_checker (store active))).world.events
    ≡ (store active).events
      ++ alerts toy_checker [] (history toy_checker rounds (started toy_checker (store active)))
degraded_once_example = degraded_once toy_checker refl rounds (store active)
