-- ===== src/Health/Alerts.antt =====
-- When an agent is announced as degraded.
use nexus_agent_protocol.Prelude.{
  ℕ, suc, ◌≡◌, refl, sym, ap, ◌∙◌, Bool, true, false, ◌&&◌, not, Bool-cases, inl, inr, List, [],
  ◌∷◌, ◌++◌, append_assoc, append-nil, Bytes, codes, arith, if◌then◌else◌, ◌==◌, ==_iff, map,
  Result, ok, err,
}
use nexus_agent_protocol.World.{World, Event, Error}
use nexus_agent_protocol.Model.Agent.{Agent}
use nexus_agent_protocol.Repository.Discovery.{list_active_endpoints}
use nexus_agent_protocol.Repository.{query, exec_update, update_health_status}
use nexus_agent_protocol.Service.{dispatch_webhook}
use nexus_agent_protocol.Service.Lifecycle.{set_health}
use nexus_agent_protocol.Health.{
  EndpointAgent, HealthChecker, Checked, set_count, probe_endpoint, update_health, announce, report,
  check_one, check_each, round, check_all, run_rounds, endpoint_agent,
}

-- A probe that was made: the agent, and whether it succeeded.
abbrev pub Probe : Type 0
Probe = EndpointAgent × Bool

-- the failures of an agent since its last success, in a log with the newest probe first
unfoldable pub trailing : ℕ → List Probe → ℕ
trailing id [] = 0
trailing id ((a, success) ∷ past) =
    let rest = trailing id past in if a.id == id then (if success then 0 else suc rest) else rest

-- the log after more probes
abbrev pub logged : List Probe → List Probe → List Probe
logged past [] = past
logged past (p ∷ log) = logged (p ∷ past) log

module _ (h : HealthChecker) where
  abbrev alert : EndpointAgent → Event
  alert a = record {
    event_type = codes "agent.health_degraded";
    payload = (codes "agent_id", h.service.show_uuid a.id) ∷ (codes "uri", a.uri) ∷ [];
  }

  -- One event for each probe that fails and makes the agent's failures in a row as many as the threshold.
  unfoldable pub alerts : List Probe → List Probe → List Event
  alerts past [] = []
  alerts past ((a, success) ∷ log) =
      let rest = alerts ((a, success) ∷ past) log in
      if not success && trailing a.id ((a, success) ∷ past) == h.fail_threshold
      then alert a ∷ rest
      else rest

  -- the probes of a round
  unfoldable pub probes : List EndpointAgent → Checked → List Probe
  probes [] c = []
  probes (a ∷ agents) c =
      (a, probe_endpoint h c.world.calls a.endpoint) ∷ probes agents (check_one h a c)

  unfoldable pub round_probes :
      (List EndpointAgent → List EndpointAgent)
      → (ℕ → ℕ)
      → Result Error (List Agent)
      → World
      → List Probe
  round_probes schedule counts (ok agents) w =
      probes (schedule (map endpoint_agent agents)) (record { fail_counts = counts; world = w })
  round_probes schedule counts (err e) w = []

  -- the counts of a checker are those of the log
  abbrev Counts : Checked → List Probe → Type 0
  Counts c past = (id : ℕ) → c.fail_counts id ≡ trailing id past

  health_events :
      (id : ℕ) (status : Bytes) (w : World) → (update_health h id status w).events ≡ w.events
  unfolding update_health set_health update_health_status exec_update
  health_events id status w = ground arith

  announced :
      h.service.has_webhooks ≡ true
      → (a : EndpointAgent) (w : World) → (announce h a w).events ≡ w.events ++ alert a ∷ []
  unfolding announce dispatch_webhook
  announced q a w = rw q refl

  reported :
      h.service.has_webhooks ≡ true
      → (a : EndpointAgent) (success : Bool) (count : ℕ) (w : World)
      → (report h a success count w).events
        ≡ w.events ++ (if not success && count == h.fail_threshold then alert a ∷ [] else [])
  unfolding report
  reported q a true count w = health_events a.id _ w ∙ sym (append-nil w.events)
  reported q a false count w = elim (Bool-cases (count == h.fail_threshold)) [
    | inl t ↦ rw t (announced q a _ ∙ ap (λ e. e ++ alert a ∷ []) (health_events a.id _ w))
    | inr n ↦ rw n (sym (append-nil w.events))
  ]

  counted :
      (a : EndpointAgent) (c : Checked) (past : List Probe)
      → Counts c past
      → Counts (check_one h a c) ((a, probe_endpoint h c.world.calls a.endpoint) ∷ past)
  unfolding check_one set_count trailing
  counted a c past k id = elim (Bool-cases (a.id == id)) [
    | inl t ↦
        let same : a.id ≡ id = (==_iff a.id id).0 t in
        rw t (
          ap (λ n. if probe_endpoint h c.world.calls a.endpoint then 0 else suc n)
            (ap c.fail_counts same ∙ k id))
    | inr n ↦ rw n (k id)
  ]

  split_alert :
      (b : Bool) (x : Event) (l m : List Event)
      → (l ++ (if b then x ∷ [] else [])) ++ m ≡ l ++ (if b then x ∷ m else m)
  split_alert true x l m = append_assoc l (x ∷ []) m
  split_alert false x l m = append_assoc l [] m

  count_now :
      (a : EndpointAgent) (success : Bool) (n : ℕ) (past : List Probe)
      → n ≡ trailing a.id past
      → (if success then 0 else suc n) ≡ trailing a.id ((a, success) ∷ past)
  unfolding trailing
  count_now a success n past k = ground (arith, k)

  one_events :
      h.service.has_webhooks ≡ true
      → (a : EndpointAgent) (c : Checked) (past : List Probe) → Counts c past
      → (check_one h a c).world.events
        ≡ c.world.events
          ++ (if not (probe_endpoint h c.world.calls a.endpoint)
                && trailing a.id ((a, probe_endpoint h c.world.calls a.endpoint) ∷ past)
                  == h.fail_threshold
              then alert a ∷ []
              else [])
  unfolding check_one
  one_events q a c past k =
      let success = probe_endpoint h c.world.calls a.endpoint in
      reported q a success _ c.world
      ∙ ap
          (λ n.
            c.world.events ++ (if not success && n == h.fail_threshold then alert a ∷ [] else []))
          (count_now a success (c.fail_counts a.id) past (k a.id))

  checked :
      h.service.has_webhooks ≡ true
      → (agents : List EndpointAgent) (c : Checked) (past : List Probe) → Counts c past
      → ((check_each h agents c).world.events ≡ c.world.events ++ alerts past (probes agents c))
        × Counts (check_each h agents c) (logged past (probes agents c))
  unfolding check_each probes alerts
  checked q [] c past k = (sym (append-nil c.world.events), k)
  checked q (a ∷ agents) c past k =
      let (events, counts) = checked q agents (check_one h a c) _ (counted a c past k) in
      let success = probe_endpoint h c.world.calls a.endpoint in
      (
        events
            ∙ ap (λ l. l ++ alerts ((a, success) ∷ past) (probes agents (check_one h a c)))
                (one_events q a c past k)
            ∙ split_alert _ (alert a) c.world.events _,
        counts,
      )

  -- the probes of all rounds
  unfoldable pub history : List (List EndpointAgent → List EndpointAgent) → Checked → List Probe
  history [] c = []
  history (schedule ∷ rounds) c =
      round_probes schedule c.fail_counts (list_active_endpoints h.service.env c.world).0
        (list_active_endpoints h.service.env c.world).1
      ++ history rounds (check_all h schedule c)

  alerts-append :
      (past l m : List Probe) → alerts past (l ++ m) ≡ alerts past l ++ alerts (logged past l) m
  unfolding alerts
  alerts-append past [] m = refl
  alerts-append past ((a, success) ∷ l) m = ground (arith, alerts-append ((a, success) ∷ past) l m)

  listed_events : (w : World) → (list_active_endpoints h.service.env w).1.events ≡ w.events
  unfolding list_active_endpoints query
  listed_events w = ground arith

  round_checked :
      h.service.has_webhooks ≡ true
      → (schedule : List EndpointAgent → List EndpointAgent) (counts : ℕ → ℕ)
        (r : Result Error (List Agent)) (w : World) (past : List Probe)
      → ((id : ℕ) → counts id ≡ trailing id past)
      → ((round h schedule counts r w).world.events
          ≡ w.events ++ alerts past (round_probes schedule counts r w))
        × Counts (round h schedule counts r w) (logged past (round_probes schedule counts r w))
  unfolding round round_probes alerts
  round_checked q schedule counts (ok agents) w past k =
      checked q (schedule (map endpoint_agent agents)) (record { fail_counts = counts; world = w })
        past k
  round_checked q schedule counts (err e) w past k = (sym (append-nil w.events), k)

  rounds_checked :
      h.service.has_webhooks ≡ true
      → (rounds : List (List EndpointAgent → List EndpointAgent)) (c : Checked) (past : List Probe)
      → Counts c past
      → (run_rounds h rounds c).world.events ≡ c.world.events ++ alerts past (history rounds c)
  unfolding run_rounds history check_all alerts
  rounds_checked q [] c past k = sym (append-nil c.world.events)
  rounds_checked q (schedule ∷ rounds) c past k =
      let r = (list_active_endpoints h.service.env c.world).0 in
      let w = (list_active_endpoints h.service.env c.world).1 in
      let log = round_probes schedule c.fail_counts r w in
      let next = round h schedule c.fail_counts r w in
      let (events, counts) = round_checked q schedule c.fail_counts r w past k in
      rounds_checked q rounds next (logged past log) counts
      ∙ ap (λ l. l ++ alerts (logged past log) (history rounds next)) events
      ∙ append_assoc w.events (alerts past log) (alerts (logged past log) (history rounds next))
      ∙ ap (λ l. l ++ (alerts past log ++ alerts (logged past log) (history rounds next)))
          (listed_events c.world)
      ∙ ap (λ l. c.world.events ++ l) (sym (alerts-append past log (history rounds next)))

  nothing_yet : (id : ℕ) → 0 ≡ trailing id []
  unfolding trailing
  nothing_yet id = refl

  abbrev pub started : World → Checked
  started w = record { fail_counts = λ id. 0; world = w }

  -- Where the webhooks are configured: from the start of the checker on, in whatever order the rounds
  -- probe the agents and whatever the database answers, the events are exactly one for each probe that
  -- fails and makes the failures of its agent in a row as many as the threshold.
  pub degraded_once :
      h.service.has_webhooks ≡ true
      → (rounds : List (List EndpointAgent → List EndpointAgent)) (w : World)
      → (run_rounds h rounds (started w)).world.events
        ≡ w.events ++ alerts [] (history rounds (started w))
  degraded_once q rounds w = rounds_checked q rounds (started w) [] nothing_yet
