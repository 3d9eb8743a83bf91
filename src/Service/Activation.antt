-- ===== src/Service/Activation.antt =====
-- The outcome of an activation.
use nexus_agent_protocol.Prelude.{
  ℕ, suc, ◌≡◌, ◌≢◌, refl, inl, inr, true, Option, none, some, Option-cases, Result-cases, ◌⊎◌, [],
  ◌∷◌, arith, codes, ◌==◌, Result, ok, err,
}
use nexus_agent_protocol.Model.Agent.{Agent, AgentStatus, active, uri}
use nexus_agent_protocol.World.{Error, issue_cert, World, M, pure, ◌>>◌, tick}
use nexus_agent_protocol.Repository.{update_status, activate_row}
use nexus_agent_protocol.Repository.Table.{find, find-id, update_where}
use nexus_agent_protocol.Service.{Service, Issuer, append_ledger, dispatch_webhook}
use nexus_agent_protocol.Service.Activate.{
  ActivationResult, owner_of, with_cert, without_cert, bare_result, cert_result, with_documents,
  set_active, activate,
}
use nexus_agent_protocol.Service.Operations.{activating, perform}
use nexus_agent_protocol.Service.Transitions.{Follows, rows_follow, has_id-only}
use nexus_agent_protocol.Service.Healthy.{Healthy, get_by_id-found, exec_update-found}
use nexus_agent_protocol.Service.Verdict.{verified, issued, certified, verdict, gates-verified}

module _ (s : Service) where
  -- what follows the write of an activation
  abbrev finish : ActivationResult → M (Unit {0})
  finish r =
      append_ledger s (uri r.agent) (codes "activate") (codes "nexus-system")
        ((codes "agent_id", r.agent.agent_id) ∷ (codes "cert_serial", r.serial) ∷ [])
      >> (dispatch_webhook s (codes "agent.activated")
            ((codes "agent_id", s.show_uuid r.agent.id) ∷ (codes "uri", uri r.agent) ∷ [])
          >> pure (with_documents s r))
      >> pure tt

  finish_ok : (r : ActivationResult) (w : World) → (finish r w).0 ≡ ok tt
  unfolding append_ledger dispatch_webhook
  finish_ok r w = ground arith

  finish_agents : (r : ActivationResult) (w : World) → (finish r w).1.agents ≡ w.agents
  unfolding append_ledger dispatch_webhook
  finish_agents r w = ground arith

-- The write of an activation.
record Activates (s : Service) (id : ℕ) (w : World) (a : Agent) (m : M ActivationResult)
    : Type 0 where
  result : ActivationResult
  edit : Agent → Agent
  ids : (b : Agent) → (edit b).id ≡ b.id
  status : (b : Agent) → (edit b).status ≡ active
  written : m (tick w) ≡ (
    ok result,
    record w { agents = update_where (λ b. b.id == id) edit w.agents; calls = suc (tick w).calls },
  )

-- What an activation makes of the row, and how it fails.
abbrev Outcome :
    Service → ℕ → World → Agent → M ActivationResult → Result Error AgentStatus → Type 0
Outcome s id w a m c =
    ((c ≡ err issue_cert) × (m (tick w) ≡ (err issue_cert, tick w)))
    ⊎ ((c ≡ ok active) × Activates s id w a m)

module _ (s : Service) (healthy : Healthy s.env) (id : ℕ) (w : World) (a : Agent)
    (found : find id w.agents ≡ some a) where
  found_it : (a.id == id) ≡ true
  found_it = ground (arith, find-id id w.agents found)

  Outcome-without : Outcome s id w a (without_cert s id a) (ok active)
  unfolding without_cert update_status
  Outcome-without = inr (
    refl,
    record {
      result = bare_result s a;
      edit = λ b. record b { status = active; updated_at = s.env.now (tick w).calls };
      ids = λ b. refl;
      status = λ b. refl;
      written =
          rw
            (exec_update-found s.env healthy (λ b. b.id == id)
              (λ now b. record b { status = active; updated_at = now }) id (tick w) a found
              found_it)
            refl;
    },
  )

  Outcome-with :
      (issuer : Issuer)
      → Outcome s id w a (with_cert s issuer id a) (issued issuer (owner_of s a) a)
  unfolding activate_row issued with_cert
  Outcome-with issuer =
      elim (Option-cases (issuer.issue (uri a) (owner_of s a).0 (owner_of s a).1)) [
        | inl n ↦ inl (rw (n, issued) refl, rw (n, with_cert) refl)
        | inr (c, n) ↦ inr (
          rw (n, issued) refl,
          record {
            result = cert_result s issuer c a;
            edit = λ b. record b {
              status = active;
              cert_serial = c.serial;
              public_key_pem = c.cert_pem;
              updated_at = s.env.now (tick w).calls;
            };
            ids = λ b. refl;
            status = λ b. refl;
            written =
                rw
                  (
                    n,
                    with_cert,
                    exec_update-found s.env healthy (λ b. b.id == id)
                        (λ now b. record b {
                          status = active;
                          cert_serial = c.serial;
                          public_key_pem = c.cert_pem;
                          updated_at = now;
                        })
                        id (tick w) a found found_it,
                  )
                  refl;
          },
        )
      ]

  Outcome-of :
      (i : Option Issuer)
      → Outcome s id w a
          (elim i [ none ↦ without_cert s id a | some issuer ↦ with_cert s issuer id a ])
          (elim i as (λ _. Result Error AgentStatus) [
            | none ↦ ok active
            | some issuer ↦ issued issuer (owner_of s a) a
          ])
  Outcome-of none = Outcome-without
  Outcome-of (some issuer) = Outcome-with issuer

  set_active-Outcome : Outcome s id w a (set_active s id a) (certified s a)
  unfolding set_active certified
  set_active-Outcome = Outcome-of s.issuer

-- With a database that answers, an activation of a stored agent follows the verdict alone: if the
-- owner is verified and a certificate is issued where there is an issuer, the row is active and each
-- other row untouched; otherwise the error is returned and no row has changed. The verdict does not
-- look at the status, so that a revoked or suspended agent is activated as a pending one is.
pub activate-Follows :
    (s : Service) (w : World) (id j : ℕ) (a : Agent)
    → Healthy s.env
    → find id w.agents ≡ some a
    → j ≢ id
    → Follows id j w (perform s (activating id) w) (verdict s a)
unfolding perform activate
activate-Follows s w id j a healthy found ne = elim (Result-cases (verified s a)) [
  | inl (e, v) ↦
      rw (get_by_id-found s.env healthy id w a found, gates-verified s a (tick w), verdict, v)
        (refl, refl)
  | inr (x, v) ↦ elim (set_active-Outcome s healthy id w a found) [
    | inl (c, q) ↦
        rw
          (
            get_by_id-found s.env healthy id w a found,
            gates-verified s a (tick w),
            verdict,
            v,
            c,
            q,
          )
          (refl, refl)
    | inr (c, o) ↦
        let v' = record w {
          agents = update_where (λ b. b.id == id) o.edit w.agents;
          calls = suc (tick w).calls;
        } in
        rw
          (
            get_by_id-found s.env healthy id w a found,
            gates-verified s a (tick w),
            verdict,
            v,
            c,
            o.written,
          )
          (rows_follow s healthy id j w a found ne (λ b. b.id == id) o.edit active
            (finish s o.result v') (found_it s healthy id w a found) o.ids (o.status a)
            (has_id-only s healthy id j w a found ne) (finish_ok s o.result v')
            (finish_agents s o.result v'))
  ]
]
