-- ===== src/Service/Registration.antt =====
-- What a registration that succeeds has checked and stored.
use nexus_agent_protocol.Prelude.{
  ℕ, ◌≡◌, refl, sym, ap, ◌∙◌, inl, inr, false, Bool-cases, some, List, ◌∷◌, arith, Bytes, to_lower,
  trim_space, if◌then◌else◌, ok,
}
use mathlib.Core.Path.{subst}
use nexus_agent_protocol.Model.Agent.{Agent, RegisterRequest, pending, is_nap_hosted}
use nexus_agent_protocol.Model.Capability.{validate_capability_node}
use nexus_agent_protocol.World.{World, Env, pure, ◌>>◌}
use nexus_agent_protocol.Repository.{create, stamped, inserted, taken, owner_missing}
use nexus_agent_protocol.Repository.Table.{find}
use nexus_agent_protocol.Service.{Service, append_ledger, dispatch_webhook}
use nexus_agent_protocol.Service.Register.{
  generate_agent_id, hosted_agent, domain_agent, with_skills, capability_of, register,
}
use nexus_agent_protocol.Service.Drafts.{bound, ok_inj, IsDraft, agent-IsDraft}

-- What `Create` returns and stores when it succeeds.
record IsCreated (env : Env) (x : Agent) (w : World) (row : Agent) : Type 0 where
  row_lem : row ≡ stamped env (env.new_uuid w.calls) (env.now w.calls) x
  stored_lem : find row.id (create env x w).1.agents ≡ some (inserted env row)

find-first : (a : Agent) (rows : List Agent) → find a.id (a ∷ rows) ≡ some a
unfolding find
find-first a rows = ground arith

module _ (env : Env) (x : Agent) (w : World) where
  IsCreated-row :
      env.fault w.calls ≡ false
      → taken env (stamped env (env.new_uuid w.calls) (env.now w.calls) x) w.agents ≡ false
      → owner_missing env w.calls x.owner_user_id ≡ false
      → IsCreated env x w (stamped env (env.new_uuid w.calls) (env.now w.calls) x)
  unfolding create inserted
  IsCreated-row n f o = record {
    row_lem = refl;
    stored_lem =
        rw (n, f, o)
          (find-first (inserted env (stamped env (env.new_uuid w.calls) (env.now w.calls) x))
            w.agents);
  }

  create-IsCreated : (row : Agent) → (create env x w).0 ≡ ok row → IsCreated env x w row
  unfolding create
  create-IsCreated row h =
      let filled = stamped env (env.new_uuid w.calls) (env.now w.calls) x in
      elim (Bool-cases (env.fault w.calls)) [
        | inl t ↦ absurd (ground arith)
        | inr n ↦ elim (Bool-cases (taken env filled w.agents)) [
          | inl t ↦ absurd (ground arith)
          | inr f ↦ elim (Bool-cases (owner_missing env w.calls x.owner_user_id)) [
            | inl t ↦ absurd (ground arith)
            | inr o ↦
                subst (IsCreated env x w) (ok_inj filled row (rw (n, f, o) at h))
                  (IsCreated-row n f o)
          ]
        ]
      ]

-- The row that a registration returns, and where it is stored.
pub record IsRegistered (s : Service) (req : RegisterRequest) (row : Agent) (w : World)
    : Type 0 where
  pub pending_lem : row.status ≡ pending
  pub root_lem : row.trust_root ≡ (
      if is_nap_hosted req.registration_type
      then s.trust_root
      else to_lower (trim_space req.owner_domain))
  pub capability_lem : row.capability_node ≡ capability_of req
  pub valid_lem : validate_capability_node row.capability_node ≡ ok tt
  pub stored_lem : find row.id w.agents ≡ some (inserted s.env row)

module _ (s : Service) (req : RegisterRequest) where
  completed-IsDraft :
      (i now : ℕ) (c : Bytes) (a : Agent)
      → IsDraft s req a
      → IsDraft s req (stamped s.env i now (with_skills s req c a))
  unfolding stamped with_skills
  completed-IsDraft i now c a h = record {
    status_lem = h.status_lem;
    root_lem = h.root_lem;
    capability_lem = h.capability_lem;
    valid_lem = h.valid_lem;
  }

  -- what follows the insertion
  announced_value :
      (u a o t : Bytes) (p q : List (Bytes × Bytes)) (x : Agent) (w : World)
      → ((append_ledger s u a o p >> (dispatch_webhook s t q >> pure x)) w).0 ≡ ok x
  unfolding append_ledger dispatch_webhook
  announced_value u a o t p q x w = ground arith

  announced_agents :
      (u a o t : Bytes) (p q : List (Bytes × Bytes)) (x : Agent) (w : World)
      → ((append_ledger s u a o p >> (dispatch_webhook s t q >> pure x)) w).1.agents ≡ w.agents
  unfolding append_ledger dispatch_webhook
  announced_agents u a o t p q x w = ground arith

  -- a stored draft is what a registration promises
  registered :
      (i now : ℕ) (c : Bytes) (a row : Agent) (w : World)
      → IsDraft s req a
      → row ≡ stamped s.env i now (with_skills s req c a)
      → find row.id w.agents ≡ some (inserted s.env row)
      → IsRegistered s req row w
  registered i now c a row w h e stored =
      let d = subst (IsDraft s req) (sym e) (completed-IsDraft i now c a h) in
      record {
        pending_lem = d.status_lem;
        root_lem = d.root_lem;
        capability_lem = d.capability_lem;
        valid_lem = ap validate_capability_node d.capability_lem ∙ d.valid_lem;
        stored_lem = stored;
      }

-- A registration that succeeds returns a pending agent with a valid capability, the one of the request
-- in normal form, under the registry's own root if it is hosted and under the lower-case domain
-- otherwise; and the agent is stored under its new id.
pub register-IsRegistered :
    (s : Service) (req : RegisterRequest) (w : World) (row : Agent)
    → (register s req w).0 ≡ ok row
    → IsRegistered s req row (register s req w).1
unfolding register
register-IsRegistered s req w row h =
    let x = bound (generate_agent_id s) _ w row h in
    let y =
      bound
        (if is_nap_hosted req.registration_type
          then hosted_agent s req (capability_of req) x.value
          else domain_agent s req (capability_of req) x.value)
        _ _ row x.rest_lem in
    let z = bound (create s.env _) _ _ row y.rest_lem in
    let same =
      ok_inj z.value row (sym (announced_value s req _ _ _ _ _ _ z.value _) ∙ z.rest_lem) in
    let agents =
      ap (λ r. r.1.agents) (x.whole_lem ∙ y.whole_lem ∙ z.whole_lem)
      ∙ announced_agents s req _ _ _ _ _ _ z.value _ in
    let c = create-IsCreated s.env _ _ z.value z.first_lem in
    subst (λ r. IsRegistered s req r (register s req w).1) same
      (registered s req _ _ _ y.value z.value _ (agent-IsDraft s req x.value _ y.value y.first_lem)
        c.row_lem (ap (find z.value.id) agents ∙ c.stored_lem))
