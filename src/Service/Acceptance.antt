-- ===== src/Service/Acceptance.antt =====
-- A registration of a domain that passes the checks is accepted.
use nexus_agent_protocol.Prelude.{
  suc, ◌≡◌, refl, inl, inr, ◌⊎◌, true, false, Bool-cases, some, List, [], ◌++◌, arith, Bytes, codes,
  is_empty, to_lower, trim_space, ok, err, is_ok,
}
use nexus_agent_protocol.Model.Agent.{Agent, RegisterRequest, domain, is_nap_hosted}
use nexus_agent_protocol.Model.Capability.{validate_capability_node}
use nexus_agent_protocol.World.{duplicate, World, Env, pure, ◌>>◌, tick}
use nexus_agent_protocol.Repository.{create, stamped, taken, owner_missing}
use nexus_agent_protocol.Service.{Service, append_ledger, dispatch_webhook}
use nexus_agent_protocol.Service.Healthy.{Healthy}
use nexus_agent_protocol.Service.Register.{
  generate_agent_id, time_bytes, domain_agent, check_capability, draft, with_skills, capability_of,
  register,
}

module _ (s : Service) (req : RegisterRequest) where
  drafted :
      (id : Bytes) (w : World)
      → is_empty (to_lower (trim_space req.owner_domain)) ≡ false
      → is_empty (capability_of req) ≡ false
      → is_empty req.endpoint ≡ false
      → validate_capability_node (capability_of req) ≡ ok tt
      → domain_agent s req (capability_of req) id w ≡ (
        ok (
            draft req
              (to_lower (trim_space req.owner_domain))
              (capability_of req)
              id
              req.owner_domain
              domain),
        w,
      )
  unfolding domain_agent
  drafted id w e f g v = rw (e, f, g, check_capability, v) refl

  drafted_owner :
      (id : Bytes)
      → (with_skills s req (capability_of req) (
          draft req
            (to_lower (trim_space req.owner_domain))
            (capability_of req)
            id
            req.owner_domain
            domain)).owner_user_id
        ≡ req.owner_user_id
  unfolding with_skills draft
  drafted_owner id = refl

  generated :
      (w : World) (buf : Bytes)
      → s.random w.calls ≡ some buf
      → (id : Bytes) × (generate_agent_id s w ≡ (ok id, tick w))
  unfolding generate_agent_id
  generated w buf q = (
    codes "agent_" ++ to_lower (s.codec.base32 (time_bytes 8 (s.env.now w.calls) [] ++ buf)),
    rw (q, generate_agent_id) refl,
  )

-- what follows the insertion does not fail
announced_ok :
    (s : Service) (u a o t : Bytes) (p q : List (Bytes × Bytes)) (x : Agent) (w : World)
    → is_ok ((append_ledger s u a o p >> (dispatch_webhook s t q >> pure x)) w).0 ≡ true
unfolding append_ledger dispatch_webhook
announced_ok s u a o t p q x w = ground arith

create-ok :
    (env : Env) (x : Agent) (w : World)
    → Healthy env
    → owner_missing env w.calls x.owner_user_id ≡ false
    → ((create env x w).0 ≡ err duplicate)
      ⊎ ((create env x w).0 ≡ ok (stamped env (env.new_uuid w.calls) (env.now w.calls) x))
unfolding create
create-ok env x w healthy o =
    elim (Bool-cases
      (taken env (stamped env (env.new_uuid w.calls) (env.now w.calls) x) w.agents)) [
        | inl t ↦ inl (rw (healthy w.calls, t) refl)
        | inr f ↦ inr (rw (healthy w.calls, f, o) refl)
      ]

-- With a database and a random source that answer, a registration of a domain that has an endpoint,
-- a valid capability and an owner, if any, that the table of the users holds fails only as a
-- duplicate of a stored agent; otherwise it succeeds.
pub register_accepts :
    (s : Service) (req : RegisterRequest) (w : World) (buf : Bytes)
    → Healthy s.env
    → s.random w.calls ≡ some buf
    → owner_missing s.env (suc w.calls) req.owner_user_id ≡ false
    → is_nap_hosted req.registration_type ≡ false
    → is_empty (to_lower (trim_space req.owner_domain)) ≡ false
    → is_empty (capability_of req) ≡ false
    → is_empty req.endpoint ≡ false
    → validate_capability_node (capability_of req) ≡ ok tt
    → ((register s req w).0 ≡ err duplicate) ⊎ (is_ok (register s req w).0 ≡ true)
unfolding register
register_accepts s req w buf healthy q o n e f g v =
    let (id, gen) = generated s req w buf q in
    let d =
      draft req (to_lower (trim_space req.owner_domain)) (capability_of req) id req.owner_domain
        domain in
    elim (create-ok s.env (with_skills s req (capability_of req) d) (tick w) healthy
      (rw (drafted_owner s req id) o)) [
        | inl t ↦ inl (rw (gen, n, drafted s req id (tick w) e f g v, t) refl)
        | inr t ↦
            inr (rw (gen, n, drafted s req id (tick w) e f g v, t) (announced_ok s _ _ _ _ _ _ _ _))
      ]
