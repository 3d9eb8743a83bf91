-- ===== src/Handler/Authorization.antt =====
-- Requests by callers who may not make them.
use nexus_agent_protocol.Prelude.{
  ℕ, Bool, true, false, ◌&&◌, ◌||◌, not, ◌≡◌, refl, arith, none, some, Bytes, codes, if◌then◌else◌,
  is_some, ok, err, Bool-cases, inl, inr,
}
use nexus_agent_protocol.Action.{◌>>=◌}
use nexus_agent_protocol.Model.Agent.{Agent, UpdateRequest}
use nexus_agent_protocol.World.{World, tick}
use nexus_agent_protocol.Repository.{query, one, get_by_id}
use nexus_agent_protocol.Repository.Table.{find}
use nexus_agent_protocol.Identity.{Context}
use nexus_agent_protocol.Service.Lifecycle.{get}
use nexus_agent_protocol.Handler.{
  message, Response, Handler, Server, or_answer, path_id, get_agent, authorized, refuse, check,
  authorize_agent_action,
}
use nexus_agent_protocol.Handler.Agents.{
  update_check, patch_agent, remove_agent, activate_check, activate_agent, revoke_agent,
  suspend_agent, restore_agent, deprecate_agent, is_ownerless_domain,
}
use nexus_agent_protocol.Handler.Requests.{
  Change, posting, patching, removing, activating, suspending, restoring, revoking, deprecating,
  handle, target, is_guarded,
}

-- 401 without any claims, 403 with those of another
unfoldable pub refusal_code : Context → ℕ
refusal_code c = if not (is_some c.agent_claims) && not (is_some c.user_claims) then 401 else 403

-- the action answers this code, and ends in this world
pub record IsRefused {A : Type 0} (m : Handler A) (w v : World) (c : Context) : Type 0 where
  pub response : Response
  pub answered : m w ≡ (err response, v)
  pub code : response.code ≡ refusal_code c

module _ {A B : Type 0} (m : Handler A) (f : A → Handler B) {w v : World} {c : Context} where
  IsRefused-first : IsRefused m w v c → IsRefused (m >>= f) w v c
  IsRefused-first r = record {
    response = r.response;
    answered = rw (r.answered) refl;
    code = r.code;
  }

  IsRefused-then :
      (u : World) (a : A) → m w ≡ (ok a, u) → IsRefused (f a) u v c → IsRefused (m >>= f) w v c
  IsRefused-then u a q r = record {
    response = r.response;
    answered = rw q r.answered;
    code = r.code;
  }

module _ (h : Server) (c : Context) (a : Agent) where
  refuse-IsRefused : (w : World) (t : Bytes) → IsRefused (refuse h c t) w w c
  unfolding refuse refusal_code
  refuse-IsRefused w t =
      elim (Bool-cases (not (is_some c.agent_claims) && not (is_some c.user_claims))) [
        | inl q ↦ record {
          response = record { code = 401; body = message (codes "authentication required") };
          answered = rw q refl;
          code = rw q refl;
        }
        | inr q ↦ record {
          response = record { code = 403; body = message t };
          answered = rw q refl;
          code = rw q refl;
        }
      ]

  check-IsRefused :
      (w : World) (b : Bool) (t : Bytes)
      → b ≡ true
      → authorized h a c ≡ false
      → IsRefused (check h b a c t) w w c
  unfolding check
  check-IsRefused w b t qb qc = rw (qb, qc) (refuse-IsRefused w t)

  activate_check-IsRefused :
      (w : World)
      → is_ownerless_domain a ≡ false
      → authorized h a c ≡ false
      → IsRefused (activate_check h a c) w w c
  unfolding activate_check
  activate_check-IsRefused w qb qc =
      rw (qc, qb) (refuse-IsRefused w (codes "not authorized to activate this agent"))

  module _ (w : World) (id : ℕ) where
    got :
        h.service.env.fault w.calls ≡ false
        → find id w.agents ≡ some a
        → get_agent h id w ≡ (ok a, tick w)
    unfolding get_agent get get_by_id query one or_answer
    got qf qa = ground arith

    named : (path : Bytes) → h.parse_uuid path ≡ (true, id) → path_id h path w ≡ (ok id, w)
    unfolding path_id
    named path q = rw q refl

    -- the reads before the check, and the check
    read_and_IsRefused :
        {B : Type 0} (path : Bytes) (k : ℕ → Agent → Handler (Unit {0})) (f : ℕ → Agent → Handler B)
        → h.parse_uuid path ≡ (true, id)
        → h.service.env.fault w.calls ≡ false
        → find id w.agents ≡ some a
        → IsRefused (k id a) (tick w) (tick w) c
        → IsRefused
            (path_id h path >>= λ i. get_agent h i >>= λ x. k i x >>= λ _. f i x)
            w
            (tick w)
            c
    read_and_IsRefused path k f qp qf qa r =
        IsRefused-then (path_id h path) _ w id (named path qp) (
          IsRefused-then (get_agent h id) _ (tick w) a (got qf qa)
            (IsRefused-first (k id a) (λ _. f id a) r))

    acted_and_IsRefused :
        {B : Type 0} (path t : Bytes) (f : ℕ → Handler B)
        → h.parse_uuid path ≡ (true, id)
        → h.service.env.fault w.calls ≡ false
        → find id w.agents ≡ some a
        → (h.tokens || h.user_tokens) ≡ true
        → authorized h a c ≡ false
        → IsRefused
            (path_id h path >>= λ i. authorize_agent_action h c i t >>= λ _. f i)
            w
            (tick w)
            c
    unfolding authorize_agent_action
    acted_and_IsRefused path t f qp qf qa qb qc =
        IsRefused-then (path_id h path) _ w id (named path qp) (
          IsRefused-first (authorize_agent_action h c id t) (λ _. f id)
            (IsRefused-then (get_agent h id) _ (tick w) a (got qf qa)
              (check-IsRefused (tick w) (h.tokens || h.user_tokens) _ qb qc)))

    patch_and_IsRefused :
        (path : Bytes) (r : UpdateRequest)
        → h.parse_uuid path ≡ (true, id)
        → h.service.env.fault w.calls ≡ false
        → find id w.agents ≡ some a
        → (h.tokens || h.user_tokens) ≡ true
        → authorized h a c ≡ false
        → IsRefused (patch_agent h c path (some r)) w (tick w) c
    unfolding patch_agent update_check
    patch_and_IsRefused path r qp qf qa qb qc =
        IsRefused-then (path_id h path) _ w id (named path qp) (
          rw qb (
            IsRefused-first (get_agent h id >>= λ x. check h true x c _) _ (
              IsRefused-then (get_agent h id) _ (tick w) a (got qf qa)
                (check-IsRefused (tick w) true _ refl qc))))

    -- A request whose body decodes, whose path names a stored agent that this server guards, from
    -- a caller who is neither the agent, nor an administrator, nor the owner, with a database
    -- that answers: the answer is 401 without claims and 403 with them, and nothing has changed
    -- but the number of calls.
    pub unauthorized-IsRefused :
        (q : Change) (path : Bytes)
        → target q ≡ some path
        → h.parse_uuid path ≡ (true, id)
        → h.service.env.fault w.calls ≡ false
        → find id w.agents ≡ some a
        → is_guarded h q a ≡ true
        → authorized h a c ≡ false
        → IsRefused (handle h c q) w (tick w) c
    unfolding target handle is_guarded remove_agent activate_agent revoke_agent suspend_agent
        restore_agent deprecate_agent patch_agent update_check
    unauthorized-IsRefused (posting r) path qt qp qf qa qb qc = absurd (ground arith)
    unauthorized-IsRefused (patching p none) path qt qp qf qa qb qc = absurd (ground arith)
    unauthorized-IsRefused (patching p (some r)) path qt qp qf qa qb qc =
        patch_and_IsRefused p r (ground (arith, qt, qp)) qf qa qb qc
    unauthorized-IsRefused (removing p) path qt qp qf qa qb qc =
        read_and_IsRefused p (λ i x. check h h.tokens x c _) _ (ground (arith, qt, qp)) qf qa
          (check-IsRefused (tick w) h.tokens _ qb qc)
    unauthorized-IsRefused (activating p) path qt qp qf qa qb qc =
        read_and_IsRefused p (λ i x. activate_check h x c) _ (ground (arith, qt, qp)) qf qa
          (activate_check-IsRefused (tick w) (ground arith) qc)
    unauthorized-IsRefused (suspending p) path qt qp qf qa qb qc =
        acted_and_IsRefused p _ _ (ground (arith, qt, qp)) qf qa qb qc
    unauthorized-IsRefused (restoring p) path qt qp qf qa qb qc =
        acted_and_IsRefused p _ _ (ground (arith, qt, qp)) qf qa qb qc
    unauthorized-IsRefused (revoking p y) path qt qp qf qa qb qc =
        read_and_IsRefused p (λ i x. check h h.tokens x c _) _ (ground (arith, qt, qp)) qf qa
          (check-IsRefused (tick w) h.tokens _ qb qc)
    unauthorized-IsRefused (deprecating p r) path qt qp qf qa qb qc =
        acted_and_IsRefused p _ _ (ground (arith, qt, qp)) qf qa qb qc
