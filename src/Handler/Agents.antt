-- ===== src/Handler/Agents.antt =====
-- The handlers of internal/registry/handler/agent.go that write. What `ShouldBindJSON` decoded is an
-- argument, and `none` is its error.
use nexus_agent_protocol.Prelude.{
  ℕ, Bool, true, false, ◌&&◌, ◌||◌, not, Option, none, some, List, [], ◌∷◌, ◌++◌, Bytes, codes,
  if◌then◌else◌, is_some, is_empty, contains,
}
use nexus_agent_protocol.Action.{pure, ◌>>=◌, ◌>>◌}
use nexus_agent_protocol.Model.Agent.{
  Agent, RegisterRequest, UpdateRequest, DeprecateRequest, is_nap_hosted, is_domain, uri,
}
use nexus_agent_protocol.Ledger.Decimal.{decimal}
use nexus_agent_protocol.Threat.{Report, score}
use nexus_agent_protocol.World.{
  Error, agent_limit, owner_domain_required, capability_missing, endpoint_required, bad_capability,
}
use nexus_agent_protocol.Identity.{Context, UserTokenClaims}
use nexus_agent_protocol.Service.Register.{register}
use nexus_agent_protocol.Service.Lifecycle.{
  update_agent, revoke, suspend, restore, deprecate, delete_agent,
}
use nexus_agent_protocol.Service.Activate.{activate}
use nexus_agent_protocol.Handler.{
  Body, no_body, message, error_text, rejected_body, registered_body, agent_body, status_body,
  revoked_body, activated_body, Response, Handler, Server, answer, calling, missing_or, path_id,
  get_agent, authorized, refuse, check, authorize_agent_action,
}

abbrev ok_with : Body → Handler Response
ok_with body = pure (record { code = 200; body = body })

-- errors that are *model.ErrValidation
abbrev pub is_validation : Error → Bool
is_validation owner_domain_required = true
is_validation capability_missing = true
is_validation endpoint_required = true
is_validation (bad_capability _) = true
is_validation _ = false

-- ScoreThreat: the capability fields that are not empty, in the order of the request
abbrev named : Bytes → List Bytes → List Bytes
named c caps = if is_empty c then caps else c ∷ caps

-- a domain agent without an owner is left to the check of the domain
abbrev pub is_ownerless_domain : Agent → Bool
is_ownerless_domain a = not (is_some a.owner_user_id) && is_domain a.registration_type

module _ (h : Server) where
  -- ScoreThreat of the service; no scorer is no report
  unfoldable pub score_threat : RegisterRequest → Option Report
  unfolding score
  score_threat req =
      if h.has_scorer
      then some (
          score req.display_name req.description req.endpoint
            (named req.capability (named req.category (named req.capability_node []))))
      else none

  -- isQuotaError of the text of an error
  unfoldable pub is_quota_error : Error → Bool
  unfolding contains decimal
  is_quota_error (agent_limit n) =
      contains (codes "agent limit of " ++ decimal n ++ codes " reached for your current plan")
        (codes "free tier limit")
  is_quota_error e = contains (h.error_string e) (codes "free tier limit")

  -- the owner of a hosted registration is the user of the token
  unfoldable pub with_owner : RegisterRequest → Option UserTokenClaims → Handler RegisterRequest
  with_owner req user =
      if is_nap_hosted req.registration_type
      then elim user [
        | none ↦
            answer 401 (message (codes "user authentication required for nap_hosted registration"))
        | some claims ↦
            let (valid, uid) = h.parse_uuid claims.user_id in
            if valid
            then pure (record req { owner_user_id = some uid; username = claims.username })
            else answer 400 (message (codes "invalid user ID in token"))
      ]
      else pure req

  unfoldable pub register_error : Error → Handler Agent
  unfolding is_quota_error
  register_error e =
      if is_validation e
      then answer 400 (error_text e)
      else if is_quota_error e
      then answer 422 (error_text e)
      else answer 500 (message (codes "registration failed"))

  -- a report that rejects ends the registration
  unfoldable pub check_threat : Option Report → Handler (Unit {0})
  check_threat none = pure tt
  check_threat (some report) =
      if report.rejected then answer 422 (rejected_body report) else pure tt

  -- CreateAgent
  unfoldable pub create_agent : Context → Option RegisterRequest → Handler Response
  create_agent c none = answer 400 (message (codes "invalid request"))
  create_agent c (some decoded) = do
    req ← with_owner decoded c.user_claims
    check_threat (score_threat req)
    agent ← calling (register h.service req) register_error
    pure (record { code = 201; body = registered_body agent (score_threat req) })

  -- the check of `UpdateAgent`, which reads the agent only where an issuer is configured
  unfoldable pub update_check : ℕ → Context → Handler (Unit {0})
  update_check id c =
      if h.tokens || h.user_tokens
      then (do
        a ← get_agent h id
        check h true a c (codes "cannot update another agent's registration"))
      else pure tt

  -- UpdateAgent
  unfoldable pub patch_agent : Context → Bytes → Option UpdateRequest → Handler Response
  patch_agent c path decoded = do
    id ← path_id h path
    req ← (elim decoded [
      | none ↦ answer 400 (message (codes "invalid request"))
      | some req ↦ pure req
    ])
    update_check id c
    agent ←
        calling (update_agent h.service id req)
          (missing_or (answer 500 (message (codes "failed to update agent"))))
    ok_with (agent_body agent)

  -- DeleteAgent
  unfoldable pub remove_agent : Context → Bytes → Handler Response
  remove_agent c path = do
    id ← path_id h path
    a ← get_agent h id
    check h h.tokens a c (codes "cannot delete another agent's registration")
    calling (delete_agent h.service id)
        (missing_or (answer 500 (message (codes "failed to delete agent"))))
    pure (record { code = 204; body = no_body })

  unfoldable pub activate_check : Agent → Context → Handler (Unit {0})
  unfolding authorized refuse
  activate_check a c =
      if authorized h a c || is_ownerless_domain a
      then pure tt
      else refuse h c (codes "not authorized to activate this agent")

  -- ActivateAgent
  unfoldable pub activate_agent : Context → Bytes → Handler Response
  activate_agent c path = do
    id ← path_id h path
    a ← get_agent h id
    activate_check a c
    result ←
        calling (activate h.service id)
          (missing_or (answer 500 (message (codes "failed to activate agent"))))
    ok_with (activated_body result)

  -- RevokeAgent
  unfoldable pub revoke_agent : Context → Bytes → Bytes → Handler Response
  revoke_agent c path reason = do
    id ← path_id h path
    a ← get_agent h id
    check h h.tokens a c (codes "cannot revoke another agent's registration")
    calling (revoke h.service id reason)
        (missing_or (answer 500 (message (codes "failed to revoke agent"))))
    ok_with (revoked_body (uri a))

  -- SuspendAgent
  unfoldable pub suspend_agent : Context → Bytes → Handler Response
  suspend_agent c path = do
    id ← path_id h path
    authorize_agent_action h c id (codes "suspend")
    calling (suspend h.service id) (λ e. missing_or (answer 400 (error_text e)) e)
    ok_with (status_body (codes "suspended"))

  -- RestoreAgent
  unfoldable pub restore_agent : Context → Bytes → Handler Response
  restore_agent c path = do
    id ← path_id h path
    authorize_agent_action h c id (codes "restore")
    calling (restore h.service id) (λ e. missing_or (answer 400 (error_text e)) e)
    ok_with (status_body (codes "active"))

  -- DeprecateAgent
  unfoldable pub deprecate_agent : Context → Bytes → DeprecateRequest → Handler Response
  deprecate_agent c path req = do
    id ← path_id h path
    authorize_agent_action h c id (codes "deprecate")
    calling (deprecate h.service id (some req)) (λ e. missing_or (answer 400 (error_text e)) e)
    ok_with (status_body (codes "deprecated"))
