-- ===== src/Handler/Atomic.antt =====
-- Requests whose answer is an error.
use nexus_agent_protocol.Prelude.{
  ℕ, Bool, ◌≡◌, refl, arith, Option, none, some, Bytes, Result, ok, err,
}
use nexus_agent_protocol.Action.{pure, ◌>>=◌, tried}
use nexus_agent_protocol.Model.Agent.{Agent, RegisterRequest, UpdateRequest, DeprecateRequest}
use nexus_agent_protocol.Threat.{Report}
use nexus_agent_protocol.World.{Error, World, M}
use nexus_agent_protocol.World.Effects.{
  SameData, SameData-trans, IsRead, IsAtomic, IsAtomic-of_IsRead, IsRead-pure, IsRead-fail,
  IsTotal-pure, IsRead-if, IsRead-bind, IsAtomic-read, IsAtomic-total, IsRead-option,
}
use nexus_agent_protocol.Repository.Laws.{IsRead-get_by_id}
use nexus_agent_protocol.Identity.{Context}
use nexus_agent_protocol.Service.Lifecycle.{get}
use nexus_agent_protocol.Service.Atomic.{
  register-IsAtomic, revoke-IsAtomic, suspend-IsAtomic, restore-IsAtomic, update_agent-IsAtomic,
  deprecate-IsAtomic, activate-IsAtomic, delete_agent-IsAtomic,
}
use nexus_agent_protocol.Handler.{
  Response, Handler, Server, calling, or_answer, missing_or, path_id, get_agent, refuse, check,
  authorize_agent_action,
}
use nexus_agent_protocol.Handler.Agents.{
  with_owner, register_error, check_threat, is_quota_error, create_agent, update_check, patch_agent,
  remove_agent, activate_check, activate_agent, revoke_agent, suspend_agent, restore_agent,
  deprecate_agent, is_validation,
}
use nexus_agent_protocol.Handler.Requests.{
  Change, posting, patching, removing, activating, suspending, restoring, revoking, deprecating,
  handle,
}

module _ {A : Type 0} where
  or_answer-IsRead :
      (on_error : Error → Handler A)
      → ((e : Error) → IsRead (on_error e))
      → (r : Result Error A) → IsRead (or_answer on_error r)
  unfolding or_answer
  or_answer-IsRead on_error h (ok a) = IsRead-pure a
  or_answer-IsRead on_error h (err e) = h e

  calling-IsRead :
      {m : M A} {on_error : Error → Handler A}
      → IsRead m
      → ((e : Error) → IsRead (on_error e))
      → IsRead (calling m on_error)
  calling-IsRead {m} {on_error} hm he =
      IsRead-bind {m = tried m} (record { same = λ w. hm.same w }) (or_answer-IsRead on_error he)

  called :
      (m : M A) (on_error : Error → Handler A) (v : World) (r : Result Error A) (w : World)
      (e : Response)
      → ((x : Error) → r ≡ err x → SameData v w)
      → ((x : Error) → IsRead (on_error x))
      → (or_answer on_error r w).0 ≡ err e
      → SameData v (or_answer on_error r w).1
  unfolding or_answer
  called m on_error v (ok a) w e h k q = absurd (ground arith)
  called m on_error v (err x) w e h k q = SameData-trans (h x refl) ((k x).same w)

  calling-IsAtomic :
      {m : M A} {on_error : Error → Handler A}
      → IsAtomic m
      → ((e : Error) → IsRead (on_error e))
      → IsAtomic (calling m on_error)
  calling-IsAtomic {m} {on_error} hm he = record {
    same = λ w e q. called m on_error w (m w).0 (m w).1 e (λ x r. hm.same w x r) he q;
  }

  missing_or-IsRead : {other : Handler A} → IsRead other → (e : Error) → IsRead (missing_or other e)
  missing_or-IsRead h e = IsRead-if _ (IsRead-fail _) h

module _ (h : Server) where
  path_id-IsRead : (path : Bytes) → IsRead (path_id h path)
  unfolding path_id
  path_id-IsRead path = IsRead-if _ (IsRead-pure _) (IsRead-fail _)

  get_agent-IsRead : (id : ℕ) → IsRead (get_agent h id)
  unfolding get_agent get
  get_agent-IsRead id = calling-IsRead (IsRead-get_by_id _ id) (missing_or-IsRead (IsRead-fail _))

  check-IsRead : (b : Bool) (a : Agent) (c : Context) (t : Bytes) → IsRead (check h b a c t)
  unfolding check refuse
  check-IsRead b a c t = IsRead-if _ (IsRead-if _ (IsRead-fail _) (IsRead-fail _)) (IsRead-pure tt)

  action-IsRead : (c : Context) (id : ℕ) (t : Bytes) → IsRead (authorize_agent_action h c id t)
  unfolding authorize_agent_action
  action-IsRead c id t = IsRead-bind (get_agent-IsRead id) λ a. check-IsRead _ a c _

  -- the end of a handler: the call of the service, and its answer
  ending :
      {A : Type 0} {m : M A} {on_error : Error → Handler A} (r : A → Response)
      → IsAtomic m
      → ((e : Error) → IsRead (on_error e))
      → IsAtomic (calling m on_error >>= λ a. pure (r a))
  ending {m} {on_error} r hm he =
      IsAtomic-total {m = calling m on_error} (calling-IsAtomic hm he) λ a. IsTotal-pure _

  text-IsRead :
      {A : Type 0} (on_error : Error → Handler A)
      → ((e : Error) → IsRead (on_error e))
      → (e : Error) → IsRead (missing_or (on_error e) e)
  text-IsRead on_error k e = missing_or-IsRead (k e) e

  remove_agent-IsAtomic : (c : Context) (path : Bytes) → IsAtomic (remove_agent h c path)
  unfolding remove_agent
  remove_agent-IsAtomic c path = IsAtomic-read (path_id-IsRead path) λ id.
      IsAtomic-read (get_agent-IsRead id) λ a.
        IsAtomic-read (check-IsRead _ a c _)
          λ _. ending _ (delete_agent-IsAtomic h.service id) (missing_or-IsRead (IsRead-fail _))

  revoke_agent-IsAtomic : (c : Context) (path why : Bytes) → IsAtomic (revoke_agent h c path why)
  unfolding revoke_agent
  revoke_agent-IsAtomic c path why = IsAtomic-read (path_id-IsRead path) λ id.
      IsAtomic-read (get_agent-IsRead id) λ a.
        IsAtomic-read (check-IsRead _ a c _)
          λ _. ending _ (revoke-IsAtomic h.service id why) (missing_or-IsRead (IsRead-fail _))

  activate_agent-IsAtomic : (c : Context) (path : Bytes) → IsAtomic (activate_agent h c path)
  unfolding activate_agent activate_check refuse
  activate_agent-IsAtomic c path = IsAtomic-read (path_id-IsRead path) λ id.
      IsAtomic-read (get_agent-IsRead id) λ a.
        IsAtomic-read (IsRead-if _ (IsRead-pure tt) (IsRead-if _ (IsRead-fail _) (IsRead-fail _)))
          λ _. ending _ (activate-IsAtomic h.service id) (missing_or-IsRead (IsRead-fail _))

  suspend_agent-IsAtomic : (c : Context) (path : Bytes) → IsAtomic (suspend_agent h c path)
  unfolding suspend_agent
  suspend_agent-IsAtomic c path = IsAtomic-read (path_id-IsRead path) λ id.
      IsAtomic-read (action-IsRead c id _)
        λ _. ending _ (suspend-IsAtomic h.service id) (text-IsRead _ λ e. IsRead-fail _)

  restore_agent-IsAtomic : (c : Context) (path : Bytes) → IsAtomic (restore_agent h c path)
  unfolding restore_agent
  restore_agent-IsAtomic c path = IsAtomic-read (path_id-IsRead path) λ id.
      IsAtomic-read (action-IsRead c id _)
        λ _. ending _ (restore-IsAtomic h.service id) (text-IsRead _ λ e. IsRead-fail _)

  deprecate_agent-IsAtomic :
      (c : Context) (path : Bytes) (r : DeprecateRequest) → IsAtomic (deprecate_agent h c path r)
  unfolding deprecate_agent
  deprecate_agent-IsAtomic c path r = IsAtomic-read (path_id-IsRead path) λ id.
      IsAtomic-read (action-IsRead c id _)
        λ _. ending _ (deprecate-IsAtomic h.service id (some r)) (text-IsRead _ λ e. IsRead-fail _)

  patch_agent-IsAtomic :
      (c : Context) (path : Bytes) (r : Option UpdateRequest) → IsAtomic (patch_agent h c path r)
  unfolding patch_agent update_check
  patch_agent-IsAtomic c path r = IsAtomic-read (path_id-IsRead path) λ id.
      IsAtomic-read (IsRead-option r (IsRead-fail _) λ req. IsRead-pure req) λ req.
        IsAtomic-read
          (IsRead-if _ (IsRead-bind (get_agent-IsRead id) λ a. check-IsRead _ a c _)
            (IsRead-pure tt))
          λ _. ending _ (update_agent-IsAtomic h.service id req) (missing_or-IsRead (IsRead-fail _))

  with_owner-IsRead : (r : RegisterRequest) (c : Context) → IsRead (with_owner h r c.user_claims)
  unfolding with_owner
  with_owner-IsRead r c =
      IsRead-if _
        (IsRead-option c.user_claims (IsRead-fail _)
          λ claims. IsRead-if _ (IsRead-pure _) (IsRead-fail _))
        (IsRead-pure r)

  check_threat-IsRead : (r : Option Report) → IsRead (check_threat h r)
  unfolding check_threat
  check_threat-IsRead none = IsRead-pure tt
  check_threat-IsRead (some r) = IsRead-if _ (IsRead-fail _) (IsRead-pure tt)

  register_error-IsRead : (e : Error) → IsRead (register_error h e)
  unfolding register_error
  register_error-IsRead e =
      IsRead-if (is_validation e) (IsRead-fail _)
        (IsRead-if (is_quota_error h e) (IsRead-fail _) (IsRead-fail _))

  create_agent-IsAtomic : (c : Context) (r : Option RegisterRequest) → IsAtomic (create_agent h c r)
  unfolding create_agent
  create_agent-IsAtomic c none = IsAtomic-of_IsRead (IsRead-fail _)
  create_agent-IsAtomic c (some r) = IsAtomic-read (with_owner-IsRead r c) λ req.
      IsAtomic-read (check_threat-IsRead _)
        λ _. ending _ (register-IsAtomic h.service req) register_error-IsRead

  -- Whatever request is made, over whatever world: where the answer is one of a handler's
  -- error answers, no row, no ledger entry and no event has changed.
  pub handle-IsAtomic : (c : Context) (q : Change) → IsAtomic (handle h c q)
  unfolding handle
  handle-IsAtomic c (posting r) = create_agent-IsAtomic c r
  handle-IsAtomic c (patching path r) = patch_agent-IsAtomic c path r
  handle-IsAtomic c (removing path) = remove_agent-IsAtomic c path
  handle-IsAtomic c (activating path) = activate_agent-IsAtomic c path
  handle-IsAtomic c (suspending path) = suspend_agent-IsAtomic c path
  handle-IsAtomic c (restoring path) = restore_agent-IsAtomic c path
  handle-IsAtomic c (revoking path why) = revoke_agent-IsAtomic c path why
  handle-IsAtomic c (deprecating path r) = deprecate_agent-IsAtomic c path r
