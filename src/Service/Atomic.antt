-- ===== src/Service/Atomic.antt =====
-- Operations that fail change nothing.
use nexus_agent_protocol.Prelude.{
  ℕ, Bool, true, false, ◌≡◌, Option, none, some, List, arith, Bytes, Result, ok, err,
}
use nexus_agent_protocol.Model.Agent.{Agent, RegisterRequest, UpdateRequest, DeprecateRequest}
use nexus_agent_protocol.World.{Error, World}
use nexus_agent_protocol.World.Effects.{
  SameData, SameData-trans, IsRead, IsTotal, IsAtomic, IsAtomic-of_IsRead, IsRead-pure, IsRead-fail,
  IsTotal-pure, IsRead-if, IsAtomic-if, IsRead-bind, IsAtomic-read, IsAtomic-total, IsTotal-bind,
  IsRead-option, IsAtomic-option,
}
use nexus_agent_protocol.Repository.{
  update, update_status, activate_row, update_status_with_reason, suspend_row, restore_row,
  deprecate_row, update_health_status,
}
use nexus_agent_protocol.Repository.Laws.{
  IsRead-query, IsRead-get_by_id, IsRead-get_by_agent_id, IsAtomic-exec_update, IsAtomic-create,
  IsAtomic-delete,
}
use nexus_agent_protocol.Service.{Service, append_ledger, dispatch_webhook}
use nexus_agent_protocol.Service.Register.{
  generate_agent_id, count_by_owner, check_quota, hosted_agent, hosted_by, domain_agent,
  check_capability, register,
}
use nexus_agent_protocol.Service.Lifecycle.{
  update_agent, revoke, suspend, restore, sunset_of, deprecate, delete_agent, set_health, resolve,
  settle, resolve_local, resolve_remote,
}
use nexus_agent_protocol.Service.Normalize.{normalize_capability}
use nexus_agent_protocol.Service.Operations.{
  Op, registering, updating, activating, revoking, suspending, restoring, deprecating, deleting,
  probing, resolving, perform,
}
use nexus_agent_protocol.Service.Activate.{
  gate, email_gate, domain_gate, gates, with_cert, without_cert, set_active, activate,
}

ruleset reads = (IsRead-pure, IsRead-fail, IsRead-if, IsRead-bind, IsRead-query)

module _ (s : Service) where
  IsTotal-append_ledger :
      (u a o : Bytes) (p : List (Bytes × Bytes)) → IsTotal (append_ledger s u a o p)
  unfolding append_ledger
  IsTotal-append_ledger u a o p = record { result = λ w. (tt, ground arith) }

  IsTotal-dispatch_webhook :
      (t : Bytes) (p : List (Bytes × Bytes)) → IsTotal (dispatch_webhook s t p)
  unfolding dispatch_webhook
  IsTotal-dispatch_webhook t p = record { result = λ w. (tt, ground arith) }

  pub IsRead-generate_agent_id : IsRead (generate_agent_id s)
  unfolding generate_agent_id
  IsRead-generate_agent_id = record {
    same = λ w. record { agents = ground arith; ledger = ground arith; events = ground arith };
  }

  IsRead-check_capability : (cap : Bytes) → IsRead (check_capability cap)
  IsRead-check_capability cap = record {
    same = λ w. record { agents = ground arith; ledger = ground arith; events = ground arith };
  }

  IsRead-check_quota : (user : ℕ) → IsRead (check_quota s user)
  unfolding check_quota count_by_owner
  IsRead-check_quota user = search reads

  pub IsRead-hosted_agent : (r : RegisterRequest) (c a : Bytes) → IsRead (hosted_agent s r c a)
  unfolding hosted_agent hosted_by
  IsRead-hosted_agent r c a =
      IsRead-option r.owner_user_id (IsRead-fail _)
        λ user. search (reads, IsRead-check_capability, IsRead-check_quota)

  pub IsRead-domain_agent : (r : RegisterRequest) (c a : Bytes) → IsRead (domain_agent s r c a)
  unfolding domain_agent
  IsRead-domain_agent r c a = search (reads, IsRead-check_capability)

  IsRead-gate : (o : Option Bool) (x y : Error) → IsRead (gate o x y)
  unfolding gate
  IsRead-gate none x y = IsRead-fail _
  IsRead-gate (some true) x y = IsRead-pure tt
  IsRead-gate (some false) x y = IsRead-fail _

  pub IsRead-gates : (a : Agent) → IsRead (gates s a)
  unfolding gates email_gate domain_gate
  IsRead-gates a =
      IsRead-if _
        (IsRead-option s.email_checker (IsRead-pure tt)
          λ check. IsRead-option a.owner_user_id (IsRead-pure tt) λ user. IsRead-gate _ _ _)
        (IsRead-option s.dns_verifier (IsRead-pure tt) λ check. IsRead-gate _ _ _)

  pub IsRead-sunset_of : (d : Bytes) → IsRead (sunset_of s d)
  unfolding sunset_of
  IsRead-sunset_of d =
      IsRead-if _ (IsRead-pure none) (IsRead-option _ (IsRead-fail _) λ t. IsRead-pure _)

  IsAtomic-set_active : (id : ℕ) (a : Agent) → IsAtomic (set_active s id a)
  unfolding set_active with_cert without_cert activate_row update_status
  IsAtomic-set_active id a =
      IsAtomic-option s.issuer (IsAtomic-total (IsAtomic-exec_update s.env _ _) λ _. IsTotal-pure _)
        λ issuer.
          IsAtomic-option _ (IsAtomic-of_IsRead (IsRead-fail _))
            λ c. IsAtomic-total (IsAtomic-exec_update s.env _ _) λ _. IsTotal-pure _

  ruleset steps = (
    IsAtomic-read, IsAtomic-total, IsAtomic-if, IsAtomic-of_IsRead, IsTotal-bind, IsTotal-pure,
    IsAtomic-exec_update, IsAtomic-create, IsAtomic-delete, IsTotal-append_ledger,
    IsTotal-dispatch_webhook, IsRead-get_by_id, IsRead-fail,
  )

  pub register-IsAtomic : (r : RegisterRequest) → IsAtomic (register s r)
  unfolding register
  register-IsAtomic r = IsAtomic-read IsRead-generate_agent_id λ id.
      IsAtomic-read (IsRead-if _ (IsRead-hosted_agent _ _ _) (IsRead-domain_agent _ _ _))
        λ a. IsAtomic-total (IsAtomic-create s.env _) λ row. search steps

  pub revoke-IsAtomic : (id : ℕ) (reason : Bytes) → IsAtomic (revoke s id reason)
  unfolding revoke update_status update_status_with_reason
  revoke-IsAtomic id reason = search steps

  pub suspend-IsAtomic : (id : ℕ) → IsAtomic (suspend s id)
  unfolding suspend suspend_row
  suspend-IsAtomic id = search steps

  pub restore-IsAtomic : (id : ℕ) → IsAtomic (restore s id)
  unfolding restore restore_row
  restore-IsAtomic id = search steps

  pub update_agent-IsAtomic : (id : ℕ) (r : UpdateRequest) → IsAtomic (update_agent s id r)
  unfolding update_agent update
  update_agent-IsAtomic id r = search steps

  pub deprecate-IsAtomic : (id : ℕ) (r : Option DeprecateRequest) → IsAtomic (deprecate s id r)
  unfolding deprecate deprecate_row
  deprecate-IsAtomic id r = IsAtomic-read (IsRead-get_by_id _ _) λ a.
      IsAtomic-if _ (IsAtomic-of_IsRead (IsRead-fail _)) (
        IsAtomic-read (IsRead-sunset_of _)
          λ d. IsAtomic-total (IsAtomic-exec_update s.env _ _) λ _. search steps)

  pub activate-IsAtomic : (id : ℕ) → IsAtomic (activate s id)
  unfolding activate
  activate-IsAtomic id = IsAtomic-read (IsRead-get_by_id _ _) λ a.
      IsAtomic-read (IsRead-gates a)
        λ _. IsAtomic-total (IsAtomic-set_active id a) λ r. search steps

  set_health-IsAtomic : (id : ℕ) (h : Bytes) (t : ℕ) → IsAtomic (set_health s id h t)
  unfolding set_health update_health_status
  set_health-IsAtomic id h t = search steps

  pub delete_agent-IsAtomic : (id : ℕ) → IsAtomic (delete_agent s id)
  unfolding delete_agent
  delete_agent-IsAtomic id = search steps

  IsRead-resolve_remote : (r c a : Bytes) (e : Error) → IsRead (resolve_remote s r c a e)
  unfolding resolve_remote
  IsRead-resolve_remote r c a e =
      IsRead-option s.remote_resolver (IsRead-fail e)
        λ remote. IsRead-option _ (IsRead-fail e) λ b. IsRead-pure b

  IsRead-resolve_local : (a : Agent) → IsRead (resolve_local s a)
  unfolding resolve_local
  IsRead-resolve_local a = search reads

  settle_same :
      (r c a : Bytes) (v : World) (x : Result Error Agent) (w : World)
      → SameData v w
      → SameData v (settle s r c a x w).1
  unfolding settle
  settle_same r c a v (ok b) w h = SameData-trans h ((IsRead-resolve_local b).same w)
  settle_same r c a v (err e) w h = SameData-trans h ((IsRead-resolve_remote r c a e).same w)

  pub resolve-IsRead : (r c a : Bytes) → IsRead (resolve s r c a)
  unfolding resolve
  resolve-IsRead r c a = record {
    same = λ w.
        settle_same r c a w _ _
          ((IsRead-get_by_agent_id s.env r (normalize_capability c) a).same w);
  }

perform-IsAtomic : (s : Service) (op : Op) → IsAtomic (perform s op)
unfolding perform
perform-IsAtomic s (registering r) = IsAtomic-total (register-IsAtomic s r) λ _. IsTotal-pure tt
perform-IsAtomic s (updating id r) =
    IsAtomic-total (update_agent-IsAtomic s id r) λ _. IsTotal-pure tt
perform-IsAtomic s (activating id) = IsAtomic-total (activate-IsAtomic s id) λ _. IsTotal-pure tt
perform-IsAtomic s (revoking id reason) = revoke-IsAtomic s id reason
perform-IsAtomic s (suspending id) = suspend-IsAtomic s id
perform-IsAtomic s (restoring id) = restore-IsAtomic s id
perform-IsAtomic s (deprecating id r) = deprecate-IsAtomic s id r
perform-IsAtomic s (deleting id) = delete_agent-IsAtomic s id
perform-IsAtomic s (probing id h t) = set_health-IsAtomic s id h t
perform-IsAtomic s (resolving r c a) =
    IsAtomic-of_IsRead (IsRead-bind (resolve-IsRead s r c a) λ _. IsRead-pure tt)

-- An operation of the service that returns an error has changed no row, appended no ledger entry and
-- dispatched no event, whichever database call failed or gate refused.
pub perform_atomic :
    (s : Service) (op : Op) (w : World) (e : Error)
    → (perform s op w).0 ≡ err e
    → SameData w (perform s op w).1
perform_atomic s op w e h = (perform-IsAtomic s op).same w e h
