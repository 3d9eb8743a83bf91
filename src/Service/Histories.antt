-- ===== src/Service/Histories.antt =====
-- One walk through every operation of the service: a relation between the world before and the world
-- after holds for an operation when it holds for the writes that the operation makes.
use nexus_agent_protocol.Prelude.{ℕ, Option, List, [], ◌∷◌, Bytes}
use nexus_agent_protocol.Model.Agent.{
  Agent, RegisterRequest, UpdateRequest, DeprecateRequest, active, revoked,
}
use nexus_agent_protocol.World.{World}
use nexus_agent_protocol.World.Effects.{SameData-refl, IsRead-if}
use nexus_agent_protocol.World.Keeps.{
  IsHistory, Keeps, Keeps-of_IsRead, Keeps-pure, Keeps-fail, Keeps-if, Keeps-option, Keeps-bind,
}
use nexus_agent_protocol.Repository.{
  create, update, update_status, activate_row, delete, update_status_with_reason, suspend_row,
  restore_row, deprecate_row, update_health_status,
}
use nexus_agent_protocol.Repository.Laws.{IsRead-get_by_id}
use nexus_agent_protocol.Service.{Service, append_ledger, dispatch_webhook}
use nexus_agent_protocol.Service.Register.{register}
use nexus_agent_protocol.Service.Lifecycle.{
  update_agent, revoke, suspend, restore, deprecate, delete_agent, set_health,
}
use nexus_agent_protocol.Service.Activate.{set_active, with_cert, without_cert, activate}
use nexus_agent_protocol.Service.Operations.{
  Op, registering, updating, activating, revoking, suspending, restoring, deprecating, deleting,
  probing, resolving, perform, run,
}
use nexus_agent_protocol.Service.Atomic.{
  IsRead-generate_agent_id, IsRead-hosted_agent, IsRead-domain_agent, IsRead-gates,
  IsRead-sunset_of, resolve-IsRead,
}

-- The relation holds for each write of an operation that may happen.
pub record IsKept (s : Service) (May : Op → Type 0) (R : World → World → Type 0) : Type 0 where
  pub history : IsHistory R
  pub creates : (a : Agent) → Keeps R (create s.env a)
  pub updates : (a : Agent) → Keeps R (update s.env a)
  pub activates : (id : ℕ) → May (activating id) → Keeps R (update_status s.env id active)
  pub certifies :
      (id : ℕ) (serial pem : Bytes)
      → May (activating id)
      → Keeps R (activate_row s.env id serial pem)
  pub revokes : (id : ℕ) → Keeps R (update_status s.env id revoked)
  pub revokes_for :
      (id : ℕ) (why : Bytes) → Keeps R (update_status_with_reason s.env id revoked why)
  pub suspends : (id : ℕ) → Keeps R (suspend_row s.env id)
  pub restores : (id : ℕ) → Keeps R (restore_row s.env id)
  pub deprecates : (id : ℕ) (d : Option ℕ) (b : Bytes) → Keeps R (deprecate_row s.env id d b)
  pub deletes : (id : ℕ) → May (deleting id) → Keeps R (delete s.env id)
  pub probes : (id : ℕ) (h : Bytes) (t : ℕ) → Keeps R (update_health_status s.env id h t)
  pub appends : (u a o : Bytes) (p : List (Bytes × Bytes)) → Keeps R (append_ledger s u a o p)
  pub dispatches : (t : Bytes) (p : List (Bytes × Bytes)) → Keeps R (dispatch_webhook s t p)

module _ (s : Service) {May : Op → Type 0} {R : World → World → Type 0} (k : IsKept s May R) where
  register-Keeps : (r : RegisterRequest) → Keeps R (register s r)
  unfolding register
  register-Keeps r =
      let h = k.history in
      Keeps-bind h (Keeps-of_IsRead h (IsRead-generate_agent_id s)) λ id.
        Keeps-bind h
          (Keeps-of_IsRead h
            (IsRead-if _ (IsRead-hosted_agent s _ _ _) (IsRead-domain_agent s _ _ _)))
          λ a. Keeps-bind h (k.creates _) λ row.
            Keeps-bind h (k.appends _ _ _ _)
              λ _. Keeps-bind h (k.dispatches _ _) λ _. Keeps-pure h row

  update_agent-Keeps : (id : ℕ) (r : UpdateRequest) → Keeps R (update_agent s id r)
  unfolding update_agent
  update_agent-Keeps id r =
      let h = k.history in
      Keeps-bind h (Keeps-of_IsRead h (IsRead-get_by_id _ _))
        λ a. Keeps-bind h (k.updates _) λ _. Keeps-bind h (k.appends _ _ _ _) λ _. Keeps-pure h _

  set_active-Keeps : (id : ℕ) (a : Agent) → May (activating id) → Keeps R (set_active s id a)
  unfolding set_active with_cert without_cert
  set_active-Keeps id a may =
      let h = k.history in
      Keeps-option h s.issuer (Keeps-bind h (k.activates id may) λ _. Keeps-pure h _) λ issuer.
        Keeps-option h _ (Keeps-fail h _)
          λ c. Keeps-bind h (k.certifies id _ _ may) λ _. Keeps-pure h _

  activate-Keeps : (id : ℕ) → May (activating id) → Keeps R (activate s id)
  unfolding activate
  activate-Keeps id may =
      let h = k.history in
      Keeps-bind h (Keeps-of_IsRead h (IsRead-get_by_id _ _)) λ a.
        Keeps-bind h (Keeps-of_IsRead h (IsRead-gates s a)) λ _.
          Keeps-bind h (set_active-Keeps id a may) λ r.
            Keeps-bind h (k.appends _ _ _ _)
              λ _. Keeps-bind h (k.dispatches _ _) λ _. Keeps-pure h _

  revoke-Keeps : (id : ℕ) (why : Bytes) → Keeps R (revoke s id why)
  unfolding revoke
  revoke-Keeps id why =
      let h = k.history in
      Keeps-bind h (Keeps-of_IsRead h (IsRead-get_by_id _ _)) λ a.
        Keeps-bind h (Keeps-if h _ (k.revokes_for id why) (k.revokes id))
          λ _. Keeps-bind h (k.appends _ _ _ _) λ _. k.dispatches _ _

  suspend-Keeps : (id : ℕ) → Keeps R (suspend s id)
  unfolding suspend
  suspend-Keeps id =
      let h = k.history in
      Keeps-bind h (Keeps-of_IsRead h (IsRead-get_by_id _ _)) λ a.
        Keeps-if h _ (Keeps-fail h _)
          (Keeps-bind h (k.suspends id) λ _. Keeps-bind h (k.appends _ _ _ _) λ _. k.dispatches _ _)

  restore-Keeps : (id : ℕ) → Keeps R (restore s id)
  unfolding restore
  restore-Keeps id =
      let h = k.history in
      Keeps-bind h (Keeps-of_IsRead h (IsRead-get_by_id _ _))
        λ a. Keeps-if h _ (Keeps-fail h _) (Keeps-bind h (k.restores id) λ _. k.appends _ _ _ _)

  deprecate-Keeps : (id : ℕ) (r : Option DeprecateRequest) → Keeps R (deprecate s id r)
  unfolding deprecate
  deprecate-Keeps id r =
      let h = k.history in
      Keeps-bind h (Keeps-of_IsRead h (IsRead-get_by_id _ _)) λ a. Keeps-if h _ (Keeps-fail h _) (
        Keeps-bind h (Keeps-of_IsRead h (IsRead-sunset_of s _)) λ d.
          Keeps-bind h (k.deprecates id d _)
            λ _. Keeps-bind h (k.appends _ _ _ _) λ _. k.dispatches _ _)

  pub perform-Keeps : (op : Op) → May op → Keeps R (perform s op)
  unfolding perform delete_agent set_health
  perform-Keeps (registering r) may =
      Keeps-bind k.history (register-Keeps r) λ _. Keeps-pure k.history tt
  perform-Keeps (updating id r) may =
      Keeps-bind k.history (update_agent-Keeps id r) λ _. Keeps-pure k.history tt
  perform-Keeps (activating id) may =
      Keeps-bind k.history (activate-Keeps id may) λ _. Keeps-pure k.history tt
  perform-Keeps (revoking id why) may = revoke-Keeps id why
  perform-Keeps (suspending id) may = suspend-Keeps id
  perform-Keeps (restoring id) may = restore-Keeps id
  perform-Keeps (deprecating id r) may = deprecate-Keeps id r
  perform-Keeps (deleting id) may = k.deletes id may
  perform-Keeps (probing id h t) may = k.probes id h t
  perform-Keeps (resolving r c a) may =
      Keeps-bind k.history (Keeps-of_IsRead k.history (resolve-IsRead s r c a))
        λ _. Keeps-pure k.history tt

-- May every request of the sequence happen?
abbrev pub AllMay : (Op → Type 0) → List Op → Type 0
AllMay May [] = Unit
AllMay May (op ∷ ops) = May op × AllMay May ops

pub run-Keeps :
    (s : Service) {May : Op → Type 0} {R : World → World → Type 0} (k : IsKept s May R)
    (ops : List Op) (w : World)
    → AllMay May ops
    → R w (run s ops w)
unfolding run
run-Keeps s k [] w may = k.history.same (SameData-refl w)
run-Keeps s k (op ∷ ops) w may =
    k.history.trans ((perform-Keeps s k op may.0).holds w)
      (run-Keeps s k ops (perform s op w).1 may.1)
