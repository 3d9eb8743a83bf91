-- ===== src/Service/Permanence.antt =====
-- What no request can change about a stored agent: its URI, and that it was revoked.
use nexus_agent_protocol.Prelude.{ℕ, ◌≡◌, ◌≢◌, refl, ap, Option, some, List, arith, Bytes}
use nexus_agent_protocol.Model.Agent.{Agent, revoked, RegistrationType, uri}
use nexus_agent_protocol.World.{World}
use nexus_agent_protocol.Repository.{
  update, update_status, activate_row, update_status_with_reason, suspend_row, restore_row,
  deprecate_row, update_health_status,
}
use nexus_agent_protocol.Repository.Table.{find}
use nexus_agent_protocol.Service.{Service}
use nexus_agent_protocol.Service.Operations.{Op, activating, deleting, run}
use nexus_agent_protocol.Service.Histories.{IsKept, AllMay, run-Keeps}
use nexus_agent_protocol.Service.Rows.{
  IsRowHistory, KeptIn, KeptIn-IsHistory, KeptIn-exec_update, KeptIn-create, KeptIn-delete,
  KeptIn-append_ledger, KeptIn-dispatch_webhook,
}

-- The columns that an agent keeps for good.
pub record Identity : Type 0 where
  pub trust_root : Bytes
  pub capability_node : Bytes
  pub agent_id : Bytes
  pub primary_skill : Bytes
  pub registration_type : RegistrationType
  pub owner_domain : Bytes
  pub owner_user_id : Option ℕ
  pub created_at : ℕ

abbrev pub identity : Agent → Identity
identity a = record {
  trust_root = a.trust_root;
  capability_node = a.capability_node;
  agent_id = a.agent_id;
  primary_skill = a.primary_skill;
  registration_type = a.registration_type;
  owner_domain = a.owner_domain;
  owner_user_id = a.owner_user_id;
  created_at = a.created_at;
}

abbrev pub SameIdentity : Agent → Agent → Type 0
SameIdentity a b = identity b ≡ identity a

SameIdentity-IsRowHistory : IsRowHistory SameIdentity
SameIdentity-IsRowHistory = record { refl_row = λ a. refl; trans_row = λ h k. cc (h, k) }

uri-identity : (a b : Agent) → SameIdentity a b → uri b ≡ uri a
unfolding uri
uri-identity a b h =
    let t = ap (λ i. i.trust_root) h in
    let c = ap (λ i. i.capability_node) h in
    let n = ap (λ i. i.agent_id) h in let k = ap (λ i. i.primary_skill) h in cc (t, c, n, k)

-- A revoked row stays revoked.
abbrev StaysRevoked : Agent → Agent → Type 0
StaysRevoked a b = a.status ≡ revoked → b.status ≡ revoked

StaysRevoked-IsRowHistory : IsRowHistory StaysRevoked
StaysRevoked-IsRowHistory = record { refl_row = λ a h. h; trans_row = λ h k q. k (h q) }

-- Any request but the deletion of the agent.
abbrev pub NotDeleting : ℕ → Op → Type 0
NotDeleting id (deleting i) = i ≢ id
NotDeleting id op = Unit

-- Any request but the deletion or an activation of the agent.
abbrev pub NotReviving : ℕ → Op → Type 0
NotReviving id (deleting i) = i ≢ id
NotReviving id (activating i) = i ≢ id
NotReviving id op = Unit

module _ (s : Service) (id : ℕ) where
  identity-IsKept : IsKept s (NotDeleting id) (KeptIn SameIdentity id)
  unfolding update update_status activate_row update_status_with_reason suspend_row restore_row
      deprecate_row update_health_status
  identity-IsKept =
      let h = SameIdentity-IsRowHistory in
      record {
        history = KeptIn-IsHistory h id;
        creates = KeptIn-create h id s.env;
        updates = λ a. KeptIn-exec_update h id s.env _ _ (λ _ _. refl) (λ _ _ _ _. refl);
        activates = λ i may. KeptIn-exec_update h id s.env _ _ (λ _ _. refl) (λ _ _ _ _. refl);
        certifies = λ i c b may. KeptIn-exec_update h id s.env _ _ (λ _ _. refl) (λ _ _ _ _. refl);
        revokes = λ i. KeptIn-exec_update h id s.env _ _ (λ _ _. refl) (λ _ _ _ _. refl);
        revokes_for = λ i c. KeptIn-exec_update h id s.env _ _ (λ _ _. refl) (λ _ _ _ _. refl);
        suspends = λ i. KeptIn-exec_update h id s.env _ _ (λ _ _. refl) (λ _ _ _ _. refl);
        restores = λ i. KeptIn-exec_update h id s.env _ _ (λ _ _. refl) (λ _ _ _ _. refl);
        deprecates = λ i d b. KeptIn-exec_update h id s.env _ _ (λ _ _. refl) (λ _ _ _ _. refl);
        deletes = λ i ne. KeptIn-delete h id s.env i ne;
        probes = λ i c t. KeptIn-exec_update h id s.env _ _ (λ _ _. refl) (λ _ _ _ _. refl);
        appends = KeptIn-append_ledger h id s;
        dispatches = KeptIn-dispatch_webhook h id s;
      }

-- A stored agent keeps its URI through any sequence of requests that does not delete it: the row is
-- still there, with the same trust root, capability, identifier, owner and kind of registration.
pub uri_permanent :
    (s : Service) (id : ℕ) (ops : List Op) (w : World) (a : Agent)
    → AllMay (NotDeleting id) ops
    → find id w.agents ≡ some a
    → (b : Agent) × (find id (run s ops w).agents ≡ some b) × SameIdentity a b × (uri b ≡ uri a)
uri_permanent s id ops w a may h =
    let (b, f, q) = run-Keeps s (identity-IsKept s id) ops w may a h in
    (b, f, q, uri-identity a b q)

module _ (s : Service) (id : ℕ) where
  revoked-IsKept : IsKept s (NotReviving id) (KeptIn StaysRevoked id)
  unfolding update update_status activate_row update_status_with_reason suspend_row restore_row
      deprecate_row update_health_status
  revoked-IsKept =
      let h = StaysRevoked-IsRowHistory in
      record {
        history = KeptIn-IsHistory h id;
        creates = KeptIn-create h id s.env;
        updates = λ a. KeptIn-exec_update h id s.env _ _ (λ _ _. refl) (λ _ _ _ _ q. q);
        activates =
            λ i may. KeptIn-exec_update h id s.env _ _ (λ _ _. refl) (λ now a e t q. ground arith);
        certifies = λ i c b may.
            KeptIn-exec_update h id s.env _ _ (λ _ _. refl) (λ now a e t q. ground arith);
        revokes = λ i. KeptIn-exec_update h id s.env _ _ (λ _ _. refl) (λ _ _ _ _ _. refl);
        revokes_for = λ i c. KeptIn-exec_update h id s.env _ _ (λ _ _. refl) (λ _ _ _ _ _. refl);
        suspends =
            λ i. KeptIn-exec_update h id s.env _ _ (λ _ _. refl) (λ now a e t q. ground arith);
        restores =
            λ i. KeptIn-exec_update h id s.env _ _ (λ _ _. refl) (λ now a e t q. ground arith);
        deprecates =
            λ i d b. KeptIn-exec_update h id s.env _ _ (λ _ _. refl) (λ now a e t q. ground arith);
        deletes = λ i ne. KeptIn-delete h id s.env i ne;
        probes = λ i c t. KeptIn-exec_update h id s.env _ _ (λ _ _. refl) (λ _ _ _ _ q. q);
        appends = KeptIn-append_ledger h id s;
        dispatches = KeptIn-dispatch_webhook h id s;
      }

-- A revoked agent stays revoked through any sequence of requests in which it is neither deleted nor
-- activated: no restore, suspension, deprecation, update, health probe or registration revives it.
pub revoked_stays :
    (s : Service) (id : ℕ) (ops : List Op) (w : World) (a : Agent)
    → AllMay (NotReviving id) ops
    → find id w.agents ≡ some a
    → a.status ≡ revoked
    → (b : Agent) × (find id (run s ops w).agents ≡ some b) × (b.status ≡ revoked)
revoked_stays s id ops w a may h r =
    let (b, f, q) = run-Keeps s (revoked-IsKept s id) ops w may a h in (b, f, q r)
