-- ===== src/Service/Transitions.antt =====
-- The status changes of a stored agent against the lifecycle's table of transitions.
use nexus_agent_protocol.Prelude.{
  ℕ, suc, ◌≡◌, ◌≢◌, refl, ◌∙◌, ap, inl, inr, Bool, true, false, ◌&&◌, not, Bool-cases, Option, none,
  some, Option-cases, ◌⊎◌, List, [], ◌∷◌, arith, Bytes, ◌==◌, is_empty, is_some, if◌then◌else◌,
  Result, ok, err,
}
use nexus_agent_protocol.Model.Agent.{
  Agent, AgentStatus, DeprecateRequest, active, suspended, deprecated, revoked, is_active,
  is_suspended,
}
use nexus_agent_protocol.World.{
  Error, not_active, not_suspended, bad_sunset_date, World, M, ◌>>◌, tick,
}
use nexus_agent_protocol.Repository.{
  exec_update, update_status, update_status_with_reason, suspend_row, restore_row, deprecate_row,
}
use nexus_agent_protocol.Repository.Table.{find, update_where, changed, find-update_where, find-id}
use nexus_agent_protocol.Service.{Service}
use nexus_agent_protocol.Service.Operations.{
  Op, revoking, suspending, restoring, deprecating, perform,
}
use nexus_agent_protocol.Service.Lifecycle.{revoke, suspend, restore, deprecate, sunset_of, date_of}
use nexus_agent_protocol.Service.Healthy.{
  Healthy, get_by_id-found, exec_update-found, announce_ok, append_ok, append_agents,
  announce_agents,
}

-- The status changes that the lifecycle knows, as requests.
pub data Change : Type 0 where
  to_revoked : Bytes → Change
  to_suspended to_active : Change
  to_deprecated : Option DeprecateRequest → Change

abbrev pub request : ℕ → Change → Op
request id (to_revoked why) = revoking id why
request id to_suspended = suspending id
request id to_active = restoring id
request id (to_deprecated req) = deprecating id req

-- Does the request have a sunset date that cannot be read?
abbrev bad_date : Service → Option DeprecateRequest → Bool
bad_date s none = false
bad_date s (some req) =
    not (is_empty req.sunset_date) && not (is_some (s.parse_date req.sunset_date))

-- The lifecycle's table: the status that a change leads to, or the error.
abbrev pub next : Service → Change → AgentStatus → Result Error AgentStatus
next s (to_revoked why) st = ok revoked
next s to_suspended st = if is_active st then ok suspended else err (not_active st)
next s to_active st = if is_suspended st then ok active else err (not_suspended st)
next s (to_deprecated req) st =
    if not (is_active st)
    then err (not_active st)
    else if bad_date s req
    then err bad_sunset_date
    else ok deprecated

-- The outcome of a status change of the row with the id, and what it does to another row.
abbrev pub Follows :
    ℕ → ℕ → World → Result Error (Unit {0}) × World → Result Error AgentStatus → Type 0
Follows id j w out (err e) = (out.0 ≡ err e) × (out.1.agents ≡ w.agents)
Follows id j w out (ok st) =
    (out.0 ≡ ok tt)
    × ((b : Agent) × (find id out.1.agents ≡ some b) × (b.status ≡ st))
    × (find j out.1.agents ≡ find j w.agents)

changed-other :
    (p : Agent → Bool) (f : Agent → Agent) (id j : ℕ) (rows : List Agent)
    → ((b : Agent) → (f b).id ≡ b.id)
    → ((b : Agent) → p b ≡ true → b.id ≡ id)
    → j ≢ id
    → find j (update_where p f rows) ≡ find j rows
unfolding find update_where
changed-other p f id j [] ids only ne = refl
changed-other p f id j (b ∷ rows) ids only ne =
    ground (arith, ids b, only b, changed-other p f id j rows ids only ne)

module _ (s : Service) (healthy : Healthy s.env) (id j : ℕ) (w : World) (a : Agent)
    (found : find id w.agents ≡ some a) (ne : j ≢ id) where
  -- an outcome whose rows are those of an update of the row
  pub rows_follow :
      (p : Agent → Bool) (g : Agent → Agent) (st : AgentStatus)
      (out : Result Error (Unit {0}) × World)
      → p a ≡ true
      → ((b : Agent) → (g b).id ≡ b.id)
      → (g a).status ≡ st
      → ((b : Agent) → p b ≡ true → b.id ≡ id)
      → out.0 ≡ ok tt
      → out.1.agents ≡ update_where p g w.agents
      → Follows id j w out (ok st)
  rows_follow p g st out t ids sets only total same = (
    total,
    (g a, cc (same, find-update_where p g id w.agents ids, ap (changed p g) found, t), sets),
    ap (find j) same ∙ changed-other p g id j w.agents ids only ne,
  )

  -- a write of the row, and what cannot fail behind it
  pub write-Follows :
      (p : Agent → Bool) (f : ℕ → Agent → Agent) (st : AgentStatus) (n : M (Unit {0}))
      → p a ≡ true
      → ((now : ℕ) (b : Agent) → (f now b).id ≡ b.id)
      → ((now : ℕ) (b : Agent) → (f now b).status ≡ st)
      → ((b : Agent) → p b ≡ true → b.id ≡ id)
      → ((v : World) → (n v).0 ≡ ok tt)
      → ((v : World) → (n v).1.agents ≡ v.agents)
      → Follows id j w ((exec_update s.env p f >> n) (tick w)) (ok st)
  write-Follows p f st n t ids sets only total same =
      let g = f (s.env.now (tick w).calls) in
      let v = record w { agents = update_where p g w.agents; calls = suc (tick w).calls } in
      rw (exec_update-found s.env healthy p f id (tick w) a found t)
        (rows_follow p g st (n v) t (ids _) (sets _ a) only (total v) (same v))

  pub has_id-only : (b : Agent) → (b.id == id) ≡ true → b.id ≡ id
  has_id-only b h = ground arith

  is_active-only : (b : Agent) → ((b.id == id) && is_active b.status) ≡ true → b.id ≡ id
  is_active-only b h = ground arith

  is_suspended-only : (b : Agent) → ((b.id == id) && is_suspended b.status) ≡ true → b.id ≡ id
  is_suspended-only b h = ground arith

  pub found_itself : (a.id == id) ≡ true
  found_itself = ground (arith, find-id id w.agents found)

  suspend-Follows : Follows id j w (suspend s id w) (next s (to_suspended) a.status)
  unfolding suspend suspend_row
  suspend-Follows =
      rw (get_by_id-found s.env healthy id w a found) elim (Bool-cases (is_active a.status)) [
        | inl t ↦ rw t (
            write-Follows _ _ suspended _ (ground (arith, found_itself)) (λ _ _. refl) (λ _ _. refl)
              is_active-only (announce_ok s _ _ _ _ _ _) (announce_agents s _ _ _ _ _ _))
        | inr n ↦ rw n (refl, refl)
      ]

  restore-Follows : Follows id j w (restore s id w) (next s (to_active) a.status)
  unfolding restore restore_row
  restore-Follows =
      rw (get_by_id-found s.env healthy id w a found) elim (Bool-cases (is_suspended a.status)) [
        | inl t ↦ rw t (
            write-Follows _ _ active _ (ground (arith, found_itself)) (λ _ _. refl) (λ _ _. refl)
              is_suspended-only (append_ok s _ _ _ _) (append_agents s _ _ _ _))
        | inr n ↦ rw n (refl, refl)
      ]

  revoke-Follows :
      (why : Bytes) → Follows id j w (revoke s id why w) (next s (to_revoked why) a.status)
  unfolding revoke update_status update_status_with_reason
  revoke-Follows why =
      rw (get_by_id-found s.env healthy id w a found) elim (Bool-cases (is_empty why)) [
        | inl t ↦ rw t (
            write-Follows _ _ revoked _ found_itself (λ _ _. refl) (λ _ _. refl) has_id-only
              (announce_ok s _ _ _ _ _ _) (announce_agents s _ _ _ _ _ _))
        | inr n ↦ rw n (
            write-Follows _ _ revoked _ found_itself (λ _ _. refl) (λ _ _. refl) has_id-only
              (announce_ok s _ _ _ _ _ _) (announce_agents s _ _ _ _ _ _))
      ]

  -- the date that a deprecation has, in the three forms of the request
  sunset_outcome :
      (req : Option DeprecateRequest)
      → ((bad_date s req ≡ true)
          × (sunset_of s (date_of s req) (tick w) ≡ (err bad_sunset_date, tick w)))
        ⊎ ((bad_date s req ≡ false)
            × (d : Option ℕ) × (sunset_of s (date_of s req) (tick w) ≡ (ok d, tick w)))
  unfolding sunset_of
  sunset_outcome none = inr (refl, none, refl)
  sunset_outcome (some req) = elim (Bool-cases (is_empty req.sunset_date)) [
    | inl t ↦ inr (rw t refl, none, rw t refl)
    | inr n ↦ elim (Option-cases (s.parse_date req.sunset_date)) [
      | inl q ↦ inl (rw (n, q) refl, rw (n, q) refl)
      | inr (d, q) ↦ inr (rw (n, q) refl, some d, rw (n, q) refl)
    ]
  ]

  deprecate-Follows :
      (req : Option DeprecateRequest)
      → Follows id j w (deprecate s id req w) (next s (to_deprecated req) a.status)
  unfolding deprecate deprecate_row
  deprecate-Follows req =
      rw (get_by_id-found s.env healthy id w a found) elim (Bool-cases (is_active a.status)) [
        | inr n ↦ rw n (refl, refl)
        | inl t ↦ elim (sunset_outcome req) [
          | inl (bad, q) ↦ rw (t, bad, q) (refl, refl)
          | inr (good, d, q) ↦
              rw (t, good, q)
                (write-Follows _ _ deprecated _ (ground (arith, found_itself)) (λ _ _. refl)
                  (λ _ _. refl) is_active-only (announce_ok s _ _ _ _ _ _)
                  (announce_agents s _ _ _ _ _ _))
        ]
      ]

-- With a database that answers, a revocation, suspension, restoration or deprecation of a stored
-- agent follows the lifecycle's table in every status: where the table has a status, the request
-- succeeds, the row has it afterwards and each other row is untouched; where it has an error, the
-- request returns it and no row has changed.
pub status-Follows :
    (s : Service) (w : World) (id j : ℕ) (a : Agent) (c : Change)
    → Healthy s.env
    → find id w.agents ≡ some a
    → j ≢ id
    → Follows id j w (perform s (request id c) w) (next s c a.status)
unfolding perform
status-Follows s w id j a (to_revoked why) healthy found ne =
    revoke-Follows s healthy id j w a found ne why
status-Follows s w id j a to_suspended healthy found ne =
    suspend-Follows s healthy id j w a found ne
status-Follows s w id j a to_active healthy found ne = restore-Follows s healthy id j w a found ne
status-Follows s w id j a (to_deprecated req) healthy found ne =
    deprecate-Follows s healthy id j w a found ne req
