-- ===== src/Service/Tests.antt =====
-- The service with toy collaborators, run at concrete requests, and its theorems there.
use nexus_agent_protocol.Service.Acceptance.{register_accepts}
use nexus_agent_protocol.Prelude.{is_empty, is_ok, ◌⊎◌}
use nexus_agent_protocol.World.{duplicate}
use nexus_agent_protocol.Model.Capability.{
  validate_capability_node, check_segments, check_segment, all_slug, is_slug_rune,
}
use nexus_agent_protocol.Service.Normalize.{
  normalize_capability, skill_of_capability, derive_primary_skill, derive_skill_ids,
  derive_tool_names, last_level, declared_ids, slugify_skill_id,
}
use nexus_agent_protocol.Service.Register.{
  register, generate_agent_id, time_bytes, hosted_agent, domain_agent, draft, with_skills,
  capability_of, actor_of, add_skills, add_tools,
}
use nexus_agent_protocol.Service.Registration.{IsRegistered, register-IsRegistered}
use nexus_agent_protocol.Service.Resolution.{IsResolved, resolve-IsResolved}
use nexus_agent_protocol.Service.Lifecycle.{resolve, settle, resolve_local}
use nexus_agent_protocol.Repository.{
  create, taken, stamped, inserted, owner_missing, get_by_agent_id,
}
use nexus_agent_protocol.Repository.Like.{any_suffix, like_from, like}
use nexus_agent_protocol.Prelude.{
  to_lower, lower, trim_space, trim_left, trim_right, trim, is_blank, split, onto, replace_all,
  has_prefix, index, last_index, contains,
}
use nexus_agent_protocol.Prelude.{
  ℕ, ◌≡◌, ◌≢◌, refl, true, false, none, some, List, [], ◌∷◌, ◌++◌, arith, codes, text_eq, ok, err,
}
use nexus_agent_protocol.Model.Agent.{
  RegisterRequest, pending, Agent, AgentStatus, active, revoked, domain, uri,
}
use nexus_agent_protocol.Ledger.{Entry, new, invalid_hash}
use nexus_agent_protocol.World.{not_active}
use nexus_agent_protocol.World.Effects.{SameData}
use nexus_agent_protocol.Repository.{query, one, get_by_id, exec_update, suspend_row}
use nexus_agent_protocol.Repository.Table.{find}
use nexus_agent_protocol.Service.{append_ledger, dispatch_webhook}
use nexus_agent_protocol.Service.Lifecycle.{suspend}
use nexus_agent_protocol.Service.Operations.{
  Op, activating, revoking, suspending, restoring, probing, deleting, perform, run,
}
use nexus_agent_protocol.Service.Histories.{AllMay}
use nexus_agent_protocol.Service.Atomic.{perform_atomic}
use nexus_agent_protocol.Service.Permanence.{
  SameIdentity, NotDeleting, NotReviving, uri_permanent, revoked_stays,
}
use nexus_agent_protocol.Service.Transitions.{Follows, next, to_deprecated, request, status-Follows}
use nexus_agent_protocol.Service.Activation.{activate-Follows}
use nexus_agent_protocol.Service.Verdict.{verdict}
use nexus_agent_protocol.Ledger.Postgres.{pg_verify}
use nexus_agent_protocol.Ledger.Stored.{IsLedger}
use nexus_agent_protocol.Service.Audit.{ledger_extended}
use nexus_agent_protocol.Service.Toys.{toy_service, row, store}

stored : (st : AgentStatus) → find 7 (store st).agents ≡ some (row 7 st)
unfolding find
stored st = refl

suspended_row : (suspend toy_service 7 (store active)).0 ≡ ok tt
unfolding suspend suspend_row get_by_id query one find exec_update append_ledger dispatch_webhook
suspended_row = refl

refused : (perform toy_service (suspending 7) (store revoked)).0 ≡ err (not_active revoked)
unfolding perform suspend get_by_id query one find
refused = refl

perform_atomic_example :
    SameData (store revoked) (perform toy_service (suspending 7) (store revoked)).1
perform_atomic_example =
    perform_atomic toy_service (suspending 7) (store revoked) (not_active revoked) refused

abbrev other : ℕ
other = 8

other_id : other ≢ 7
other_id e = omega (arith, e)

abbrev requests : List Op
requests =
    suspending 7
    ∷ restoring 7
    ∷ deleting 8
    ∷ revoking 7 (codes "key")
    ∷ probing 7 (codes "ok") 9
    ∷ []

requests_may : AllMay (NotDeleting 7) requests
requests_may = (tt, (tt, (other_id, (tt, (tt, tt)))))

uri_permanent_example :
    (b : Agent) × (find 7 (run toy_service requests (store active)).agents ≡ some b)
    × SameIdentity (row 7 active) b
    × (uri b ≡ uri (row 7 active))
uri_permanent_example =
    uri_permanent toy_service 7 requests (store active) (row 7 active) requests_may (stored active)

abbrev revivals : List Op
revivals = restoring 7 ∷ activating 8 ∷ suspending 7 ∷ deleting 8 ∷ []

revivals_may : AllMay (NotReviving 7) revivals
revivals_may = (tt, (other_id, (tt, (other_id, tt))))

revoked_stays_example :
    (b : Agent) × (find 7 (run toy_service revivals (store revoked)).agents ≡ some b)
    × (b.status ≡ revoked)
revoked_stays_example =
    revoked_stays toy_service 7 revivals (store revoked) (row 7 revoked) revivals_may
      (stored revoked) refl

status-Follows_example :
    Follows 7 8
      (store active)
      (perform toy_service (request 7 (to_deprecated none)) (store active))
      (next toy_service (to_deprecated none) active)
status-Follows_example =
    status-Follows toy_service (store active) 7 8 (row 7 active) (to_deprecated none) (λ n. refl)
      (stored active) other_id

activate-Follows_example :
    Follows 7 8
      (store revoked)
      (perform toy_service (activating 7) (store revoked))
      (verdict toy_service (row 7 revoked))
activate-Follows_example =
    activate-Follows toy_service (store revoked) 7 8 (row 7 revoked) (λ n. refl) (stored revoked)
      other_id

intact : IsLedger toy_service.hashing toy_service.ledger_column (store active).ledger
unfolding new
intact = (refl, (refl, tt), tt)

ledger_extended_example :
    (more : List Entry) × ((run toy_service requests (store active)).ledger
      ≡ (store active).ledger ++ more)
    × IsLedger toy_service.hashing toy_service.ledger_column
        (run toy_service requests (store active)).ledger
    × ((pg_verify toy_service.hashing (run toy_service requests (store active)).ledger ≡ ok tt)
        ⊎ ((i : ℕ) × (pg_verify toy_service.hashing (run toy_service requests (store active)).ledger
              ≡ err (invalid_hash i))))
ledger_extended_example = ledger_extended toy_service requests (store active) intact

abbrev registration : RegisterRequest
registration = record {
  capability = codes "Finance>Billing";
  category = [];
  capability_node = [];
  display_name = codes "A";
  description = [];
  endpoint = codes "https://a";
  owner_domain = codes "Acme.com";
  public_key_pem = [];
  metadata = none;
  owner_user_id = none;
  username = [];
  registration_type = domain;
  skills = [];
  mcp_tools = [];
}

abbrev new_row : Agent
new_row = record (row 101 pending) {
  agent_id = codes "agent_aaaa";
  owner_domain = codes "Acme.com";
  created_at = 1;
  updated_at = 1;
  health_status = [];
  skill_ids = codes "billing" ∷ [];
}

registered : (register toy_service registration (store active)).0 ≡ ok new_row
unfolding register generate_agent_id time_bytes hosted_agent domain_agent draft with_skills
    capability_of actor_of add_skills add_tools create taken stamped inserted owner_missing
    append_ledger dispatch_webhook validate_capability_node check_segments check_segment all_slug
    is_slug_rune normalize_capability skill_of_capability derive_primary_skill derive_skill_ids
    derive_tool_names last_level declared_ids slugify_skill_id to_lower lower trim_space trim_left
    trim_right trim is_blank split onto replace_all has_prefix index last_index contains text_eq
registered = refl

register-IsRegistered_example :
    IsRegistered toy_service registration new_row
      (register toy_service registration (store active)).1
register-IsRegistered_example =
    register-IsRegistered toy_service registration (store active) new_row registered

resolved :
    (resolve toy_service (codes "acme.com") (codes "finance") (codes "agent_1") (store active)).0
    ≡ ok (row 7 active)
unfolding resolve settle resolve_local get_by_agent_id query one like like_from any_suffix
    normalize_capability to_lower lower trim_space trim_left trim_right trim is_blank split onto
    replace_all has_prefix index contains text_eq
resolved = refl

resolve-IsResolved_example :
    IsResolved (codes "acme.com") (codes "finance") (codes "agent_1") (row 7 active)
resolve-IsResolved_example =
    resolve-IsResolved toy_service (codes "acme.com") (codes "finance") (codes "agent_1")
      (store active) (row 7 active) refl resolved

accepted_checks :
    (is_empty (to_lower (trim_space registration.owner_domain)) ≡ false)
    × (is_empty (capability_of registration) ≡ false)
    × (validate_capability_node (capability_of registration) ≡ ok tt)
unfolding capability_of validate_capability_node check_segments check_segment all_slug is_slug_rune
    normalize_capability to_lower lower trim_space trim_left trim_right trim is_blank split onto
    replace_all has_prefix index contains
accepted_checks = (refl, refl, refl)

known_owner : owner_missing toy_service.env 1 none ≡ false
unfolding owner_missing
known_owner = refl

register_accepts_example :
    ((register toy_service registration (store active)).0 ≡ err duplicate)
    ⊎ (is_ok (register toy_service registration (store active)).0 ≡ true)
register_accepts_example =
    register_accepts toy_service registration (store active) (codes "rr") (λ n. refl) refl
      known_owner refl accepted_checks.0 accepted_checks.1 refl accepted_checks.2
