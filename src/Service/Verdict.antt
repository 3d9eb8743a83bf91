-- ===== src/Service/Verdict.antt =====
-- Whether an agent may be activated: what its verifiers and its issuer answer, as a value.
use nexus_agent_protocol.Prelude.{
  ℕ, ◌≡◌, refl, inl, inr, Bool, true, false, Bool-cases, Option, none, some, Option-cases, Bytes,
  if◌then◌else◌, Result, ok, err,
}
use nexus_agent_protocol.Model.Agent.{Agent, AgentStatus, active, is_nap_hosted, uri}
use nexus_agent_protocol.World.{
  Error, check_email, email_not_verified, check_domain, domain_not_verified, issue_cert, World,
}
use nexus_agent_protocol.Service.{Service, Issuer}
use nexus_agent_protocol.Service.Activate.{gate, email_gate, domain_gate, gates, owner_of}

-- What a verifier's answer means: no answer and a refusal are two errors.
abbrev answer : Option Bool → Error → Error → Result Error (Unit {0})
answer none failed refused = err failed
answer (some true) failed refused = ok tt
answer (some false) failed refused = err refused

-- Without a verifier, or without an owner, nothing is asked.
abbrev email_verified : Service → Option ℕ → Result Error (Unit {0})
email_verified s owner = elim s.email_checker as (λ _. Result Error (Unit {0})) [
  | none ↦ ok tt
  | some check ↦ elim owner as (λ _. Result Error (Unit {0})) [
    | none ↦ ok tt
    | some user ↦ answer (check user) check_email email_not_verified
  ]
]

abbrev domain_verified : Service → Bytes → Result Error (Unit {0})
domain_verified s d = elim s.dns_verifier as (λ _. Result Error (Unit {0})) [
  | none ↦ ok tt
  | some check ↦ answer (check d) check_domain domain_not_verified
]

-- The e-mail of the owner of a hosted agent, the domain of another agent.
unfoldable pub verified : Service → Agent → Result Error (Unit {0})
verified s a =
    if is_nap_hosted a.registration_type
    then email_verified s a.owner_user_id
    else domain_verified s a.owner_domain

unfoldable pub issued : Issuer → Bytes × Bytes → Agent → Result Error AgentStatus
issued issuer owner a =
    elim (issuer.issue (uri a) owner.0 owner.1) as (λ _. Result Error AgentStatus) [
      | none ↦ err issue_cert
      | some c ↦ ok active
    ]

-- With an issuer, a certificate has to be issued.
unfoldable pub certified : Service → Agent → Result Error AgentStatus
certified s a = elim s.issuer as (λ _. Result Error AgentStatus) [
  | none ↦ ok active
  | some issuer ↦ issued issuer (owner_of s a) a
]

abbrev pub verdict : Service → Agent → Result Error AgentStatus
verdict s a = elim (verified s a) as (λ _. Result Error AgentStatus) [
  | err e ↦ err e
  | ok _ ↦ certified s a
]

module _ (s : Service) where
  gate-answer : (o : Option Bool) (x y : Error) (w : World) → gate o x y w ≡ (answer o x y, w)
  unfolding gate
  gate-answer none x y w = refl
  gate-answer (some true) x y w = refl
  gate-answer (some false) x y w = refl

  email-verified :
      (owner : Option ℕ) (w : World) → email_gate s owner w ≡ (email_verified s owner, w)
  unfolding email_gate
  email-verified owner w = elim (Option-cases s.email_checker) [
    | inl q ↦ rw q refl
    | inr (check, q) ↦ elim (Option-cases owner) [
      | inl o ↦ rw (q, o) refl
      | inr (user, o) ↦ rw (q, o) (gate-answer (check user) _ _ w)
    ]
  ]

  domain-verified : (d : Bytes) (w : World) → domain_gate s d w ≡ (domain_verified s d, w)
  unfolding domain_gate
  domain-verified d w = elim (Option-cases s.dns_verifier) [
    | inl q ↦ rw q refl
    | inr (check, q) ↦ rw q (gate-answer (check d) _ _ w)
  ]

  pub gates-verified : (a : Agent) (w : World) → gates s a w ≡ (verified s a, w)
  unfolding gates verified
  gates-verified a w = elim (Bool-cases (is_nap_hosted a.registration_type)) [
    | inl t ↦ rw t (email-verified a.owner_user_id w)
    | inr n ↦ rw n (domain-verified a.owner_domain w)
  ]
