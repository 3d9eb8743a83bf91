-- ===== src/Service/Drafts.antt =====
-- The agent that a registration drafts before it is stored, in both kinds.
use nexus_agent_protocol.Prelude.{
  ℕ, ◌≡◌, refl, inl, inr, true, false, Bool-cases, Option, none, some, [], arith, Bytes, is_empty,
  to_lower, trim_space, if◌then◌else◌, Result, ok, err, Result-cases,
}
use mathlib.Core.Path.{subst}
use nexus_agent_protocol.Model.Agent.{
  Agent, RegisterRequest, domain, nap_hosted, pending, is_nap_hosted,
}
use nexus_agent_protocol.Model.Capability.{validate_capability_node}
use nexus_agent_protocol.World.{
  Error, owner_user_required, World, M, fail, pure, continue, ◌>>=◌, ◌>>◌,
}
use nexus_agent_protocol.Service.{Service}
use nexus_agent_protocol.Service.Register.{
  hosted_agent, hosted_by, domain_agent, check_capability, check_quota, draft, capability_of,
}

-- an action that succeeds is one whose parts do
pub record Succeeds {A B : Type 0} (f : A → M B) (r : Result Error A) (w : World) (b : B)
    : Type 0 where
  pub value : A
  pub first_lem : r ≡ ok value
  pub rest_lem : (f value w).0 ≡ ok b
  pub whole_lem : continue f r w ≡ f value w

pub succeeds :
    {A B : Type 0} (f : A → M B) (r : Result Error A) (w : World) (b : B)
    → (continue f r w).0 ≡ ok b
    → Succeeds f r w b
succeeds f (ok a) w b h = record { value = a; first_lem = refl; rest_lem = h; whole_lem = refl }
succeeds f (err e) w b h = absurd (ground arith)

pub bound :
    {A B : Type 0} (m : M A) (f : A → M B) (w : World) (b : B)
    → ((m >>= f) w).0 ≡ ok b
    → Succeeds f (m w).0 (m w).1 b
bound m f w b h = succeeds f (m w).0 (m w).1 b h

-- What the drafted agent satisfies.
pub record IsDraft (s : Service) (req : RegisterRequest) (a : Agent) : Type 0 where
  pub status_lem : a.status ≡ pending
  pub root_lem : a.trust_root ≡ (
      if is_nap_hosted req.registration_type
      then s.trust_root
      else to_lower (trim_space req.owner_domain))
  pub capability_lem : a.capability_node ≡ capability_of req
  pub valid_lem : validate_capability_node (capability_of req) ≡ ok tt

check_capability-valid :
    (cap : Bytes) (w : World)
    → (check_capability cap w).0 ≡ ok tt
    → validate_capability_node cap ≡ ok tt
check_capability-valid cap w h = elim (Result-cases (validate_capability_node cap)) [
  | inl (e, q) ↦ absurd (ground arith)
  | inr (x, q) ↦ q
]

pub ok_inj : {A : Type 0} (a b : A) → ◌≡◌ {A = Result Error A} (ok a) (ok b) → a ≡ b
ok_inj a b h = cc

module _ (s : Service) (req : RegisterRequest) where
  domain_draft :
      (id : Bytes)
      → is_nap_hosted req.registration_type ≡ false
      → validate_capability_node (capability_of req) ≡ ok tt
      → IsDraft s req (
          draft req
            (to_lower (trim_space req.owner_domain))
            (capability_of req)
            id
            req.owner_domain
            domain)
  unfolding draft
  domain_draft id t v = record {
    status_lem = refl;
    root_lem = rw t refl;
    capability_lem = refl;
    valid_lem = v;
  }

  hosted_draft :
      (id : Bytes)
      → is_nap_hosted req.registration_type ≡ true
      → validate_capability_node (capability_of req) ≡ ok tt
      → IsDraft s req (draft req s.trust_root (capability_of req) id [] nap_hosted)
  unfolding draft
  hosted_draft id t v = record {
    status_lem = refl;
    root_lem = rw t refl;
    capability_lem = refl;
    valid_lem = v;
  }

  -- the check of the capability, and an action that returns the draft behind it
  checked-IsDraft :
      (n : M Agent) (d : Agent) (w : World) (a : Agent)
      → (validate_capability_node (capability_of req) ≡ ok tt → IsDraft s req d)
      → ((v : World) → (n v).0 ≡ ok a → d ≡ a)
      → ((check_capability (capability_of req) >> n) w).0 ≡ ok a
      → IsDraft s req a
  checked-IsDraft n d w a k returns h =
      let x = bound (check_capability (capability_of req)) (λ _. n) w a h in
      subst (IsDraft s req) (returns _ x.rest_lem)
        (k (check_capability-valid (capability_of req) w x.first_lem))

  behind_quota :
      (user : ℕ) (d a : Agent) (v : World) → ((check_quota s user >> pure d) v).0 ≡ ok a → d ≡ a
  behind_quota user d a v h =
      let x = bound (check_quota s user) (λ _. pure d) v a h in ok_inj d a x.rest_lem

  domain_agent-IsDraft :
      (id : Bytes) (w : World) (a : Agent)
      → is_nap_hosted req.registration_type ≡ false
      → (domain_agent s req (capability_of req) id w).0 ≡ ok a
      → IsDraft s req a
  unfolding domain_agent
  domain_agent-IsDraft id w a t h =
      elim (Bool-cases (is_empty (to_lower (trim_space req.owner_domain)))) [
        | inl e ↦ absurd (ground arith)
        | inr e ↦ elim (Bool-cases (is_empty (capability_of req))) [
          | inl f ↦ absurd (ground arith)
          | inr f ↦ elim (Bool-cases (is_empty req.endpoint)) [
            | inl g ↦ absurd (ground arith)
            | inr g ↦
                checked-IsDraft (pure _) _ w a (domain_draft id t) (λ v q. ok_inj _ a q)
                  (rw (e, f, g) at h)
          ]
        ]
      ]

  hosted_by-IsDraft :
      (user : ℕ) (id : Bytes) (w : World) (a : Agent)
      → is_nap_hosted req.registration_type ≡ true
      → (hosted_by s user req (capability_of req) id w).0 ≡ ok a
      → IsDraft s req a
  unfolding hosted_by
  hosted_by-IsDraft user id w a t h = elim (Bool-cases (is_empty req.username)) [
    | inl e ↦ absurd (ground arith)
    | inr e ↦ elim (Bool-cases (is_empty (capability_of req))) [
      | inl f ↦ absurd (ground arith)
      | inr f ↦
          checked-IsDraft (check_quota s user >> pure _) _ w a (hosted_draft id t)
            (λ v q. behind_quota user _ a v q) (rw (e, f) at h)
    ]
  ]

  hosted_for :
      (o : Option ℕ) (id : Bytes) (w : World) (a : Agent)
      → is_nap_hosted req.registration_type ≡ true
      → ((elim o as (λ _. M Agent) [
        | none ↦ fail owner_user_required
        | some user ↦ hosted_by s user req (capability_of req) id
      ])
          w).0
        ≡ ok a
      → IsDraft s req a
  hosted_for none id w a t h = absurd (ground arith)
  hosted_for (some user) id w a t h = hosted_by-IsDraft user id w a t h

  hosted_agent-IsDraft :
      (id : Bytes) (w : World) (a : Agent)
      → is_nap_hosted req.registration_type ≡ true
      → (hosted_agent s req (capability_of req) id w).0 ≡ ok a
      → IsDraft s req a
  unfolding hosted_agent
  hosted_agent-IsDraft id w a t h = hosted_for req.owner_user_id id w a t h

  pub agent-IsDraft :
      (id : Bytes) (w : World) (a : Agent)
      → ((if is_nap_hosted req.registration_type
            then hosted_agent s req (capability_of req) id
            else domain_agent s req (capability_of req) id)
          w).0
        ≡ ok a
      → IsDraft s req a
  agent-IsDraft id w a h = elim (Bool-cases (is_nap_hosted req.registration_type)) [
    | inl t ↦ hosted_agent-IsDraft id w a t (rw t at h)
    | inr n ↦ domain_agent-IsDraft id w a n (rw n at h)
  ]
