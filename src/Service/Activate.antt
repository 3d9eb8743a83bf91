-- ===== src/Service/Activate.antt =====
-- `Activate` of agent.go: the gates, the certificate, the new status and the documents.
use nexus_agent_protocol.Prelude.{
  ℕ, Bool, true, false, Option, none, some, [], ◌∷◌, Bytes, codes, if◌then◌else◌, ok, err,
}
use nexus_agent_protocol.Model.Agent.{Agent, active, is_nap_hosted, uri}
use nexus_agent_protocol.World.{
  Error, check_email, email_not_verified, check_domain, domain_not_verified, issue_cert, M, pure,
  fail, ◌>>=◌, ◌>>◌,
}
use nexus_agent_protocol.Repository.{get_by_id, update_status, activate_row}
use nexus_agent_protocol.Service.{Service, Cert, Issuer, append_ledger, dispatch_webhook}
use nexus_agent_protocol.Service.Cards.{generate_agent_card, manifest_json}

pub record ActivationResult : Type 0 where
  pub agent : Agent
  pub cert_pem : Bytes
  pub key_pem : Bytes
  pub serial : Bytes
  pub expires_at : Option ℕ
  pub ca_pem : Bytes
  pub agent_card_json : Bytes
  pub mcp_manifest_json : Bytes

-- the answer of a verifier, as an action
unfoldable pub gate : Option Bool → Error → Error → M (Unit {0})
gate none failed refused = fail failed
gate (some true) failed refused = pure tt
gate (some false) failed refused = fail refused

module _ (s : Service) where
  -- the e-mail gate of hosted agents
  unfoldable pub email_gate : Option ℕ → M (Unit {0})
  email_gate owner = elim s.email_checker [
    | none ↦ pure tt
    | some check ↦ elim owner [
      | none ↦ pure tt
      | some user ↦ gate (check user) check_email email_not_verified
    ]
  ]

  -- the DNS gate of domain agents
  unfoldable pub domain_gate : Bytes → M (Unit {0})
  domain_gate owner_domain = elim s.dns_verifier [
    | none ↦ pure tt
    | some check ↦ gate (check owner_domain) check_domain domain_not_verified
  ]

  unfoldable pub gates : Agent → M (Unit {0})
  gates a =
      if is_nap_hosted a.registration_type
      then email_gate a.owner_user_id
      else domain_gate a.owner_domain

  -- the owner's name and e-mail for the certificate
  unfoldable pub owner_of : Agent → Bytes × Bytes
  owner_of a =
      if is_nap_hosted a.registration_type
      then elim a.owner_user_id [
        | none ↦ (a.owner_domain, [])
        | some user ↦ elim s.owner_info [
          | none ↦ (a.owner_domain, [])
          | some fetch ↦ elim (fetch user) [
            | none ↦ (a.owner_domain, [])
            | some (name, mail) ↦ (name, mail)
          ]
        ]
      ]
      else (a.owner_domain, [])

  -- the result before the documents are generated
  abbrev pub bare_result : Agent → ActivationResult
  bare_result a = record {
    agent = record a { status = active };
    cert_pem = [];
    key_pem = [];
    serial = [];
    expires_at = none;
    ca_pem = [];
    agent_card_json = [];
    mcp_manifest_json = [];
  }

  abbrev pub cert_result : Issuer → Cert → Agent → ActivationResult
  cert_result issuer c a = record {
    agent = record a { status = active; cert_serial = c.serial; public_key_pem = c.cert_pem };
    cert_pem = c.cert_pem;
    key_pem = c.key_pem;
    serial = c.serial;
    expires_at = some c.not_after;
    ca_pem = issuer.ca_pem;
    agent_card_json = [];
    mcp_manifest_json = [];
  }

  -- the branch with an issuer, and the branch without
  unfoldable pub with_cert : Issuer → ℕ → Agent → M ActivationResult
  with_cert issuer id a =
      let (name, mail) = owner_of a in
      elim (issuer.issue (uri a) name mail) [
        | none ↦ fail issue_cert
        | some c ↦ do activate_row s.env id c.serial c.cert_pem; pure (cert_result issuer c a)
      ]

  unfoldable pub without_cert : ℕ → Agent → M ActivationResult
  without_cert id a = do update_status s.env id active; pure (bare_result a)

  -- the card and the manifest; an error leaves the text empty
  unfoldable pub with_documents : ActivationResult → ActivationResult
  unfolding generate_agent_card manifest_json
  with_documents r = record r {
    agent_card_json = elim (generate_agent_card s r.agent r.serial) [ err _ ↦ [] | ok json ↦ json ];
    mcp_manifest_json = manifest_json s r.agent;
  }

  unfoldable pub set_active : ℕ → Agent → M ActivationResult
  set_active id a = elim s.issuer [ none ↦ without_cert id a | some issuer ↦ with_cert issuer id a ]

  -- Activate
  unfoldable pub activate : ℕ → M ActivationResult
  unfolding with_documents
  activate id = do
    a ← get_by_id s.env id
    gates a
    r ← set_active id a
    append_ledger s (uri r.agent) (codes "activate") (codes "nexus-system")
        ((codes "agent_id", r.agent.agent_id) ∷ (codes "cert_serial", r.serial) ∷ [])
    dispatch_webhook s (codes "agent.activated")
        ((codes "agent_id", s.show_uuid r.agent.id) ∷ (codes "uri", uri r.agent) ∷ [])
    pure (with_documents r)
