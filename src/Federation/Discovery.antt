-- ===== src/Federation/Discovery.antt =====
-- Where an agent of another registry is looked for, and what comes of it.
use nexus_agent_protocol.Prelude.{
  ◌≡◌, refl, true, Bool-cases, inl, inr, ◌⊎◌, not, some, Option-cases, ◌++◌, Bytes, codes, arith,
  if◌then◌else◌, is_empty, text_eq, first, Result, ok, err,
}
use nexus_agent_protocol.Action.{pure, fail}
use nexus_agent_protocol.World.{World}
use nexus_agent_protocol.Handler.{Server, Response}
use nexus_agent_protocol.Handler.Queries.{resolve_agent}
use nexus_agent_protocol.Federation.{
  RegisteredRegistry, is_active, Registries, FederationService, has_root, call, get_by_trust_root,
}
use nexus_agent_protocol.Federation.Resolver.{
  Network, ClientError, bad_status, no_endpoint, RemoteResolver, client_query, client_resolve,
  dns_discover, approved, active_registry, by_dns, discover_endpoint, param, serve_resolve,
}

-- the trust root is the one of an active member
pub IsApproved : Bytes → Registries → Type 0
IsApproved root w =
    (r : RegisteredRegistry) × (first (has_root root) w.rows ≡ some r) × (is_active r.status ≡ true)

module _ (s : FederationService) where
  asked_rows : (root : Bytes) (w : Registries) → (get_by_trust_root s root w).1.rows ≡ w.rows
  unfolding get_by_trust_root call
  asked_rows root w = ground arith

  approved_row :
      (root : Bytes) (w : Registries) (r : RegisteredRegistry)
      → approved (get_by_trust_root s root w).0 ≡ some r
      → IsApproved root w
  unfolding get_by_trust_root call approved IsApproved
  approved_row root w r q = elim (Option-cases (first (has_root root) w.rows)) [
    | inl e ↦ absurd (ground (arith, q, e))
    | inr (x, e) ↦ (x, e, ground (arith, q, e))
  ]

module _ (base : RemoteResolver) (s : FederationService) where
  -- a resolver that has a federation service
  abbrev pub with_service : RemoteResolver
  with_service = record base { fed_svc = some s }

  fallback_url :
      (w : Registries) (url : Bytes)
      → ◌≡◌ {A = Result ClientError Bytes}
          ((if not (is_empty base.root_registry_url)
              then pure base.root_registry_url
              else fail no_endpoint)
            w).0
          (ok url)
      → url ≡ base.root_registry_url
  fallback_url w url q = ground (arith, q)

  by_dns-IsApproved :
      (root : Bytes) (w : Registries) (url : Bytes)
      → (by_dns with_service root w).0 ≡ ok url
      → (url ≡ base.root_registry_url) ⊎ IsApproved root w
  unfolding by_dns active_registry dns_discover
  by_dns-IsApproved root w url q = elim (Bool-cases base.dns_enabled) [
    | inr n ↦ inl (fallback_url w url (rw n at q))
    | inl t ↦ elim (Option-cases (dns_discover with_service root)) [
      | inl e ↦ inl (fallback_url w url (rw (t, e) at q))
      | inr (u, e) ↦ elim (Option-cases (approved (get_by_trust_root s root w).0)) [
        | inl f ↦ inl (fallback_url _ url (rw (t, e, f) at q))
        | inr (x, f) ↦ inr (approved_row s root w x f)
      ]
    ]
  ]

  -- A resolver with a federation service looks for an agent only at its own root registry, or
  -- where the trust root is the one of a member that is active: the DNS alone decides nothing.
  pub discovered-IsApproved :
      (root : Bytes) (w : Registries) (url : Bytes)
      → (discover_endpoint with_service root w).0 ≡ ok url
      → (url ≡ base.root_registry_url) ⊎ IsApproved root w
  unfolding discover_endpoint active_registry IsApproved
  discovered-IsApproved root w url q =
      elim (Option-cases (approved (get_by_trust_root s root w).0)) [
        | inr (x, e) ↦ inr (approved_row s root w x e)
        | inl e ↦ elim (by_dns-IsApproved root (get_by_trust_root s root w).1 url (rw e at q)) [
          | inl same ↦ inl same
          | inr (x, f, t) ↦ inr (x, rw (asked_rows s root w) at f, t)
        ]
      ]

-- the network in which every registry runs the routes of this repository
abbrev pub served : Server → World → (Response → Bytes) → Network → Network
served h w encode net = record net {
  get = λ url q.
      some
        (elim (serve_resolve h q w).0 [ ok r ↦ (r.code, encode r) | err r ↦ (r.code, encode r) ]);
}

-- Where the address parses and the remote registry runs this repository's routes, the client's request
-- to resolve an agent ends with the status 400, for every agent: the client names the capability
-- `cap_node`, and the route reads `capability_node`.
pub client_refused :
    (h : Server) (w : World) (encode : Response → Bytes) (net : Network)
    (base_url trust_root cap_node agent_id : Bytes)
    → net.parses (base_url ++ codes "/api/v1/resolve") ≡ true
    → client_resolve (served h w encode net) base_url trust_root cap_node agent_id
      ≡ err (bad_status 400)
unfolding client_resolve client_query serve_resolve param resolve_agent text_eq
client_refused h w encode net base_url trust_root cap_node agent_id q =
    elim (Bool-cases (is_empty trust_root)) [ inl t ↦ rw (q, t) refl | inr n ↦ rw (q, n) refl ]
