-- ===== src/Federation/Tests.antt =====
-- The federation run at concrete calls, and its theorems there.
use nexus_agent_protocol.Prelude.{
  ◌+◌, ◌≡◌, refl, ◌⊎◌, true, false, none, some, List, [], ◌∷◌, codes, text_eq, has_prefix, is_blank,
  onto, ok, err,
}
use nexus_agent_protocol.Model.Agent.{active}
use nexus_agent_protocol.World.{Env}
use nexus_agent_protocol.Service.Toys.{store}
use nexus_agent_protocol.Handler.Toys.{toy_server}
use nexus_agent_protocol.Federation
use nexus_agent_protocol.Federation.{
  RegisteredRegistry, Registries, CaIssuer, IssuedCa, FederationService, IssueCaResponse,
  response_of, found_or, change, add_row, write_row, call, create, get_by_trust_root, get_by_id,
  update_row, update_status, set_intermediate_ca, write_max_path_len, register, approve, issue_for,
  issue_with, issue_intermediate_ca, update_max_path_len, FedOp, registering, approving, issuing,
  delegating, perform, run,
}
use nexus_agent_protocol.Federation.Resolver.{
  Network, bad_status, RemoteResolver, client_resolve, words, fields, first_url, dns_discover,
  approved, active_registry, by_dns, discover_endpoint,
}
use nexus_agent_protocol.Federation.Members.{IsEntitled, no_members, issued-IsEntitled}
use nexus_agent_protocol.Federation.Discovery.{
  IsApproved, with_service, discovered-IsApproved, served, client_refused,
}

abbrev clock : Env
clock = record {
  fault = λ n. false;
  now = λ n. n;
  new_uuid = λ n. n + 100;
  has_user = λ n user. true;
  order = λ n i. 0;
}

abbrev certificate : IssuedCa
certificate = record {
  cert_pem = codes "C";
  key_pem = codes "K";
  serial = codes "1";
  not_after = 9;
}

abbrev toy_issuer : CaIssuer
toy_issuer = record { issue = λ root time depth. some certificate; ca_pem = codes "R" }

abbrev toy_federation : FederationService
toy_federation = record { env = clock; issuer = some toy_issuer }

abbrev ops : List FedOp
ops =
    registering (codes "acme.com") (codes "https://acme")
    ∷ delegating 100 false 5
    ∷ delegating 100 false 2
    ∷ approving 100
    ∷ []

abbrev joined : Registries
joined = run toy_federation ops (no_members 0)

abbrev member : RegisteredRegistry
member = record {
  id = 100;
  trust_root = codes "acme.com";
  endpoint_url = codes "https://acme";
  intermediate_ca = [];
  max_path_len = 2;
  status = Federation.active;
  registered_at = 0;
  updated_at = 2;
}

issued :
    (issue_intermediate_ca toy_federation (codes "acme.com") joined).0
    ≡ ok (response_of toy_issuer (codes "acme.com") member certificate)
unfolding run perform register create add_row call update_max_path_len write_max_path_len update_row
    write_row change approve update_status get_by_id issue_intermediate_ca issue_with
    get_by_trust_root issue_for set_intermediate_ca text_eq
issued = refl

issued-IsEntitled_example :
    IsEntitled toy_federation toy_issuer
      (codes "acme.com")
      joined
      (response_of toy_issuer (codes "acme.com") member certificate)
issued-IsEntitled_example =
    issued-IsEntitled toy_federation toy_issuer ops 0 (codes "acme.com")
      (response_of toy_issuer (codes "acme.com") member certificate) refl issued

abbrev toy_network : Network
toy_network = record { parses = λ a. true; get = λ url q. none; decode = λ body. none }

abbrev toy_resolver : RemoteResolver
toy_resolver = record {
  fed_svc = none;
  root_registry_url = codes "https://root";
  dns_enabled = true;
  lookup_txt = λ host. some (codes "v=nap1 url=https://evil" ∷ []);
  network = toy_network;
}

-- the DNS names a registry, but the trust root is not approved
fallen_back :
    (discover_endpoint (with_service toy_resolver toy_federation) (codes "x.org") (no_members 0)).0
    ≡ ok (codes "https://root")
unfolding discover_endpoint active_registry approved by_dns dns_discover first_url fields words
    get_by_trust_root call has_prefix onto is_blank
fallen_back = refl

discovered-IsApproved_example :
    (codes "https://root" ≡ codes "https://root") ⊎ IsApproved (codes "x.org") (no_members 0)
discovered-IsApproved_example =
    discovered-IsApproved toy_resolver toy_federation (codes "x.org") (no_members 0)
      (codes "https://root") fallen_back

client_refused_example :
    client_resolve
      (served toy_server (store active) (λ r. []) toy_network)
      (codes "https://acme")
      (codes "acme.com")
      (codes "finance")
      (codes "agent_1")
    ≡ err (bad_status 400)
client_refused_example =
    client_refused toy_server (store active) (λ r. []) toy_network (codes "https://acme")
      (codes "acme.com") (codes "finance") (codes "agent_1") refl
