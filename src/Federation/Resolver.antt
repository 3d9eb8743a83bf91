-- ===== src/Federation/Resolver.antt =====
-- internal/federation/client.go and resolver.go: how an agent of another registry is found. What a
-- remote registry and the DNS answer are fields of the resolver.
use nexus_agent_protocol.Prelude.{
  ℕ, Bool, not, Option, none, some, List, [], ◌∷◌, ◌++◌, Bytes, codes, if◌then◌else◌, ◌==◌,
  is_empty, is_blank, text_eq, keep, first, drop, has_prefix, onto, Result, ok, err,
}
use nexus_agent_protocol.Action.{Action, pure, fail, ◌>>=◌, tried}
use nexus_agent_protocol.Handler.{Server, Response, Handler}
use nexus_agent_protocol.Handler.Queries.{resolve_agent}
use nexus_agent_protocol.Federation.{
  RegisteredRegistry, is_active, FedError, Registries, FederationService, get_by_trust_root,
}

-- remoteAgentResponse
pub record RemoteAgent : Type 0 where
  pub agent_id : Bytes
  pub trust_root : Bytes
  pub capability_node : Bytes
  pub display_name : Bytes
  pub description : Bytes
  pub endpoint : Bytes
  pub status : Bytes
  pub version : Bytes

pub data ClientError : Type 0 where
  bad_url request_failed registry_not_found decode_failed no_endpoint : ClientError
  bad_status : ℕ → ClientError

-- a GET request: the parameters of its query; the answer is a status and a body
abbrev pub Query : Type 0
Query = List (Bytes × Bytes)

-- The network: `parses` says whether `url.Parse` accepts the address, and `get` sends a request.
-- `decode` is `json.Unmarshal` of what was read.
pub record Network : Type 0 where
  pub parses : Bytes → Bool
  pub get : Bytes → Query → Option (ℕ × Bytes)
  pub decode : Bytes → Option RemoteAgent

-- the query of `RegistryClient.Resolve`
unfoldable pub client_query : Bytes → Bytes → Bytes → Query
client_query trust_root cap_node agent_id =
    (codes "trust_root", trust_root)
    ∷ (codes "cap_node", cap_node)
    ∷ (codes "agent_id", agent_id)
    ∷ []

abbrev read_answer : Network → ℕ × Bytes → Result ClientError RemoteAgent
read_answer net (status, body) =
    if status == 404
    then err registry_not_found
    else if not (status == 200)
    then err (bad_status status)
    else elim (net.decode body) [ none ↦ err decode_failed | some a ↦ ok a ]

-- Resolve of a RegistryClient
unfoldable pub client_resolve :
    Network → Bytes → Bytes → Bytes → Bytes → Result ClientError RemoteAgent
client_resolve net base_url trust_root cap_node agent_id =
    if not (net.parses (base_url ++ codes "/api/v1/resolve"))
    then err bad_url
    else elim (net.get (base_url ++ codes "/api/v1/resolve")
        (client_query trust_root cap_node agent_id)) [
          | none ↦ err request_failed
          | some r ↦ read_answer net r
        ]

-- RemoteResolver; `fed_svc` is nil for `none`
pub record RemoteResolver : Type 0 where
  pub fed_svc : Option FederationService
  pub root_registry_url : Bytes
  pub dns_enabled : Bool
  pub lookup_txt : Bytes → Option (List Bytes)
  pub network : Network

-- strings.Fields of ASCII
unfoldable pub words : Bytes → List Bytes
words [] = [] ∷ []
words (c ∷ s) = let rest = words s in if is_blank c then [] ∷ rest else onto c rest

unfoldable pub fields : Bytes → List Bytes
fields s = keep (λ w. not (is_empty w)) (words s)

-- the first part `url=...` of a record
abbrev url_part : Bytes → Option Bytes
url_part txt = elim (first (λ p. has_prefix p (codes "url=")) (fields txt)) [
  | none ↦ none
  | some p ↦ some (drop 4 p)
]

-- the loop of `dnsDiscover`
unfoldable pub first_url : List Bytes → Option Bytes
first_url [] = none
first_url (txt ∷ txts) =
    let rest = first_url txts in
    if has_prefix txt (codes "v=nap1 ")
    then elim (url_part txt) [ none ↦ rest | some u ↦ some u ]
    else rest

-- dnsDiscover
unfoldable pub dns_discover : RemoteResolver → Bytes → Option Bytes
dns_discover r trust_root = elim (r.lookup_txt (codes "_nap-registry." ++ trust_root)) [
  | none ↦ none
  | some txts ↦ first_url txts
]

-- `err == nil && reg.Status == StatusActive`
unfoldable pub approved : Result FedError RegisteredRegistry → Option RegisteredRegistry
approved (err e) = none
approved (ok reg) = if is_active reg.status then some reg else none

module _ (r : RemoteResolver) where
  -- the registry of a trust root, if it is active; without a service there is none
  unfoldable pub active_registry : Bytes → Action Registries ClientError (Option RegisteredRegistry)
  active_registry trust_root = elim r.fed_svc [
    | none ↦ pure none
    | some s ↦ tried (get_by_trust_root s trust_root) >>= λ reg. pure (approved reg)
  ]

  -- the last step of `discoverEndpoint`
  abbrev fallback : Action Registries ClientError Bytes
  fallback =
      if not (is_empty r.root_registry_url) then pure r.root_registry_url else fail no_endpoint

  -- the DNS: with a service, the trust root has to be approved
  unfoldable pub by_dns : Bytes → Action Registries ClientError Bytes
  by_dns trust_root =
      if r.dns_enabled
      then elim (dns_discover r trust_root) [
        | none ↦ fallback
        | some url ↦ elim r.fed_svc [
          | none ↦ pure url
          | some s ↦
              active_registry trust_root >>= λ reg. elim reg [ none ↦ fallback | some x ↦ pure url ]
        ]
      ]
      else fallback

  -- discoverEndpoint
  unfoldable pub discover_endpoint : Bytes → Action Registries ClientError Bytes
  discover_endpoint trust_root = active_registry trust_root >>= λ reg. elim reg [
    | none ↦ by_dns trust_root
    | some x ↦ pure x.endpoint_url
  ]

  -- Resolve of a RemoteResolver
  unfoldable pub remote_resolve : Bytes → Bytes → Bytes → Action Registries ClientError RemoteAgent
  remote_resolve trust_root cap_node agent_id = do
    url ← discover_endpoint trust_root
    elim (client_resolve r.network url trust_root cap_node agent_id) [
      | err e ↦ fail e
      | ok a ↦ pure a
    ]

-- `c.Query`: the first value of a name, or nothing
unfoldable pub param : Bytes → Query → Bytes
param name q = elim (first (λ p. text_eq p.0 name) q) [ none ↦ [] | some p ↦ p.1 ]

-- the route `GET /resolve` of internal/registry/handler/agent.go
unfoldable pub serve_resolve : Server → Query → Handler Response
serve_resolve h q =
    resolve_agent h (param (codes "trust_root") q) (param (codes "capability_node") q)
      (param (codes "agent_id") q)
