-- ===== src/Resolver.antt =====
-- internal/resolver/resolver.go: the resolution of a URI through the cache. What the registry answers
-- and what the clock shows are fields of the service; the logger is left out.
pub mod Fetched
pub mod Origin
mod Tests
use nexus_agent_protocol.Prelude.{
  ℕ, zero, suc, ◌≤◌, Bool, not, Option, none, some, List, [], ◌∷◌, ◌++◌, Bytes, codes,
  if◌then◌else◌, ◌==◌, ltb, is_empty, length, get_elem?, map, take, Result, ok, err,
}
use nexus_agent_protocol.Action.{Action, pure, fail, ◌>>=◌, ◌>>◌}
use nexus_agent_protocol.Ledger.Decimal.{decimal}
use nexus_agent_protocol.Cache.{
  CacheEntry, ResolverCache, new_resolver_cache, get, set, invalidate, evict, size,
}
use nexus_agent_protocol.Handler.Queries.{set_at}

-- ResolveRequest
pub record ResolveRequest : Type 0 where
  pub trust_root : Bytes
  pub capability_node : Bytes
  pub agent_id : Bytes

-- ResolveResponse
pub record ResolveResponse : Type 0 where
  pub uri : Bytes
  pub endpoint : Bytes
  pub status : Bytes
  pub cert_serial : Bytes

-- registryResolveResult
pub record RegistryResolveResult : Type 0 where
  pub uri : Bytes
  pub endpoint : Bytes
  pub status : Bytes
  pub cert_serial : Bytes
  pub error : Bytes

-- the codes of the errors, with their texts
pub data GrpcError : Type 0 where
  invalid_argument internal unavailable agent_missing failed_precondition : Bytes → GrpcError

-- What a GET request comes to; the texts of errors are those of net/http.
pub data Exchange : Type 0 where
  unbuilt unreachable unread : Bytes → Exchange
  answered : ℕ → Bytes → Exchange

-- Service, without its cache. `decode` is `json.Unmarshal`; what a GET request comes to and what the
-- clock shows go by the number of the call.
pub record ResolverService : Type 0 where
  pub registry_addr : Bytes
  pub now : ℕ → ℕ
  pub request : ℕ → Bytes → Exchange
  pub decode : Bytes → Result Bytes RegistryResolveResult

-- The cache, which is nil for `none`, and the number of calls.
pub record Resolver : Type 0 where
  pub cache : Option ResolverCache
  pub calls : ℕ

abbrev pub R : Type 0 → Type 0
R X = Action Resolver GrpcError X

abbrev pub tick : Resolver → Resolver
tick w = record w { calls = suc w.calls }

-- New: a cache if its time to live is not 0
unfoldable pub new_resolver : ℕ → Resolver
new_resolver zero = record { cache = none; calls = 0 }
new_resolver (suc ttl) = record { cache = some (new_resolver_cache (suc ttl)); calls = 0 }

-- validateRequest
unfoldable pub validate_request : ResolveRequest → R (Unit {0})
validate_request req =
    if is_empty req.trust_root
    then fail (invalid_argument (codes "trust_root is required"))
    else if is_empty req.capability_node
    then fail (invalid_argument (codes "capability_node is required"))
    else if is_empty req.agent_id
    then fail (invalid_argument (codes "agent_id is required"))
    else pure tt

-- buildCacheKey
unfoldable pub build_cache_key : Bytes → Bytes → Bytes → Bytes
build_cache_key trust_root cap_node agent_id =
    codes "agent://" ++ (trust_root ++ (codes "/" ++ (cap_node ++ (codes "/" ++ agent_id))))

-- buildURI
unfoldable pub build_uri : ResolveRequest → Bytes
build_uri req = build_cache_key req.trust_root req.capability_node req.agent_id

-- the URL of `queryRegistry`; nothing in it is escaped
unfoldable pub registry_url : Bytes → ResolveRequest → Bytes
registry_url addr req =
    codes "http://"
    ++ (addr
        ++ (codes "/api/v1/resolve?trust_root="
            ++ (req.trust_root
                ++ (codes "&capability_node="
                    ++ (req.capability_node ++ (codes "&agent_id=" ++ req.agent_id))))))

-- `agent not found: %s/%s/%s`
abbrev pub missing : ResolveRequest → GrpcError
missing req = agent_missing (
    codes "agent not found: "
    ++ (req.trust_root ++ (codes "/" ++ (req.capability_node ++ (codes "/" ++ req.agent_id)))))

abbrev pub max_body : ℕ
max_body = 65536

-- the answer from an entry of the cache
abbrev pub from_entry : ResolveRequest → CacheEntry → ResolveResponse
from_entry req e = record {
  uri = build_uri req;
  endpoint = e.endpoint;
  status = e.status;
  cert_serial = e.cert_serial;
}

-- the answer from a result of the registry
abbrev pub from_result : RegistryResolveResult → ResolveResponse
from_result r = record {
  uri = r.uri;
  endpoint = r.endpoint;
  status = r.status;
  cert_serial = r.cert_serial;
}

-- `if s.cache != nil { s.cache.set(...) }`
unfoldable pub remember :
    ℕ → ResolveRequest → RegistryResolveResult → Option ResolverCache → Option ResolverCache
unfolding set
remember now req r none = none
remember now req r (some c) = some (set now (build_uri req) r.endpoint r.status r.cert_serial c)

-- `if s.cache != nil { ... s.cache.get(cacheKey) }`
unfoldable pub recall : ℕ → ResolveRequest → Option ResolverCache → Option CacheEntry
unfolding get
recall now req none = none
recall now req (some c) = get now (build_uri req) c

-- an answer with status 200, of which 64 KiB are read
unfoldable pub accept : Result Bytes RegistryResolveResult → Result GrpcError RegistryResolveResult
accept (err e) = err (internal (codes "decode registry response: " ++ e))
accept (ok result) =
    if not (is_empty result.error)
    then err (failed_precondition (codes "registry: " ++ result.error))
    else ok result

module _ (s : ResolverService) where
  unfoldable pub read_answer : ResolveRequest → ℕ → Bytes → Result GrpcError RegistryResolveResult
  unfolding accept
  read_answer req code body =
      if code == 200
      then accept (s.decode body)
      else if code == 404
      then err (missing req)
      else if code == 400
      then err (invalid_argument (codes "registry rejected request: " ++ body))
      else err (internal (codes "registry error " ++ (decimal code ++ (codes ": " ++ body))))

  unfoldable pub read_exchange : ResolveRequest → Exchange → Result GrpcError RegistryResolveResult
  unfolding read_answer
  read_exchange req (unbuilt e) = err (internal (codes "build registry request: " ++ e))
  read_exchange req (unreachable e) = err (unavailable (codes "registry unreachable: " ++ e))
  read_exchange req (unread e) = err (internal (codes "read registry response: " ++ e))
  read_exchange req (answered code body) = read_answer req code (take max_body body)

  -- queryRegistry, as the call of a number
  unfoldable pub query_registry : ℕ → ResolveRequest → Result GrpcError RegistryResolveResult
  unfolding read_exchange registry_url
  query_registry n req = read_exchange req (s.request n (registry_url s.registry_addr req))

  -- the registry's part of `Resolve`, which stores a result
  unfoldable pub store : ResolveRequest → Result GrpcError RegistryResolveResult → R ResolveResponse
  unfolding remember
  store req (err e) w = (err e, w)
  store req (ok r) w =
      (ok (from_result r), record w { cache = remember (s.now w.calls) req r w.cache })

  unfoldable pub fetch : ResolveRequest → R ResolveResponse
  unfolding store query_registry
  fetch req w = store req (query_registry w.calls req) (tick w)

  -- what follows the check of the request
  unfoldable pub look_up : ResolveRequest → R ResolveResponse
  unfolding recall fetch
  look_up req w = elim (recall (s.now w.calls) req w.cache) [
    | some e ↦ (ok (from_entry req e), tick w)
    | none ↦ fetch req (tick w)
  ]

  -- Resolve
  unfoldable pub resolve : ResolveRequest → R ResolveResponse
  unfolding validate_request look_up
  resolve req = validate_request req >> look_up req

  -- Invalidate
  unfoldable pub forget : ResolveRequest → Resolver → Resolver
  forget req w = elim w.cache [
    | none ↦ w
    | some c ↦ record w { cache = some (invalidate (build_uri req) c) }
  ]

  -- a tick of StartCacheEviction
  unfoldable pub evict_once : Resolver → Resolver
  evict_once w = elim w.cache [
    | none ↦ w
    | some c ↦ tick (record w { cache = some (evict (s.now w.calls) c).1 })
  ]

  -- The goroutines of ResolveMany in the order of the scheduler; each writes the result of its own
  -- index.
  unfoldable pub resolve_each :
      List ℕ
      → List ResolveRequest
      → List (Option (Result GrpcError ResolveResponse))
      → Resolver
      → List (Option (Result GrpcError ResolveResponse)) × Resolver
  unfolding resolve
  resolve_each [] reqs results w = (results, w)
  resolve_each (i ∷ order) reqs results w = elim (get_elem? reqs i) [
    | none ↦ resolve_each order reqs results w
    | some req ↦
        let (r, w') = resolve req w in resolve_each order reqs (set_at i (some r) results) w'
  ]

  -- ResolveMany
  unfoldable pub resolve_many :
      List ℕ → List ResolveRequest → R (List (Option (Result GrpcError ResolveResponse)))
  unfolding resolve_each
  resolve_many order reqs w =
      let (results, w') = resolve_each order reqs (map (λ r. none) reqs) w in
      if ltb 100 (length reqs)
      then (err (invalid_argument (codes "batch size must not exceed 100")), w)
      else (ok results, w')

-- CacheStats
unfoldable pub cache_stats : Resolver → ℕ
cache_stats w = elim w.cache [ none ↦ 0 | some c ↦ size c ]

-- the calls of the service
pub data ResolverOp : Type 0 where
  resolving : ResolveRequest → ResolverOp
  resolving_many : List ℕ → List ResolveRequest → ResolverOp
  forgetting : ResolveRequest → ResolverOp
  evicting : ResolverOp

unfoldable pub perform : ResolverService → ResolverOp → Resolver → Resolver
perform s (resolving req) w = (resolve s req w).1
perform s (resolving_many order reqs) w = (resolve_many s order reqs w).1
perform s (forgetting req) w = forget s req w
perform s evicting w = evict_once s w

unfoldable pub run : ResolverService → List ResolverOp → Resolver → Resolver
run s [] w = w
run s (o ∷ ops) w = run s ops (perform s o w)
