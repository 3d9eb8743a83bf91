-- ===== src/Resolver/Tests.antt =====
-- The resolver at concrete requests, and the theorem on it there.
use nexus_agent_protocol.Prelude.{
  ◌≡◌, refl, List, [], ◌∷◌, Bytes, codes, ltb, text_eq, ok, err, if◌then◌else◌,
}
use nexus_agent_protocol.Cache
use nexus_agent_protocol.Cache.{
  expired, lookup, unexpired, put, new_resolver_cache, get, invalidate, remove, evict, sweep,
}
use nexus_agent_protocol.Resolver.{
  ResolveRequest, ResolveResponse, RegistryResolveResult, ResolverService, ResolverOp, resolving,
  evicting, answered, unreachable, unavailable, new_resolver, validate_request, build_cache_key,
  build_uri, registry_url, accept, read_answer, read_exchange, query_registry, remember, recall,
  store, fetch, look_up, resolve, evict_once, perform, run,
}
use nexus_agent_protocol.Resolver.Origin.{IsAnswered, resolve-IsAnswered}

abbrev request : Bytes → Bytes → ResolveRequest
request cap_node agent_id = record {
  trust_root = codes "x";
  capability_node = cap_node;
  agent_id = agent_id;
}

abbrev found : RegistryResolveResult
found = record {
  uri = codes "u";
  endpoint = codes "e";
  status = codes "active";
  cert_serial = [];
  error = [];
}

-- a registry that answers before the call of number 3 only
abbrev toy_service : ResolverService
toy_service = record {
  registry_addr = codes "r";
  now = λ n. n;
  request = λ n url. if ltb n 3 then answered 200 (codes "{}") else unreachable (codes "refused");
  decode = λ body. ok found;
}

abbrev ops : List ResolverOp
ops = evicting ∷ resolving (request (codes "a") (codes "b/c")) ∷ evicting ∷ evicting ∷ []

abbrev last : ResolveRequest
last = request (codes "a/b") (codes "c")

-- two requests have one key, so that the second is answered with the result of the first
same_key : build_uri (request (codes "a") (codes "b/c")) ≡ build_uri last
unfolding build_uri build_cache_key
same_key = refl

abbrev kept_answer : ResolveResponse
kept_answer = record {
  uri = codes "agent://x/a/b/c";
  endpoint = codes "e";
  status = codes "active";
  cert_serial = [];
}

from_cache : (resolve toy_service last (run toy_service ops (new_resolver 9))).0 ≡ ok kept_answer
unfolding run perform resolve validate_request look_up recall get lookup unexpired expired fetch
    store query_registry read_exchange read_answer accept registry_url remember Cache.set put
    build_uri build_cache_key new_resolver new_resolver_cache evict_once evict sweep text_eq
from_cache = refl

expired_answer :
    (resolve toy_service last (run toy_service ops (new_resolver 1))).0
    ≡ err (unavailable (codes "registry unreachable: refused"))
unfolding run perform resolve validate_request look_up recall get lookup unexpired expired fetch
    store query_registry read_exchange read_answer accept registry_url remember Cache.set put
    build_uri build_cache_key new_resolver new_resolver_cache evict_once evict sweep text_eq
expired_answer = refl

resolve-IsAnswered_example :
    IsAnswered toy_service 9 (run toy_service ops (new_resolver 9)).calls last kept_answer
resolve-IsAnswered_example = resolve-IsAnswered toy_service 9 ops last kept_answer from_cache
