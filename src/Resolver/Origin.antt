-- ===== src/Resolver/Origin.antt =====
-- Where the answers of the resolver come from.
use nexus_agent_protocol.Prelude.{
  ℕ, suc, ◌+◌, ◌<◌, ◌≡◌, sym, ap, false, Bool-cases, inl, inr, Option, none, some, Option-cases,
  Result-cases, List, arith, ltb, is_empty, ok,
}
use mathlib.Core.Path.{subst}
use nexus_agent_protocol.Cache.{CacheEntry, ResolverCache, lookup, get}
use nexus_agent_protocol.Resolver.{
  ResolveRequest, ResolveResponse, RegistryResolveResult, ResolverService, Resolver, ResolverOp,
  tick, new_resolver, validate_request, build_uri, query_registry, from_entry, from_result, recall,
  store, fetch, look_up, resolve, run,
}
use nexus_agent_protocol.Cache.Entries.{lookup-All, unexpired-some}
use nexus_agent_protocol.Resolver.Fetched.{
  IsFetched, IsSoundCache, IsSound, run-IsSound, new_resolver-IsSound,
}

-- an answer with the fields of a result, under the URI of the request
abbrev pub answer_of : ResolveRequest → RegistryResolveResult → ResolveResponse
answer_of req r = record {
  uri = build_uri req;
  endpoint = r.endpoint;
  status = r.status;
  cert_serial = r.cert_serial;
}

module _ (s : ResolverService) (ttl : ℕ) where
  -- What an answer at the `n`-th call rests on: the registry's result for this request now, or the
  -- one of an earlier call for a URI with the same text, whose time to live is not over.
  pub data IsAnswered (n : ℕ) (req : ResolveRequest) (resp : ResolveResponse) : Type 0 where
    fresh :
        (result : RegistryResolveResult)
        → query_registry s (suc n) req ≡ ok result
        → from_result result ≡ resp
        → IsAnswered n req resp
    kept :
        (call : ℕ) (request : ResolveRequest) (result : RegistryResolveResult)
        → call < n
        → build_uri request ≡ build_uri req
        → query_registry s call request ≡ ok result
        → ltb (s.now (suc call) + ttl) (s.now n) ≡ false
        → answer_of req result ≡ resp
        → IsAnswered n req resp

  recall-IsAnswered :
      (req : ResolveRequest) (n : ℕ) (o : Option ResolverCache) (e : CacheEntry)
      → IsSoundCache s ttl n o
      → recall (s.now n) req o ≡ some e
      → IsAnswered n req (from_entry req e)
  unfolding recall get
  recall-IsAnswered req n none e h q = absurd (ground (arith, q))
  recall-IsAnswered req n (some c) e h q =
      let (found, young) = unexpired-some (s.now n) (lookup (build_uri req) c.entries) e q in
      let f = lookup-All (λ p. IsFetched s ttl n p.0 p.1) (build_uri req) e c.entries h.1 found in
      kept f.call f.request f.result f.before f.same f.answered
        (subst (λ g. ltb g.expires_at (s.now n) ≡ false) (sym f.stored) young)
        (ap (from_entry req) f.stored)

  fetch-IsAnswered :
      (req : ResolveRequest) (w : Resolver) (resp : ResolveResponse)
      → (fetch s req w).0 ≡ ok resp
      → (r : RegistryResolveResult) × (query_registry s w.calls req ≡ ok r) × (from_result r ≡ resp)
  unfolding fetch store
  fetch-IsAnswered req w resp q = elim (Result-cases (query_registry s w.calls req)) [
    | inl (e, a) ↦ absurd (ground (arith, rw (a, store) at q))
    | inr (r, a) ↦ (r, a, ground (arith, rw (a, store) at q))
  ]

  look_up-IsAnswered :
      (req : ResolveRequest) (w : Resolver) (resp : ResolveResponse)
      → IsSound s ttl w
      → (look_up s req w).0 ≡ ok resp
      → IsAnswered w.calls req resp
  unfolding look_up
  look_up-IsAnswered req w resp h q = elim (Option-cases (recall (s.now w.calls) req w.cache)) [
    | inl o ↦
        let (r, a, same) = fetch-IsAnswered req (tick w) resp (rw (o, look_up) at q) in
        fresh r a same
    | inr (e, o) ↦
        let same : from_entry req e ≡ resp = ground (arith, rw (o, look_up) at q) in
        subst (IsAnswered w.calls req) same (recall-IsAnswered req w.calls w.cache e h.cached o)
  ]

  validated :
      (req : ResolveRequest) (w : Resolver) (resp : ResolveResponse)
      → (resolve s req w).0 ≡ ok resp
      → (look_up s req w).0 ≡ ok resp
  unfolding resolve validate_request
  validated req w resp q = elim (Bool-cases (is_empty req.trust_root)) [
    | inl t ↦ absurd (ground (arith, rw t at q))
    | inr a ↦ elim (Bool-cases (is_empty req.capability_node)) [
      | inl t ↦ absurd (ground (arith, rw (a, t) at q))
      | inr b ↦ elim (Bool-cases (is_empty req.agent_id)) [
        | inl t ↦ absurd (ground (arith, rw (a, b, t) at q))
        | inr c ↦ rw (a, b, c) at q
      ]
    ]
  ]

-- Whatever calls were made before, batches in any order of their goroutines, invalidations and
-- evictions among them: an answer of the resolver is the registry's result for this request at this
-- call, or the endpoint, the status and the serial that the registry gave at an earlier call for a
-- request with the same URI, of which the time to live, counted from then, is not over.
pub resolve-IsAnswered :
    (s : ResolverService) (ttl : ℕ) (ops : List ResolverOp) (req : ResolveRequest)
    (resp : ResolveResponse)
    → (resolve s req (run s ops (new_resolver ttl))).0 ≡ ok resp
    → IsAnswered s ttl (run s ops (new_resolver ttl)).calls req resp
resolve-IsAnswered s ttl ops req resp q =
    let w = run s ops (new_resolver ttl) in
    look_up-IsAnswered s ttl req w resp
      (run-IsSound s ttl ops (new_resolver ttl) (new_resolver-IsSound s ttl))
      (validated s ttl req w resp q)
