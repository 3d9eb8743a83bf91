-- ===== src/Resolver/Fetched.antt =====
-- The resolver's cache holds what the registry answered.
use nexus_agent_protocol.Prelude.{
  ℕ, zero, suc, ◌+◌, ◌<◌, ◌≡◌, refl, Bool-cases, inl, inr, Option, none, some, Option-cases, List,
  [], ◌∷◌, Bytes, arith, ltb, length, get_elem?, is_empty, map, All, Result, ok, err,
}
use mathlib.Core.Path.{subst}
use nexus_agent_protocol.Cache.{
  CacheEntry, Entries, ResolverCache, new_resolver_cache, set, invalidate, evict,
}
use nexus_agent_protocol.Handler.Queries.{set_at}
use nexus_agent_protocol.Resolver.{
  ResolveRequest, ResolveResponse, RegistryResolveResult, GrpcError, ResolverService, Resolver,
  ResolverOp, resolving, resolving_many, forgetting, evicting, tick, new_resolver, validate_request,
  build_uri, query_registry, remember, recall, store, fetch, look_up, resolve, forget, evict_once,
  resolve_each, resolve_many, perform, run,
}
use nexus_agent_protocol.Cache.Entries.{All-put, All-remove, All-sweep, All-weaken}

abbrev pub entry_of : RegistryResolveResult → ℕ → CacheEntry
entry_of r expires_at = record {
  endpoint = r.endpoint;
  status = r.status;
  cert_serial = r.cert_serial;
  expires_at = expires_at;
}

module _ (s : ResolverService) (ttl : ℕ) where
  -- A call before the `n`-th asked the registry for a URI that has this key, and got this entry.
  pub record IsFetched (n : ℕ) (key : Bytes) (e : CacheEntry) : Type 0 where
    pub call : ℕ
    pub before : call < n
    pub request : ResolveRequest
    pub same : build_uri request ≡ key
    pub result : RegistryResolveResult
    pub answered : query_registry s call request ≡ ok result
    pub stored : entry_of result (s.now (suc call) + ttl) ≡ e

  abbrev AllFetched : ℕ → Entries → Type 0
  AllFetched n l = All (λ p. IsFetched n p.0 p.1) l

  abbrev pub IsSoundCache : ℕ → Option ResolverCache → Type 0
  IsSoundCache n none = Unit
  IsSoundCache n (some c) = (c.ttl ≡ ttl) × AllFetched n c.entries

  pub record IsSound (w : Resolver) : Type 0 where
    pub cached : IsSoundCache w.calls w.cache

  later-IsFetched :
      (n : ℕ) (key : Bytes) (e : CacheEntry) → IsFetched n key e → IsFetched (suc n) key e
  later-IsFetched n key e h = record {
    call = h.call;
    before = omega (arith, h.before);
    request = h.request;
    same = h.same;
    result = h.result;
    answered = h.answered;
    stored = h.stored;
  }

  later-IsSoundCache :
      (n : ℕ) (o : Option ResolverCache) → IsSoundCache n o → IsSoundCache (suc n) o
  later-IsSoundCache n none h = tt
  later-IsSoundCache n (some c) h = (h.0, All-weaken (λ p. later-IsFetched n p.0 p.1) c.entries h.1)

  tick-IsSound : (w : Resolver) → IsSound w → IsSound (tick w)
  tick-IsSound w h = record { cached = later-IsSoundCache w.calls w.cache h.cached }

  remember-IsSound :
      (n : ℕ) (req : ResolveRequest) (r : RegistryResolveResult) (o : Option ResolverCache)
      → query_registry s n req ≡ ok r
      → IsSoundCache (suc n) o
      → IsSoundCache (suc n) (remember (s.now (suc n)) req r o)
  unfolding remember set
  remember-IsSound n req r none q h = tt
  remember-IsSound n req r (some c) q h = (
    h.0,
    All-put (λ p. IsFetched (suc n) p.0 p.1) (build_uri req) _ c.entries
        (record {
          call = n;
          before = omega arith;
          request = req;
          same = refl;
          result = r;
          answered = q;
          stored = rw h.0 refl;
        })
        h.1,
  )

  store-IsSound :
      (n : ℕ) (req : ResolveRequest) (r : Result GrpcError RegistryResolveResult) (w : Resolver)
      → w.calls ≡ suc n
      → query_registry s n req ≡ r
      → IsSound w
      → IsSound (store s req r w).1
  unfolding store
  store-IsSound n req (err e) w k q h = h
  store-IsSound n req (ok r) w k q h = record {
    cached = rw k (remember-IsSound n req r w.cache q (rw k at h.cached));
  }

  fetch-IsSound : (req : ResolveRequest) (w : Resolver) → IsSound w → IsSound (fetch s req w).1
  unfolding fetch
  fetch-IsSound req w h = store-IsSound w.calls req _ (tick w) refl refl (tick-IsSound w h)

  look_up-IsSound : (req : ResolveRequest) (w : Resolver) → IsSound w → IsSound (look_up s req w).1
  unfolding look_up
  look_up-IsSound req w h = elim (Option-cases (recall (s.now w.calls) req w.cache)) [
    | inl q ↦ rw (q, look_up) (fetch-IsSound req (tick w) (tick-IsSound w h))
    | inr (e, q) ↦ rw (q, look_up) (tick-IsSound w h)
  ]

  resolve-IsSound : (req : ResolveRequest) (w : Resolver) → IsSound w → IsSound (resolve s req w).1
  unfolding resolve validate_request
  resolve-IsSound req w h = elim (Bool-cases (is_empty req.trust_root)) [
    | inl t ↦ rw t h
    | inr a ↦ elim (Bool-cases (is_empty req.capability_node)) [
      | inl t ↦ rw (a, t) h
      | inr b ↦ elim (Bool-cases (is_empty req.agent_id)) [
        | inl t ↦ rw (a, b, t) h
        | inr c ↦ rw (a, b, c) (look_up-IsSound req w h)
      ]
    ]
  ]

  forget-IsSound : (req : ResolveRequest) (w : Resolver) → IsSound w → IsSound (forget s req w)
  unfolding forget invalidate
  forget-IsSound req w h = elim (Option-cases w.cache) [
    | inl q ↦ rw (q, forget) h
    | inr (c, q) ↦
        let kept : IsSoundCache w.calls (some c) = subst (IsSoundCache w.calls) q h.cached in
        rw (q, forget) (record { cached = (kept.0, All-remove _ (build_uri req) c.entries kept.1) })
  ]

  evict-IsSound : (w : Resolver) → IsSound w → IsSound (evict_once s w)
  unfolding evict_once evict
  evict-IsSound w h = elim (Option-cases w.cache) [
    | inl q ↦ rw (q, evict_once) h
    | inr (c, q) ↦
        let kept : IsSoundCache (suc w.calls) (some c) =
          subst (IsSoundCache (suc w.calls)) q (tick-IsSound w h).cached in
        rw (q, evict_once)
          (record { cached = (kept.0, All-sweep _ (s.now w.calls) c.entries kept.1) })
  ]

  resolve_each-IsSound :
      (order : List ℕ) (reqs : List ResolveRequest)
      (results : List (Option (Result GrpcError ResolveResponse))) (w : Resolver)
      → IsSound w
      → IsSound (resolve_each s order reqs results w).1
  unfolding resolve_each
  resolve_each-IsSound [] reqs results w h = h
  resolve_each-IsSound (i ∷ order) reqs results w h = elim (Option-cases (get_elem? reqs i)) [
    | inl q ↦ rw (q, resolve_each) (resolve_each-IsSound order reqs results w h)
    | inr (req, q) ↦
        rw (q, resolve_each)
          (resolve_each-IsSound order reqs (set_at i (some (resolve s req w).0) results)
            (resolve s req w).1 (resolve-IsSound req w h))
  ]

  resolve_many-IsSound :
      (order : List ℕ) (reqs : List ResolveRequest) (w : Resolver)
      → IsSound w
      → IsSound (resolve_many s order reqs w).1
  unfolding resolve_many
  resolve_many-IsSound order reqs w h = elim (Bool-cases (ltb 100 (length reqs))) [
    | inl t ↦ rw t h
    | inr n ↦ rw n (resolve_each-IsSound order reqs (map (λ r. none) reqs) w h)
  ]

  perform-IsSound : (o : ResolverOp) (w : Resolver) → IsSound w → IsSound (perform s o w)
  unfolding perform
  perform-IsSound (resolving req) w h = resolve-IsSound req w h
  perform-IsSound (resolving_many order reqs) w h = resolve_many-IsSound order reqs w h
  perform-IsSound (forgetting req) w h = forget-IsSound req w h
  perform-IsSound evicting w h = evict-IsSound w h

  pub run-IsSound : (ops : List ResolverOp) (w : Resolver) → IsSound w → IsSound (run s ops w)
  unfolding run
  run-IsSound [] w h = h
  run-IsSound (o ∷ ops) w h = run-IsSound ops (perform s o w) (perform-IsSound o w h)

pub new_resolver-IsSound : (s : ResolverService) (ttl : ℕ) → IsSound s ttl (new_resolver ttl)
unfolding new_resolver new_resolver_cache
new_resolver-IsSound s zero = record { cached = tt }
new_resolver-IsSound s (suc ttl) = record { cached = (refl, tt) }
