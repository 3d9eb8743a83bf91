-- ===== src/Cache.antt =====
-- internal/resolver/cache.go: the cache of resolved endpoints. The map is an association list; the
-- lock makes each call one step, and the clock is an argument.
pub mod Entries
pub mod Laws
pub mod History
mod Tests
use nexus_agent_protocol.Prelude.{
  ℕ, suc, ◌+◌, Bool, true, false, Option, none, some, List, [], ◌∷◌, Bytes, ltb, if◌then◌else◌,
  text_eq, length,
}

-- cacheEntry
pub record CacheEntry : Type 0 where
  pub endpoint : Bytes
  pub status : Bytes
  pub cert_serial : Bytes
  pub expires_at : ℕ

abbrev pub Entries : Type 0
Entries = List (Bytes × CacheEntry)

-- resolverCache
pub record ResolverCache : Type 0 where
  pub entries : Entries
  pub ttl : ℕ

-- expired
unfoldable pub expired : ℕ → CacheEntry → Bool
expired now e = ltb e.expires_at now

unfoldable pub lookup : Bytes → Entries → Option CacheEntry
lookup key [] = none
lookup key ((k, e) ∷ l) = if text_eq k key then some e else lookup key l

unfoldable pub put : Bytes → CacheEntry → Entries → Entries
put key e [] = (key, e) ∷ []
put key e ((k, f) ∷ l) =
    let rest = put key e l in if text_eq k key then (k, e) ∷ l else (k, f) ∷ rest

unfoldable pub remove : Bytes → Entries → Entries
remove key [] = []
remove key ((k, f) ∷ l) = let rest = remove key l in if text_eq k key then rest else (k, f) ∷ rest

-- newResolverCache
unfoldable pub new_resolver_cache : ℕ → ResolverCache
new_resolver_cache ttl = record { entries = []; ttl = ttl }

-- an entry that has expired is not returned
unfoldable pub unexpired : ℕ → Option CacheEntry → Option CacheEntry
unfolding expired
unexpired now none = none
unexpired now (some e) = if expired now e then none else some e

-- get
unfoldable pub get : ℕ → Bytes → ResolverCache → Option CacheEntry
unfolding lookup unexpired
get now key c = unexpired now (lookup key c.entries)

-- set
unfoldable pub set : ℕ → Bytes → Bytes → Bytes → Bytes → ResolverCache → ResolverCache
unfolding put
set now key endpoint status cert_serial c = record c {
  entries =
      put key
        record {
          endpoint = endpoint;
          status = status;
          cert_serial = cert_serial;
          expires_at = now + c.ttl;
        }
        c.entries;
}

-- invalidate
unfoldable pub invalidate : Bytes → ResolverCache → ResolverCache
unfolding remove
invalidate key c = record c { entries = remove key c.entries }

-- the loop of `evict`: the number of entries removed, and those that stay
unfoldable pub sweep : ℕ → Entries → ℕ × Entries
unfolding expired
sweep now [] = (0, [])
sweep now ((k, e) ∷ l) =
    let rest = sweep now l in
    if expired now e then (suc rest.0, rest.1) else (rest.0, (k, e) ∷ rest.1)

-- evict
unfoldable pub evict : ℕ → ResolverCache → ℕ × ResolverCache
unfolding sweep
evict now c = let rest = sweep now c.entries in (rest.0, record c { entries = rest.1 })

-- len
unfoldable pub size : ResolverCache → ℕ
size c = length c.entries
