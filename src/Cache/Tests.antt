-- ===== src/Cache/Tests.antt =====
-- The cache with two entries, and its theorems there.
use nexus_agent_protocol.Prelude.{
  List, ◌+◌, ◌≡◌, refl, false, [], ◌∷◌, arith, Bytes, codes, text_eq,
}
use nexus_agent_protocol.Cache.{ResolverCache, put, new_resolver_cache, get, set, evict, size}
use nexus_agent_protocol.Cache.History.{
  CacheOp, setting, invalidating, evicting, after, latest, while_fresh, get-after,
}
use nexus_agent_protocol.Cache.Laws.{IsMap, entry, get-evict}

abbrev a : Bytes
a = codes "a"

abbrev b : Bytes
b = codes "b"

abbrev two : ResolverCache
two = record { entries = (a, entry [] [] [] 10) ∷ (b, entry [] [] [] 20) ∷ []; ttl = 10 }

built : set 10 b [] [] [] (set 0 a [] [] [] (new_resolver_cache 10)) ≡ two
unfolding set put new_resolver_cache text_eq
built = refl

distinct_keys : text_eq a b ≡ false
unfolding text_eq
distinct_keys = refl

two-IsMap : IsMap two.entries
unfolding text_eq
two-IsMap = ((refl, tt), (tt, tt))

get-evict_example :
    (get 16 b (evict 15 two).1 ≡ get 16 b two)
    × ((evict 15 two).0 + size (evict 15 two).1 ≡ size two)
get-evict_example = get-evict 15 16 b two (omega arith) two-IsMap

abbrev calls : List CacheOp
calls = invalidating b ∷ evicting 5 ∷ setting 3 a (codes "x") [] [] ∷ setting 1 a [] [] [] ∷ []

get-after_example : get 12 a (after 10 calls) ≡ while_fresh 12 (latest 10 a calls)
get-after_example = get-after 10 12 a calls (omega arith, tt)
