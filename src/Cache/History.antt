-- ===== src/Cache/History.antt =====
-- What the cache answers after any sequence of calls.
use nexus_agent_protocol.Prelude.{
  ℕ, ◌+◌, ◌≤◌, ◌≡◌, refl, sym, ap, ◌∙◌, Bool-cases, inl, inr, Option, none, some, List, [], ◌∷◌,
  Bytes, ltb, if◌then◌else◌, text_eq, text_eq_sound,
}
use nexus_agent_protocol.Cache.{
  CacheEntry, Entries, ResolverCache, new_resolver_cache, expired, lookup, put, remove, unexpired,
  get, set, invalidate, evict,
}
use nexus_agent_protocol.Cache.Laws.{
  IsMap, entry, lookup-put, lookup-put_other, lookup-remove, lookup-remove_other, unexpired-sweep,
  put-IsMap, remove-IsMap, sweep-IsMap,
}

-- the calls that change the cache, with the time of the clock
pub data CacheOp : Type 0 where
  setting : ℕ → Bytes → Bytes → Bytes → Bytes → CacheOp
  invalidating : Bytes → CacheOp
  evicting : ℕ → CacheOp

unfoldable pub change : CacheOp → ResolverCache → ResolverCache
change (setting now key endpoint status serial) c = set now key endpoint status serial c
change (invalidating key) c = invalidate key c
change (evicting now) c = (evict now c).1

-- a new cache after the calls, the last one first
unfoldable pub after : ℕ → List CacheOp → ResolverCache
unfolding change
after ttl [] = new_resolver_cache ttl
after ttl (o ∷ ops) = change o (after ttl ops)

-- What the calls, the last one first, leave for a key: what was stored last, if it was not
-- invalidated since.
abbrev pub latest : ℕ → Bytes → List CacheOp → Option CacheEntry
latest ttl key [] = none
latest ttl key (setting now k endpoint status serial ∷ ops) =
    if text_eq k key then some (entry endpoint status serial (now + ttl)) else latest ttl key ops
latest ttl key (invalidating k ∷ ops) = if text_eq k key then none else latest ttl key ops
latest ttl key (evicting now ∷ ops) = latest ttl key ops

-- what was stored, until its time to live is over
abbrev pub while_fresh : ℕ → Option CacheEntry → Option CacheEntry
while_fresh t none = none
while_fresh t (some e) = if ltb e.expires_at t then none else some e

-- no eviction is later than the time
abbrev pub EvictedBy : ℕ → List CacheOp → Type 0
EvictedBy t [] = Unit
EvictedBy t (evicting now ∷ ops) = (now ≤ t) × EvictedBy t ops
EvictedBy t (_ ∷ ops) = EvictedBy t ops

after-ttl : (ttl : ℕ) (ops : List CacheOp) → (after ttl ops).ttl ≡ ttl
unfolding after change set invalidate evict new_resolver_cache
after-ttl ttl [] = refl
after-ttl ttl (setting now k e st sr ∷ ops) = after-ttl ttl ops
after-ttl ttl (invalidating k ∷ ops) = after-ttl ttl ops
after-ttl ttl (evicting now ∷ ops) = after-ttl ttl ops

after-IsMap : (ttl : ℕ) (ops : List CacheOp) → IsMap (after ttl ops).entries
unfolding after change set invalidate evict new_resolver_cache
after-IsMap ttl [] = tt
after-IsMap ttl (setting now k e st sr ∷ ops) = put-IsMap k _ _ (after-IsMap ttl ops)
after-IsMap ttl (invalidating k ∷ ops) = remove-IsMap k _ (after-IsMap ttl ops)
after-IsMap ttl (evicting now ∷ ops) = sweep-IsMap now _ (after-IsMap ttl ops)

unexpired-eq : (t : ℕ) (o : Option CacheEntry) → unexpired t o ≡ while_fresh t o
unfolding unexpired expired
unexpired-eq t none = refl
unexpired-eq t (some e) = refl

set-get :
    (t now : ℕ) (k key endpoint status serial : Bytes) (c : ResolverCache) (o : Option CacheEntry)
    → unexpired t (lookup key c.entries) ≡ while_fresh t o
    → unexpired t (lookup key (set now k endpoint status serial c).entries)
      ≡ while_fresh t
          (if text_eq k key then some (entry endpoint status serial (now + c.ttl)) else o)
unfolding set
set-get t now k key endpoint status serial c o h = elim (Bool-cases (text_eq k key)) [
  | inl q ↦ rw q (
      ap
        (λ x. unexpired t (lookup x (put k (entry endpoint status serial (now + c.ttl)) c.entries)))
        (sym (text_eq_sound k key q))
      ∙ ap (unexpired t) (lookup-put k _ c.entries)
      ∙ unexpired-eq t _)
  | inr n ↦ rw n (ap (unexpired t) (lookup-put_other k key _ c.entries n) ∙ h)
]

remove-get :
    (t : ℕ) (k key : Bytes) (l : Entries) (o : Option CacheEntry)
    → unexpired t (lookup key l) ≡ while_fresh t o
    → unexpired t (lookup key (remove k l)) ≡ while_fresh t (if text_eq k key then none else o)
remove-get t k key l o h = elim (Bool-cases (text_eq k key)) [
  | inl q ↦ rw q (
      ap (λ x. unexpired t (lookup x (remove k l))) (sym (text_eq_sound k key q))
      ∙ ap (unexpired t) (lookup-remove k l)
      ∙ unexpired-eq t none)
  | inr n ↦ rw n (ap (unexpired t) (lookup-remove_other k key l n) ∙ h)
]

-- After any sequence of calls on a new cache, of which no eviction is later than the time of the
-- question, a key is answered with what was stored for it last, if that was not invalidated since and
-- its time to live is not over, and with nothing otherwise; evictions make no difference.
pub get-after :
    (ttl t : ℕ) (key : Bytes) (ops : List CacheOp)
    → EvictedBy t ops
    → get t key (after ttl ops) ≡ while_fresh t (latest ttl key ops)
unfolding get after change invalidate evict new_resolver_cache
get-after ttl t key [] h = unexpired-eq t none
get-after ttl t key (setting now k e st sr ∷ ops) h =
    set-get t now k key e st sr (after ttl ops) (latest ttl key ops) (get-after ttl t key ops h)
    ∙ ap
        (λ n.
          while_fresh t
            (if text_eq k key then some (entry e st sr (now + n)) else latest ttl key ops))
        (after-ttl ttl ops)
get-after ttl t key (invalidating k ∷ ops) h =
    remove-get t k key (after ttl ops).entries (latest ttl key ops) (get-after ttl t key ops h)
get-after ttl t key (evicting now ∷ ops) h =
    unexpired-sweep now t key (after ttl ops).entries h.0 (after-IsMap ttl ops)
    ∙ get-after ttl t key ops h.1
