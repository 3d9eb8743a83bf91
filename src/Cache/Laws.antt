-- ===== src/Cache/Laws.antt =====
-- What the cache returns after each call that changes it.
use nexus_agent_protocol.Prelude.{
  ℕ, ◌+◌, ◌≤◌, ◌≡◌, refl, ap, inl, inr, false, Bool-cases, none, some, [], ◌∷◌, arith, Bytes, ltb,
  if◌then◌else◌, text_eq, text_eq_sound, text_eq_refl, length, All,
}
use nexus_agent_protocol.Cache.{
  CacheEntry, Entries, ResolverCache, expired, lookup, put, remove, unexpired, get, set, sweep,
  evict, size,
}

abbrev Absent : Bytes → Entries → Type 0
Absent key l = All (λ p. text_eq p.0 key ≡ false) l

-- The keys of a map are distinct.
abbrev pub IsMap : Entries → Type 0
IsMap [] = Unit
IsMap ((k, e) ∷ l) = Absent k l × IsMap l

pub lookup-put : (key : Bytes) (e : CacheEntry) (l : Entries) → lookup key (put key e l) ≡ some e
unfolding lookup put
lookup-put key e [] = ground (arith, text_eq_refl key)
lookup-put key e ((k, f) ∷ l) = ground (arith, lookup-put key e l)

pub lookup-put_other :
    (key other : Bytes) (e : CacheEntry) (l : Entries)
    → text_eq key other ≡ false
    → lookup other (put key e l) ≡ lookup other l
unfolding lookup put
lookup-put_other key other e [] ne = ground (arith, ne)
lookup-put_other key other e ((k, f) ∷ l) ne = elim (Bool-cases (text_eq k key)) [
  | inl t ↦ ground (arith, text_eq_sound k key t, ne)
  | inr n ↦ ground (arith, lookup-put_other key other e l ne)
]

pub lookup-remove : (key : Bytes) (l : Entries) → lookup key (remove key l) ≡ none
unfolding lookup remove
lookup-remove key [] = refl
lookup-remove key ((k, f) ∷ l) = ground (arith, lookup-remove key l)

pub lookup-remove_other :
    (key other : Bytes) (l : Entries)
    → text_eq key other ≡ false
    → lookup other (remove key l) ≡ lookup other l
unfolding lookup remove
lookup-remove_other key other [] ne = refl
lookup-remove_other key other ((k, f) ∷ l) ne = elim (Bool-cases (text_eq k key)) [
  | inl t ↦ ground (arith, text_eq_sound k key t, ne, lookup-remove_other key other l ne)
  | inr n ↦ ground (arith, lookup-remove_other key other l ne)
]

lookup-Absent :
    (now : ℕ) (key : Bytes) (l : Entries) → Absent key l → lookup key (sweep now l).1 ≡ none
unfolding lookup sweep
lookup-Absent now key [] h = refl
lookup-Absent now key ((k, e) ∷ l) h = ground (arith, h.0, lookup-Absent now key l h.1)

pub unexpired-sweep :
    (now t : ℕ) (key : Bytes) (l : Entries)
    → now ≤ t
    → IsMap l
    → unexpired t (lookup key (sweep now l).1) ≡ unexpired t (lookup key l)
unfolding lookup sweep unexpired expired
unexpired-sweep now t key [] h m = refl
unexpired-sweep now t key ((k, e) ∷ l) h m = elim (Bool-cases (text_eq k key)) [
  | inl q ↦
      let absent = lookup-Absent now key l (rw (text_eq_sound k key q) at m.0) in
      ground (arith, absent)
  | inr n ↦ ground (arith, unexpired-sweep now t key l h m.1)
]

swept : (now : ℕ) (l : Entries) → (sweep now l).0 + length (sweep now l).1 ≡ length l
unfolding sweep
swept now [] = refl
swept now ((k, e) ∷ l) = ground (arith, swept now l)

abbrev pub entry : Bytes → Bytes → Bytes → ℕ → CacheEntry
entry endpoint status serial expires_at = record {
  endpoint = endpoint;
  status = status;
  cert_serial = serial;
  expires_at = expires_at;
}

-- What was stored is returned until its time to live is over, whatever was there, and each other key
-- is answered as before.
pub get-set :
    (now t : ℕ) (key other endpoint status serial : Bytes) (c : ResolverCache)
    → text_eq key other ≡ false
    → (get t key (set now key endpoint status serial c)
        ≡ (if ltb (now + c.ttl) t then none else some (entry endpoint status serial (now + c.ttl))))
      × (get t other (set now key endpoint status serial c) ≡ get t other c)
unfolding get set unexpired expired
get-set now t key other endpoint status serial c ne =
    let e = entry endpoint status serial (now + c.ttl) in
    (
      rw (lookup-put key e c.entries) refl,
      ap (unexpired t) (lookup-put_other key other e c.entries ne),
    )

-- An eviction is never noticed: at that time and later each key is answered as without it; and the
-- number it returns is the number of entries that are gone. The keys are assumed to be distinct, as
-- in a map.
pub get-evict :
    (now t : ℕ) (key : Bytes) (c : ResolverCache)
    → now ≤ t
    → IsMap c.entries
    → (get t key (evict now c).1 ≡ get t key c) × ((evict now c).0 + size (evict now c).1 ≡ size c)
unfolding get evict size
get-evict now t key c h m = (unexpired-sweep now t key c.entries h m, swept now c.entries)

Absent-put :
    (k key : Bytes) (e : CacheEntry) (l : Entries)
    → text_eq key k ≡ false
    → Absent k l
    → Absent k (put key e l)
unfolding put
Absent-put k key e [] ne h = (ne, tt)
Absent-put k key e ((j, f) ∷ l) ne h = elim (Bool-cases (text_eq j key)) [
  | inl t ↦ rw t h
  | inr n ↦ rw n (h.0, Absent-put k key e l ne h.1)
]

Absent-remove : (k key : Bytes) (l : Entries) → Absent k l → Absent k (remove key l)
unfolding remove
Absent-remove k key [] h = tt
Absent-remove k key ((j, f) ∷ l) h = elim (Bool-cases (text_eq j key)) [
  | inl t ↦ rw t (Absent-remove k key l h.1)
  | inr n ↦ rw n (h.0, Absent-remove k key l h.1)
]

Absent-sweep : (now : ℕ) (k : Bytes) (l : Entries) → Absent k l → Absent k (sweep now l).1
unfolding sweep
Absent-sweep now k [] h = tt
Absent-sweep now k ((j, f) ∷ l) h = elim (Bool-cases (expired now f)) [
  | inl t ↦ rw t (Absent-sweep now k l h.1)
  | inr n ↦ rw n (h.0, Absent-sweep now k l h.1)
]

text_eq-sym : (s t : Bytes) → text_eq s t ≡ false → text_eq t s ≡ false
text_eq-sym s t h = elim (Bool-cases (text_eq t s)) [
  | inl q ↦ absurd (ground (arith, text_eq_sound t s q, text_eq_refl s))
  | inr n ↦ n
]

pub put-IsMap : (key : Bytes) (e : CacheEntry) (l : Entries) → IsMap l → IsMap (put key e l)
unfolding put
put-IsMap key e [] h = (tt, tt)
put-IsMap key e ((j, f) ∷ l) h = elim (Bool-cases (text_eq j key)) [
  | inl t ↦ rw t h
  | inr n ↦ rw n (Absent-put j key e l (text_eq-sym j key n) h.0, put-IsMap key e l h.1)
]

pub remove-IsMap : (key : Bytes) (l : Entries) → IsMap l → IsMap (remove key l)
unfolding remove
remove-IsMap key [] h = tt
remove-IsMap key ((j, f) ∷ l) h = elim (Bool-cases (text_eq j key)) [
  | inl t ↦ rw t (remove-IsMap key l h.1)
  | inr n ↦ rw n (Absent-remove j key l h.0, remove-IsMap key l h.1)
]

pub sweep-IsMap : (now : ℕ) (l : Entries) → IsMap l → IsMap (sweep now l).1
unfolding sweep
sweep-IsMap now [] h = tt
sweep-IsMap now ((j, f) ∷ l) h = elim (Bool-cases (expired now f)) [
  | inl t ↦ rw t (sweep-IsMap now l h.1)
  | inr n ↦ rw n (Absent-sweep now j l h.0, sweep-IsMap now l h.1)
]
