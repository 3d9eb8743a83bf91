-- ===== src/Cache/Entries.antt =====
-- Properties of the entries that the calls of the cache preserve.
use nexus_agent_protocol.Prelude.{
  ℕ, ◌≡◌, sym, false, Bool-cases, inl, inr, Option, none, some, List, [], ◌∷◌, Bytes, arith, ltb,
  text_eq, text_eq_sound, All,
}
use mathlib.Core.Path.{subst}
use nexus_agent_protocol.Cache.{CacheEntry, Entries, expired, lookup, put, remove, unexpired, sweep}

module _ (P : Bytes × CacheEntry → Type 0) where
  pub All-put :
      (key : Bytes) (e : CacheEntry) (l : Entries) → P (key, e) → All P l → All P (put key e l)
  unfolding put
  All-put key e [] p h = (p, tt)
  All-put key e ((k, f) ∷ l) p h = elim (Bool-cases (text_eq k key)) [
    | inl t ↦ rw t (subst (λ j. P (j, e)) (sym (text_eq_sound k key t)) p, h.1)
    | inr n ↦ rw n (h.0, All-put key e l p h.1)
  ]

  pub All-remove : (key : Bytes) (l : Entries) → All P l → All P (remove key l)
  unfolding remove
  All-remove key [] h = tt
  All-remove key ((k, f) ∷ l) h = elim (Bool-cases (text_eq k key)) [
    | inl t ↦ rw t (All-remove key l h.1)
    | inr n ↦ rw n (h.0, All-remove key l h.1)
  ]

  pub All-sweep : (now : ℕ) (l : Entries) → All P l → All P (sweep now l).1
  unfolding sweep
  All-sweep now [] h = tt
  All-sweep now ((k, f) ∷ l) h = elim (Bool-cases (expired now f)) [
    | inl t ↦ rw t (All-sweep now l h.1)
    | inr n ↦ rw n (h.0, All-sweep now l h.1)
  ]

  pub lookup-All :
      (key : Bytes) (e : CacheEntry) (l : Entries) → All P l → lookup key l ≡ some e → P (key, e)
  unfolding lookup
  lookup-All key e [] h q = absurd (ground (arith, q))
  lookup-All key e ((k, f) ∷ l) h q = elim (Bool-cases (text_eq k key)) [
    | inl t ↦
        let same : f ≡ e = ground (arith, rw t at q) in
        subst (λ g. P (key, g)) same (subst (λ j. P (j, f)) (text_eq_sound k key t) h.0)
    | inr n ↦ lookup-All key e l h.1 (rw n at q)
  ]

pub All-weaken :
    {A : Type 0} {P Q : A → Type 0} → ((x : A) → P x → Q x) → (l : List A) → All P l → All Q l
All-weaken f [] h = tt
All-weaken f (x ∷ l) h = (f x h.0, All-weaken f l h.1)

pub unexpired-some :
    (now : ℕ) (o : Option CacheEntry) (e : CacheEntry)
    → unexpired now o ≡ some e
    → (o ≡ some e) × (ltb e.expires_at now ≡ false)
unfolding unexpired expired
unexpired-some now none e q = absurd (ground (arith, q))
unexpired-some now (some f) e q = elim (Bool-cases (ltb f.expires_at now)) [
  | inl t ↦ absurd (ground (arith, rw t at q))
  | inr n ↦
      let same : some f ≡ some e = rw n at q in
      let entry : f ≡ e = ground (arith, same) in
      (same, subst (λ g. ltb g.expires_at now ≡ false) entry n)
]
