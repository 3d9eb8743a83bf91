-- ===== src/Dns/Verified.antt =====
-- What a verified domain rests on.
use nexus_agent_protocol.Prelude.{
  ℕ, suc, ◌≡◌, refl, IsIn, Bool, true, false, ◌&&◌, Bool-cases, inl, inr, Option, some,
  Option-cases, List, [], ◌∷◌, Bytes, arith, ltb, leb, text_eq, text_eq_sound, some_of, first, keep,
  All, ok,
}
use mathlib.Core.Path.{subst}
use nexus_agent_protocol.Repository.Order.{sort, shuffle, All-sort, All-shuffle}
use nexus_agent_protocol.Dns.{
  Challenge, Challenges, DnsService, DnsOp, txt_host, record_of, publishes, call,
  find_verified_by_domain, is_domain_verified, run,
}
use nexus_agent_protocol.Dns.Sound.{WasSeen, IsSound, run_sound}

head-All :
    {A : Type 0} (P : A → Type 0) (l : List A) (x : A)
    → All P l
    → first (λ y. true) l ≡ some x
    → P x
head-All P [] x h q = absurd (ground (arith, q))
head-All P (y ∷ l) x h q = let same : y ≡ x = ground (arith, q) in subst P same h.0

module _ (s : DnsService) where
  -- a row that the query keeps is stored, sound and passes the test
  keep-stored :
      (p : Challenge → Bool) (all rows : List Challenge)
      → ((c : Challenge) → IsIn c rows → IsIn c all)
      → All (IsSound s) rows
      → All (λ c. IsIn c all × IsSound s c × (p c ≡ true)) (keep p rows)
  keep-stored p all [] into h = tt
  keep-stored p all (x ∷ rows) into h = elim (Bool-cases (p x)) [
    | inl t ↦ rw t ((into x (inl refl), h.0, t), keep-stored p all rows (λ c m. into c (inr m)) h.1)
    | inr n ↦ rw n (keep-stored p all rows (λ c m. into c (inr m)) h.1)
  ]

  abbrev newest_verified : (ℕ → ℕ) → Bytes → List Challenge → Option Challenge
  newest_verified order domain rows =
      first (λ x. true)
        (sort (λ a b. leb b.created_at a.created_at)
          (shuffle order (keep (λ x. text_eq x.domain domain && x.verified) rows)))

  found-IsSound :
      (order : ℕ → ℕ) (domain : Bytes) (rows : List Challenge) (c : Challenge)
      → All (IsSound s) rows
      → newest_verified order domain rows ≡ some c
      → IsIn c rows × IsSound s c × ((text_eq c.domain domain && c.verified) ≡ true)
  found-IsSound order domain rows c h q =
      let asked = λ (x : Challenge). text_eq x.domain domain && x.verified in
      head-All _ _ c
        (All-sort (λ x. IsIn x rows × IsSound s x × (asked x ≡ true)) _ _
          (All-shuffle _ order _ (keep-stored asked rows rows (λ x m. m) h)))
        q

  -- What a verified domain rests on: a challenge of the domain, stored as verified, whose record was
  -- read in the DNS at a time that was not after its expiry.
  pub record IsProved (domain : Bytes) (w : Challenges) : Type 0 where
    pub challenge : Challenge
    pub is_stored : IsIn challenge w.rows
    pub of_domain : challenge.domain ≡ domain
    pub is_verified : challenge.verified ≡ true
    pub when : ℕ
    pub in_time : ltb challenge.expires_at (s.env.now when) ≡ false
    pub published :
        (txts : List Bytes) × (s.lookup_txt when (txt_host domain) ≡ some txts)
        × (some_of (λ t. text_eq t (record_of challenge.token)) txts ≡ true)

  IsProved-by :
      (domain : Bytes) (c : Challenge) (w : Challenges)
      → IsIn c w.rows
      → c.txt_record ≡ record_of c.token
      → c.domain ≡ domain
      → c.verified ≡ true
      → WasSeen s c
      → IsProved domain w
  unfolding publishes
  IsProved-by domain c w stored text same done seen =
      elim (Option-cases (s.lookup_txt seen.when (txt_host c.domain))) [
        | inl q ↦ absurd (ground (arith, rw q at seen.seen))
        | inr (txts, q) ↦ record {
          challenge = c;
          is_stored = stored;
          of_domain = same;
          is_verified = done;
          when = seen.when;
          in_time = seen.in_time;
          published = (txts, rw same at q, rw (q, text) at seen.seen);
        }
      ]

  abbrev pub no_challenges : ℕ → Challenges
  no_challenges n = record { rows = []; calls = n }

  -- Whatever calls of the service were made since the table was empty, and whatever the database and
  -- the DNS answered: if the service then calls a domain verified, the table holds a verified
  -- challenge of the domain whose record was in the DNS at a time that was not after the expiry of the
  -- challenge.
  pub domain_verified-IsProved :
      (ops : List DnsOp) (n : ℕ) (domain : Bytes)
      → (is_domain_verified s domain (run s ops (no_challenges n))).0 ≡ ok true
      → IsProved domain (run s ops (no_challenges n))
  unfolding is_domain_verified find_verified_by_domain call
  domain_verified-IsProved ops n domain q =
      let w = run s ops (no_challenges n) in
      elim (Bool-cases (s.env.fault w.calls)) [
        | inl t ↦ absurd (ground (arith, rw t at q))
        | inr f ↦ elim (Option-cases (newest_verified (s.env.order (suc w.calls)) domain w.rows)) [
          | inl e ↦ absurd (ground (arith, rw (f, e) at q))
          | inr (c, e) ↦
              let (stored, sound, passes) =
                found-IsSound (s.env.order (suc w.calls)) domain w.rows c
                  (run_sound s ops (no_challenges n) tt) e in
              IsProved-by domain c w stored sound.text
                (text_eq_sound c.domain domain (ground (arith, passes))) (ground (arith, passes))
                (sound.seen_if (ground (arith, passes)))
        ]
      ]
