-- ===== src/Dns/Sound.antt =====
-- The rows of the challenges: a verified one was seen in the DNS.
use nexus_agent_protocol.Prelude.{
  ℕ, ◌≡◌, refl, sym, Bool, true, false, Bool-cases, inl, inr, Option, none, some, Option-cases,
  List, [], ◌∷◌, Bytes, arith, if◌then◌else◌, ◌==◌, ltb, is_empty, some_of, first, keep, All,
  All-append, ok, err,
}
use mathlib.Core.Path.{subst}
use nexus_agent_protocol.Action.{pure, ◌>>◌}
use nexus_agent_protocol.Dns.{
  Challenge, DnsError, db_error, expired, verification_failed, Challenges, DnsService, D, DnsOp,
  starting, verifying, pruning, tick, found_or, add_row, txt_host, has_id, record_of, publishes,
  mark, call, insert, get_by_id, mark_verified, new_challenge, start_challenge, verify,
  check_expiry, verify_challenge, delete_expired, perform, run,
}
use nexus_agent_protocol.Action.Preserves.{
  Preserves, Preserves-pure, Preserves-fail, Preserves-if, kept_then,
}

module _ (s : DnsService) where
  -- before its expiry, the challenge's record was seen in the DNS of its domain
  pub record WasSeen (c : Challenge) : Type 0 where
    pub when : ℕ
    pub in_time : ltb c.expires_at (s.env.now when) ≡ false
    pub seen : publishes c (s.lookup_txt when (txt_host c.domain)) ≡ true

  -- a row holds the record of its token, and if it is verified it was seen
  pub record IsSound (c : Challenge) : Type 0 where
    pub text : c.txt_record ≡ record_of c.token
    pub seen_if : c.verified ≡ true → WasSeen c

  abbrev AllSound : Challenges → Type 0
  AllSound w = All IsSound w.rows

  marked_seen : (c : Challenge) → WasSeen c → WasSeen (record c { verified = true })
  unfolding publishes
  marked_seen c h = record { when = h.when; in_time = h.in_time; seen = h.seen }

  first-All :
      (id : ℕ) (rows : List Challenge) (c : Challenge)
      → All IsSound rows
      → first (has_id id) rows ≡ some c
      → IsSound c
  first-All id [] c h q = absurd (ground (arith, q))
  first-All id (x ∷ rows) c h q = elim (Bool-cases (x.id == id)) [
    | inl t ↦ let same : x ≡ c = ground (arith, q, t) in subst IsSound same h.0
    | inr n ↦ first-All id rows c h.1 (ground (arith, q, n))
  ]

  mark-All :
      (id : ℕ) (rows : List Challenge) (c : Challenge)
      → All IsSound rows
      → first (has_id id) rows ≡ some c
      → WasSeen c
      → All IsSound (mark id rows)
  unfolding mark
  mark-All id [] c h q seen = tt
  mark-All id (x ∷ rows) c h q seen = elim (Bool-cases (x.id == id)) [
    | inl t ↦
        let same : x ≡ c = ground (arith, q, t) in
        rw t (
          record { text = h.0.text; seen_if = λ v. marked_seen x (subst WasSeen (sym same) seen) },
          h.1,
        )
    | inr n ↦ rw n (h.0, mark-All id rows c h.1 (ground (arith, q, n)) seen)
  ]

  keep-All :
      (p : Challenge → Bool) (rows : List Challenge) → All IsSound rows → All IsSound (keep p rows)
  keep-All p [] h = tt
  keep-All p (x ∷ rows) h = elim (Bool-cases (p x)) [
    | inl t ↦ rw t (h.0, keep-All p rows h.1)
    | inr n ↦ rw n (keep-All p rows h.1)
  ]

  call-Preserves : {X : Type 0} {m : D X} → Preserves AllSound m → Preserves AllSound (call s m)
  unfolding call
  call-Preserves {X} {m} hm = record { keeps = λ w h. called w (s.env.fault w.calls) h }
    where
      called :
          (w : Challenges) (b : Bool)
          → AllSound w
          → AllSound (if b then (err db_error, tick w) else m (tick w)).1
      called w true h = h
      called w false h = hm.keeps (tick w) h

  found_state : {X : Type 0} (e : DnsError) (o : Option X) (w : Challenges) → (found_or e o w).1 ≡ w
  found_state e none w = refl
  found_state e (some x) w = refl

  found-Preserves : {X : Type 0} (e : DnsError) (o : Option X) → Preserves AllSound (found_or e o)
  found-Preserves e none = Preserves-fail AllSound e
  found-Preserves e (some x) = Preserves-pure AllSound x

  mark_verified_sound :
      (id : ℕ) (c : Challenge) (w : Challenges)
      → AllSound w
      → first (has_id id) w.rows ≡ some c
      → WasSeen c
      → AllSound (mark_verified s id w).1
  unfolding mark_verified call
  mark_verified_sound id c w h q seen = elim (Bool-cases (s.env.fault w.calls)) [
    | inl t ↦ rw t h
    | inr n ↦ elim (Bool-cases (some_of (has_id id) w.rows)) [
      | inl t ↦ rw (n, t) (mark-All id w.rows c h q seen)
      | inr m ↦ rw (n, m) h
    ]
  ]

  check_late :
      (c : Challenge) (w : Challenges)
      → ltb c.expires_at (s.env.now w.calls) ≡ true
      → check_expiry s c w ≡ (err expired, w)
  unfolding check_expiry
  check_late c w t = rw t refl

  check_early :
      (c : Challenge) (w : Challenges)
      → ltb c.expires_at (s.env.now w.calls) ≡ false
      → check_expiry s c w ≡ (ok tt, w)
  unfolding check_expiry
  check_early c w n = rw n refl

  verify_seen :
      (c : Challenge) (w : Challenges)
      → ltb c.expires_at (s.env.now w.calls) ≡ false
      → publishes c (s.lookup_txt w.calls (txt_host c.domain)) ≡ true
      → verify s c w ≡ (ok tt, w)
  unfolding verify
  verify_seen c w n t = rw (n, t) refl

  verify_unseen :
      (c : Challenge) (w : Challenges)
      → ltb c.expires_at (s.env.now w.calls) ≡ false
      → publishes c (s.lookup_txt w.calls (txt_host c.domain)) ≡ false
      → verify s c w ≡ (err verification_failed, w)
  unfolding verify
  verify_unseen c w n t = rw (n, t) refl

  -- what follows the check of `verified`
  confirm_sound :
      (id : ℕ) (c : Challenge) (w : Challenges)
      → AllSound w
      → first (has_id id) w.rows ≡ some c
      → AllSound
          ((check_expiry s c
              >> (verify s c >> (mark_verified s id >> pure (record c { verified = true }))))
            w).1
  confirm_sound id c w h q = elim (Bool-cases (ltb c.expires_at (s.env.now w.calls))) [
    | inl t ↦ rw (check_late c w t) h
    | inr n ↦ elim (Bool-cases (publishes c (s.lookup_txt w.calls (txt_host c.domain)))) [
      | inl t ↦
          rw (check_early c w n, verify_seen c w n t)
            (kept_then {P = AllSound} (λ _. pure (record c { verified = true }))
              (mark_verified s id w).0 (mark_verified s id w).1
              (mark_verified_sound id c w h q (record { when = w.calls; in_time = n; seen = t }))
              λ _. Preserves-pure AllSound _)
      | inr m ↦ rw (check_early c w n, verify_unseen c w n m) h
    ]
  ]

  verify_challenge_sound :
      (id : ℕ) (w : Challenges) → AllSound w → AllSound (verify_challenge s id w).1
  unfolding verify_challenge get_by_id call verify check_expiry publishes
  verify_challenge_sound id w h = elim (Bool-cases (s.env.fault w.calls)) [
    | inl t ↦ rw t h
    | inr n ↦ elim (Option-cases (first (has_id id) w.rows)) [
      | inl q ↦ rw (n, q) h
      | inr (c, q) ↦ elim (Bool-cases c.verified) [
        | inl t ↦ rw (n, q, t) h
        | inr m ↦ rw (n, q, m) (confirm_sound id c (tick w) h q)
      ]
    ]
  ]

  insert_sound : (c : Challenge) → IsSound c → Preserves AllSound (insert s c)
  unfolding insert add_row
  insert_sound c hc = record {
    keeps = λ w.
        (call-Preserves (
            Preserves-if (some_of (has_id c.id) w.rows) (Preserves-fail AllSound db_error)
              (record { keeps = λ v h. All-append IsSound v.rows (c ∷ []) h (hc, tt) }))).keeps
          w;
  }

  start_sound :
      (domain : Bytes) (w : Challenges) → AllSound w → AllSound (start_challenge s domain w).1
  unfolding start_challenge new_challenge
  start_sound domain w h = elim (Bool-cases (is_empty domain)) [
    | inl t ↦ rw t h
    | inr n ↦ elim (Option-cases (s.generate_token w.calls)) [
      | inl q ↦ rw (n, q) h
      | inr (token, q) ↦
          rw (n, q)
            ((insert_sound _
                (record { text = refl; seen_if = λ v. absurd (ground (arith, v)) })).keeps
              w h)
    ]
  ]

  prune_sound : Preserves AllSound (delete_expired s)
  unfolding delete_expired
  prune_sound = call-Preserves (record { keeps = λ w h. keep-All _ w.rows h })

  perform_sound : (o : DnsOp) (w : Challenges) → AllSound w → AllSound (perform s o w)
  unfolding perform
  perform_sound (starting domain) w h = start_sound domain w h
  perform_sound (verifying id) w h = verify_challenge_sound id w h
  perform_sound pruning w h = prune_sound.keeps w h

  pub run_sound : (ops : List DnsOp) (w : Challenges) → AllSound w → AllSound (run s ops w)
  unfolding run
  run_sound [] w h = h
  run_sound (o ∷ ops) w h = run_sound ops (perform s o w) (perform_sound o w h)
