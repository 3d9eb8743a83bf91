-- ===== src/Federation/Members.antt =====
-- The delegation depth of the members, and who is given a certificate.
use nexus_agent_protocol.Prelude.{
  ℕ, ◌≤◌, ◌≡◌, Bool, true, false, ◌||◌, Bool-cases, inl, inr, Option, none, some, Option-cases,
  List, [], ◌∷◌, Bytes, arith, if◌then◌else◌, ◌==◌, ltb, is_empty, first, some_of, text_eq, All,
  All-append, ok, err,
}
use mathlib.Core.Path.{subst}
use nexus_agent_protocol.Action.Preserves.{
  Preserves, Preserves-pure, Preserves-fail, Preserves-if, Preserves-tried, Preserves-bind,
}
use nexus_agent_protocol.Federation.{
  is_active, RegisteredRegistry, FedError, trust_root_required, endpoint_required, db_error,
  not_found, no_issuer, not_active, issue_failed, path_len_negative, path_len_too_big, Registries,
  CaIssuer, IssuedCa, FederationService, IssueCaResponse, response_of, max_allowed_path_len,
  five_years, F, tick, found_or, has_id, has_root, change, add_row, write_row, call, create,
  get_by_trust_root, get_by_id, update_row, update_status, set_intermediate_ca, write_max_path_len,
  register, approve, suspend, issue_for, issue_with, issue_intermediate_ca, update_max_path_len,
  FedOp, registering, approving, suspending, issuing, delegating, perform, run,
}

abbrev IsShallow : RegisteredRegistry → Type 0
IsShallow r = r.max_path_len ≤ 2

abbrev AllShallow : Registries → Type 0
AllShallow w = All IsShallow w.rows

change-All :
    (id : ℕ) (f : RegisteredRegistry → RegisteredRegistry)
    → ((r : RegisteredRegistry) → IsShallow r → IsShallow (f r))
    → (rows : List RegisteredRegistry) → All IsShallow rows
    → All IsShallow (change id f rows)
unfolding change
change-All id f hf [] h = tt
change-All id f hf (r ∷ rows) h = (changed (r.id == id), change-All id f hf rows h.1)
  where
    changed : (b : Bool) → IsShallow (if b then f r else r)
    changed true = hf r h.0
    changed false = h.0

module _ (s : FederationService) where
  call-Preserves : {X : Type 0} {m : F X} → Preserves AllShallow m → Preserves AllShallow (call s m)
  unfolding call
  call-Preserves {X} {m} hm = record { keeps = λ w h. called w (s.env.fault w.calls) h }
    where
      called :
          (w : Registries) (b : Bool)
          → AllShallow w
          → AllShallow (if b then (err db_error, tick w) else m (tick w)).1
      called w true h = h
      called w false h = hm.keeps (tick w) h

  found-Preserves : {X : Type 0} (e : FedError) (o : Option X) → Preserves AllShallow (found_or e o)
  found-Preserves e none = Preserves-fail AllShallow e
  found-Preserves e (some x) = Preserves-pure AllShallow x

  by_root-Preserves : (root : Bytes) → Preserves AllShallow (get_by_trust_root s root)
  unfolding get_by_trust_root
  by_root-Preserves root =
      call-Preserves
        (record { keeps = λ w. (found-Preserves not_found (first (has_root root) w.rows)).keeps w })

  by_id-Preserves : (id : ℕ) → Preserves AllShallow (get_by_id s id)
  unfolding get_by_id
  by_id-Preserves id =
      call-Preserves
        (record { keeps = λ w. (found-Preserves not_found (first (has_id id) w.rows)).keeps w })

  update-Preserves :
      (id : ℕ) (f : ℕ → RegisteredRegistry → RegisteredRegistry)
      → ((n : ℕ) (r : RegisteredRegistry) → IsShallow r → IsShallow (f n r))
      → Preserves AllShallow (update_row s id f)
  unfolding update_row write_row
  update-Preserves id f hf = record {
    keeps = λ w.
        (call-Preserves (
            Preserves-if (some_of (has_id id) w.rows)
              (record {
                keeps =
                    λ v h. change-All id (f (s.env.now w.calls)) (hf (s.env.now w.calls)) v.rows h;
              })
              (Preserves-fail AllShallow not_found))).keeps
          w;
  }

  register-Preserves : (root url : Bytes) → Preserves AllShallow (register s root url)
  unfolding register create add_row
  register-Preserves root url =
      Preserves-if (is_empty root) (Preserves-fail AllShallow trust_root_required) (
        Preserves-if (is_empty url) (Preserves-fail AllShallow endpoint_required) (record {
          keeps = λ w.
              (call-Preserves (
                  Preserves-if
                    (some_of (has_root root) w.rows
                      || some_of (has_id (s.env.new_uuid w.calls)) w.rows)
                    (Preserves-fail AllShallow db_error)
                    (record {
                      keeps = λ v h. All-append IsShallow v.rows _ h (omega arith, tt);
                    }))).keeps
                w;
        }))

  store-Preserves : (id : ℕ) (pem : Bytes) → Preserves AllShallow (set_intermediate_ca s id pem)
  unfolding set_intermediate_ca
  store-Preserves id pem = update-Preserves id _ λ n x h. h

  issue-Preserves :
      (issuer : CaIssuer) (root : Bytes) (r : RegisteredRegistry)
      → Preserves AllShallow (issue_for s issuer root r)
  unfolding issue_for
  issue-Preserves issuer root r =
      Preserves-bind (found-Preserves issue_failed (issuer.issue root five_years r.max_path_len))
        λ issued.
          Preserves-bind (Preserves-tried (store-Preserves r.id issued.cert_pem))
            λ stored. Preserves-pure AllShallow (response_of issuer root r issued)

  with-Preserves : (o : Option CaIssuer) (root : Bytes) → Preserves AllShallow (issue_with s o root)
  unfolding issue_with
  with-Preserves none root = Preserves-fail AllShallow no_issuer
  with-Preserves (some issuer) root = Preserves-bind (by_root-Preserves root) λ r.
      Preserves-if (is_active r.status) (issue-Preserves issuer root r)
        (Preserves-fail AllShallow not_active)

  depth-Preserves :
      (id : ℕ) (negative : Bool) (n : ℕ)
      → Preserves AllShallow (update_max_path_len s id negative n)
  unfolding update_max_path_len write_max_path_len
  depth-Preserves id negative n =
      Preserves-if negative (Preserves-fail AllShallow path_len_negative)
        (elim (Bool-cases (ltb max_allowed_path_len n)) [
          | inl t ↦ rw t (Preserves-fail AllShallow path_len_too_big)
          | inr f ↦ rw f (update-Preserves id _ λ now r h. not_above n f)
        ])
    where
      not_above : (n : ℕ) → ltb max_allowed_path_len n ≡ false → n ≤ 2
      not_above n f = ground (arith, f)

  perform-AllShallow : (o : FedOp) (w : Registries) → AllShallow w → AllShallow (perform s o w)
  unfolding perform approve suspend update_status issue_intermediate_ca
  perform-AllShallow (registering root url) w h = (register-Preserves root url).keeps w h
  perform-AllShallow (approving id) w h =
      (Preserves-bind (update-Preserves id _ λ n r k. k) λ _. by_id-Preserves id).keeps w h
  perform-AllShallow (suspending id) w h =
      (Preserves-bind (update-Preserves id _ λ n r k. k) λ _. by_id-Preserves id).keeps w h
  perform-AllShallow (issuing root) w h = (with-Preserves s.issuer root).keeps w h
  perform-AllShallow (delegating id negative n) w h = (depth-Preserves id negative n).keeps w h

  run-AllShallow : (ops : List FedOp) (w : Registries) → AllShallow w → AllShallow (run s ops w)
  unfolding run
  run-AllShallow [] w h = h
  run-AllShallow (o ∷ ops) w h = run-AllShallow ops (perform s o w) (perform-AllShallow o w h)

  -- What a certificate is issued for: an active member, with its path length, which is 2 at most.
  pub record IsEntitled (issuer : CaIssuer) (root : Bytes) (w : Registries) (a : IssueCaResponse)
      : Type 0 where
    pub member : RegisteredRegistry
    pub stored : first (has_root root) w.rows ≡ some member
    pub is_active_lem : is_active member.status ≡ true
    pub issued : IssuedCa
    pub certified : issuer.issue root five_years member.max_path_len ≡ some issued
    pub answer : response_of issuer root member issued ≡ a
    pub depth : member.max_path_len ≤ 2

  issued_by :
      (issuer : CaIssuer) (root : Bytes) (r : RegisteredRegistry) (w : Registries)
      (a : IssueCaResponse)
      → (issue_for s issuer root r w).0 ≡ ok a
      → (c : IssuedCa) × (issuer.issue root five_years r.max_path_len ≡ some c)
        × (response_of issuer root r c ≡ a)
  unfolding issue_for
  issued_by issuer root r w a q =
      elim (Option-cases (issuer.issue root five_years r.max_path_len)) [
        | inl n ↦ absurd (ground (arith, rw n at q))
        | inr (c, e) ↦ (c, e, ground (arith, rw e at q))
      ]

  first-All :
      (root : Bytes) (rows : List RegisteredRegistry) (r : RegisteredRegistry)
      → All IsShallow rows
      → first (has_root root) rows ≡ some r
      → r.max_path_len ≤ 2
  first-All root [] r h q = absurd (ground (arith, q))
  first-All root (x ∷ rows) r h q = elim (Bool-cases (text_eq x.trust_root root)) [
    | inl t ↦ let same : x ≡ r = ground (arith, q, t) in subst IsShallow same h.0
    | inr n ↦ first-All root rows r h.1 (ground (arith, q, n))
  ]

  with-IsEntitled :
      (issuer : CaIssuer) (root : Bytes) (w : Registries) (a : IssueCaResponse)
      → AllShallow w
      → (issue_with s (some issuer) root w).0 ≡ ok a
      → IsEntitled issuer root w a
  unfolding issue_with get_by_trust_root call
  with-IsEntitled issuer root w a h q = elim (Bool-cases (s.env.fault w.calls)) [
    | inl t ↦ absurd (ground (arith, rw t at q))
    | inr f ↦ elim (Option-cases (first (has_root root) w.rows)) [
      | inl e ↦ absurd (ground (arith, rw (f, e) at q))
      | inr (r, e) ↦ elim (Bool-cases (is_active r.status)) [
        | inl t ↦
            let (c, issued, answer) = issued_by issuer root r (tick w) a (rw (f, e, t) at q) in
            record {
              member = r;
              stored = e;
              is_active_lem = t;
              issued = c;
              certified = issued;
              answer = answer;
              depth = first-All root w.rows r h e;
            }
        | inr n ↦ absurd (ground (arith, n, rw (f, e) at q))
      ]
    ]
  ]

abbrev pub no_members : ℕ → Registries
no_members n = record { rows = []; calls = n }

-- Whatever calls of the service were made since the table was empty: where a certificate is issued,
-- the trust root is the one of a member that is active at that time, and the certificate has the
-- member's path length, which is 2 at most.
pub issued-IsEntitled :
    (s : FederationService) (issuer : CaIssuer) (ops : List FedOp) (n : ℕ) (root : Bytes)
    (a : IssueCaResponse)
    → s.issuer ≡ some issuer
    → (issue_intermediate_ca s root (run s ops (no_members n))).0 ≡ ok a
    → IsEntitled s issuer root (run s ops (no_members n)) a
unfolding issue_intermediate_ca
issued-IsEntitled s issuer ops n root a has q =
    with-IsEntitled s issuer root (run s ops (no_members n)) a
      (run-AllShallow s ops (no_members n) tt) (issue_as s.issuer has q)
  where
    issue_as :
        (o : Option CaIssuer)
        → o ≡ some issuer
        → (issue_with s o root (run s ops (no_members n))).0 ≡ ok a
        → (issue_with s (some issuer) root (run s ops (no_members n))).0 ≡ ok a
    issue_as o e p = subst (λ x. (issue_with s x root (run s ops (no_members n))).0 ≡ ok a) e p
