-- ===== src/Ledger/Stored.antt =====
-- What the table `trust_ledger` holds, and what `Verify` says of it.
use nexus_agent_protocol.Prelude.{
  ℕ, suc, ◌≡◌, ◌≢◌, ◌⊎◌, inl, inr, refl, sym, ap, ◌∙◌, false, Bool-cases, Option, some, List, [],
  ◌∷◌, ◌++◌, append-nil, arith, Bytes, text_eq, text_eq_sound, text_eq_complete, text_eq_refl, leb,
  length, last, Result, ok, err,
}
use mathlib.Core.Path.{subst}
use nexus_agent_protocol.Repository.Order.{sort, insert}
use nexus_agent_protocol.Ledger.{
  Hashing, Entry, LedgerError, invalid_hash, genesis_hash, hash_prefix, hash_input, hash_entry,
  make_entry, verify_rest, verify,
}
use nexus_agent_protocol.Ledger.Chain.{some-last}
use nexus_agent_protocol.Ledger.Postgres.{
  Faults, IsNumbered, IsNumbered-snoc, to_row, next, pg_append, pg_append_outcome, pg_verify,
}

module _ (h : Hashing) (column : ℕ → ℕ) where
  -- The entry was hashed with a time of which the column kept its timestamp.
  pub record IsDated (e : Entry) : Type 0 where
    pub time : ℕ
    pub at_time : column time ≡ e.timestamp
    pub hashed : e.hash ≡ hash_entry h (record e { timestamp = time })

  -- each entry names the hash of the one before it
  abbrev pub Chained : Entry → List Entry → Type 0
  Chained prev [] = Unit
  Chained prev (e ∷ es) = (e.prev_hash ≡ prev.hash) × IsDated e × Chained e es

  -- The rows are numbered from 0, begin with the genesis entry and are chained.
  abbrev pub IsLedger : List Entry → Type 0
  IsLedger [] = ⊥
  IsLedger (g ∷ es) = (g.hash ≡ genesis_hash) × IsNumbered 0 (g ∷ es) × Chained g es

  next-IsDated :
      (now : ℕ) (u a o json : Bytes) (rows : List Entry) (prev : Bytes)
      → IsDated (to_row column (next h now u a o json rows prev))
  unfolding make_entry hash_entry hash_input hash_prefix
  next-IsDated now u a o json rows prev = record { time = now; at_time = refl; hashed = refl }

  next-prev_hash :
      (now : ℕ) (u a o json : Bytes) (rows : List Entry) (prev : Bytes)
      → (next h now u a o json rows prev).prev_hash ≡ prev
  unfolding make_entry
  next-prev_hash now u a o json rows prev = refl

  next-index :
      (now : ℕ) (u a o json : Bytes) (rows : List Entry) (prev : Bytes)
      → (next h now u a o json rows prev).index ≡ length rows
  unfolding make_entry
  next-index now u a o json rows prev = refl

  Chained-snoc :
      (prev : Entry) (es : List Entry) (t e : Entry)
      → Chained prev es
      → last (prev ∷ es) ≡ some t
      → e.prev_hash ≡ t.hash
      → IsDated e
      → Chained prev (es ++ e ∷ [])
  Chained-snoc prev [] t e k at_end named dated = (ground arith, dated, tt)
  Chained-snoc prev (f ∷ es) t e (n, d, k) at_end named dated =
      (n, d, Chained-snoc f es t e k at_end named dated)

  IsLedger-snoc :
      (rows : List Entry) (t e : Entry)
      → IsLedger rows
      → last rows ≡ some t
      → e.prev_hash ≡ t.hash
      → e.index ≡ length rows
      → IsDated e
      → IsLedger (rows ++ e ∷ [])
  IsLedger-snoc [] t e k at_end named index dated = absurd k
  IsLedger-snoc (g ∷ es) t e (first, numbered, chained) at_end named index dated = (
    first,
    IsNumbered-snoc 0 (g ∷ es) e numbered (omega (arith, index)),
    Chained-snoc g es t e chained at_end named dated,
  )

  pub IsLedger-IsNumbered : (rows : List Entry) → IsLedger rows → IsNumbered 0 rows
  IsLedger-IsNumbered [] k = tt
  IsLedger-IsNumbered (g ∷ es) (first, numbered, chained) = numbered

  IsLedger-last : (rows : List Entry) → IsLedger rows → (t : Entry) × (last rows ≡ some t)
  IsLedger-last [] k = absurd k
  IsLedger-last (g ∷ es) k = some-last (g ∷ es) (λ q. cc)

  -- the later rows are the earlier ones with rows behind them, and a ledger
  pub record IsExtended (old new : List Entry) : Type 0 where
    pub more : List Entry
    pub extends : new ≡ old ++ more
    pub intact : IsLedger new

  pub pg_append-IsExtended :
      (f : Faults) (now : ℕ) (u a o : Bytes) (payload : Option Bytes) (rows : List Entry)
      → IsLedger rows
      → IsExtended rows (pg_append h column f now u a o payload rows).1
  pg_append-IsExtended f now u a o payload rows k =
      let (t, at_end) = IsLedger-last rows k in
      elim (pg_append_outcome h column f now u a o payload rows t (IsLedger-IsNumbered rows k)
        at_end) [
          | inl (json, q) ↦
              let e = to_row column (next h now u a o json rows t.hash) in
              record {
                more = e ∷ [];
                extends = ap (λ r. r.1) q;
                intact = subst IsLedger (sym (ap (λ r. r.1) q)) (
                    IsLedger-snoc rows t e k at_end (next-prev_hash now u a o json rows t.hash)
                      (next-index now u a o json rows t.hash)
                      (next-IsDated now u a o json rows t.hash));
              }
          | inr (x, q) ↦ record {
            more = [];
            extends = ap (λ r. r.1) q ∙ sym (append-nil rows);
            intact = subst IsLedger (sym (ap (λ r. r.1) q)) k;
          }
        ]

-- rows that are numbered are in the order of their numbers
sort-numbered :
    (n : ℕ) (rows : List Entry) → IsNumbered n rows → sort (λ a b. leb a.index b.index) rows ≡ rows
unfolding sort insert
sort-numbered n [] k = refl
sort-numbered n (r ∷ []) k = refl
sort-numbered n (r ∷ q ∷ rows) (here, k) =
    rw (sort-numbered (suc n) (q ∷ rows) k) (ground (arith, here, k.0))

module _ (h : Hashing) (column : ℕ → ℕ) where
  abbrev IsVerdict : Result LedgerError (Unit {0}) → Type 0
  IsVerdict v = (v ≡ ok tt) ⊎ ((i : ℕ) × (v ≡ err (invalid_hash i)))

  verify_rest-IsVerdict :
      (prev : Entry) (es : List Entry)
      → Chained h column prev es
      → IsVerdict (verify_rest h prev es)
  unfolding verify_rest
  verify_rest-IsVerdict prev [] k = inl refl
  verify_rest-IsVerdict prev (e ∷ es) (named, dated, k) =
      let linked = text_eq_complete e.prev_hash prev.hash named in
      elim (Bool-cases (text_eq e.hash (hash_entry h e))) [
        | inl t ↦ rw (linked, t) (verify_rest-IsVerdict e es k)
        | inr n ↦ inr (e.index, rw (linked, n) refl)
      ]

  verified-rest :
      (g : Entry) (es : List Entry)
      → IsLedger h column (g ∷ es)
      → pg_verify h (g ∷ es) ≡ verify_rest h g es
  unfolding pg_verify verify
  verified-rest g es (first, numbered, chained) =
      rw (sort-numbered 0 (g ∷ es) numbered) rw (first, text_eq_refl genesis_hash) refl

  -- The check of such a table finds no broken link: it passes, or it finds a row whose hash is not
  -- that of its columns.
  pub pg_verify-IsVerdict :
      (rows : List Entry)
      → IsLedger h column rows
      → (pg_verify h rows ≡ ok tt) ⊎ ((i : ℕ) × (pg_verify h rows ≡ err (invalid_hash i)))
  pg_verify-IsVerdict [] k = absurd k
  pg_verify-IsVerdict (g ∷ es) k = rw (verified-rest g es k) (verify_rest-IsVerdict g es k.2)

  broken_rest :
      (prev : Entry) (es : List Entry) (t e : Entry)
      → verify_rest h prev es ≡ ok tt
      → last (prev ∷ es) ≡ some t
      → e.prev_hash ≡ t.hash
      → text_eq e.hash (hash_entry h e) ≡ false
      → verify_rest h prev (es ++ e ∷ []) ≡ err (invalid_hash e.index)
  unfolding verify_rest
  broken_rest prev [] t e k at_end named lost =
      let same : prev ≡ t = ground (arith, at_end) in
      let linked = text_eq_complete e.prev_hash prev.hash (named ∙ ap (λ p. p.hash) (sym same)) in
      rw (linked, lost) refl
  broken_rest prev (f ∷ es) t e k at_end named lost = ground (arith, broken_rest f es t e)

-- A table that passes the check, and an `Append` to it that succeeds at a time of which the column
-- does not keep enough for the hash: the check then finds the row of the new entry invalid.
pub lost_time_breaks_verify :
    (h : Hashing) (column : ℕ → ℕ) (f : Faults) (now : ℕ) (u a o : Bytes) (payload : Option Bytes)
    (rows : List Entry) (e : Entry)
    → IsLedger h column rows
    → pg_verify h rows ≡ ok tt
    → (pg_append h column f now u a o payload rows).0 ≡ ok e
    → hash_entry h (to_row column e) ≢ e.hash
    → pg_verify h (pg_append h column f now u a o payload rows).1 ≡ err (invalid_hash e.index)
lost_time_breaks_verify h column f now u a o payload [] e k passes q lost = absurd k
lost_time_breaks_verify h column f now u a o payload (g ∷ es) e k passes q lost =
    let rows = g ∷ es in
    let (t, at_end) = IsLedger-last h column rows k in
    let grown = (pg_append-IsExtended h column f now u a o payload rows k).intact in
    elim (pg_append_outcome h column f now u a o payload rows t
      (IsLedger-IsNumbered h column rows k) at_end) [
        | inr (x, r) ↦ absurd (ground (arith, rw r at q))
        | inl (json, r) ↦
            let made = next h now u a o json rows t.hash in
            let same : made ≡ e = ground (arith, rw r at q) in
            let row = to_row column made in
            let wrong : text_eq row.hash (hash_entry h row) ≡ false =
              elim (Bool-cases (text_eq row.hash (hash_entry h row))) [
                | inl b ↦ absurd (
                    lost (
                      subst (λ m. hash_entry h (to_row column m) ≡ m.hash) same
                        (sym (text_eq_sound row.hash (hash_entry h row) b))))
                | inr b ↦ b
              ] in
            let after =
              verified-rest h column g (es ++ row ∷ [])
                (subst (IsLedger h column) (ap (λ p. p.1) r) grown) in
            ap (λ p. pg_verify h p.1) r
            ∙ after
            ∙ broken_rest h column g es t row (sym (verified-rest h column g es k) ∙ passes) at_end
                (next-prev_hash h column now u a o json rows t.hash) wrong
            ∙ ap (λ m. err (invalid_hash m.index)) same
      ]
