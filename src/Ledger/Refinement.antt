-- ===== src/Ledger/Refinement.antt =====
-- `Append` in PostgreSQL against `Append` in memory.
use nexus_agent_protocol.Prelude.{
  ℕ, suc, ◌⊎◌, inl, ◌≡◌, ◌≢◌, refl, false, ◌||◌, Option, none, some, List, [], ◌∷◌, ◌++◌, arith,
  Bytes, text_eq, map, ap, length, last, some_of, ok, err,
}
use nexus_agent_protocol.Ledger.{Hashing, Entry, LedgerError, append}
use nexus_agent_protocol.Ledger.Chain.{some-last}
use nexus_agent_protocol.Ledger.Postgres.{
  Faults, clashes, to_row, pg_append, IsNumbered, no_faults, next, append_tx_lem, numbered_last,
  append-last, clashes-next, five_calls,
}

module _ (column : ℕ → ℕ) where
  abbrev pub to_rows : List Entry → List Entry
  to_rows l = map (to_row column) l

  to_rows-IsNumbered : (n : ℕ) (l : List Entry) → IsNumbered n l → IsNumbered n (to_rows l)
  to_rows-IsNumbered n [] k = tt
  to_rows-IsNumbered n (e ∷ l) (here, k) = (here, to_rows-IsNumbered (suc n) l k)

  last-to_rows :
      (l : List Entry) (e : Entry) → last l ≡ some e → last (to_rows l) ≡ some (to_row column e)
  last-to_rows [] e q = cc
  last-to_rows (x ∷ []) e q = ground (arith, q)
  last-to_rows (x ∷ y ∷ l) e q = last-to_rows (y ∷ l) e q

  length-to_rows : (l : List Entry) → length (to_rows l) ≡ length l
  length-to_rows [] = refl
  length-to_rows (e ∷ l) = ap suc (length-to_rows l)

  to_rows-snoc :
      (l : List Entry) (e : Entry) → to_rows (l ++ e ∷ []) ≡ to_rows l ++ to_row column e ∷ []
  to_rows-snoc [] e = refl
  to_rows-snoc (x ∷ l) e = ap (λ r. to_row column x ∷ r) (to_rows-snoc l e)

-- The table holds the rows of a ledger in memory whose entries are numbered from 0. Then `Append` in
-- PostgreSQL returns what `Append` in memory returns and leaves the rows of the ledger that this
-- leaves, or it returns an error and leaves the rows as they were, whichever calls fail.
pub pg_append-refines :
    (h : Hashing) (column : ℕ → ℕ) (f : Faults) (now : ℕ) (u a o : Bytes) (payload : Option Bytes)
    (l : List Entry)
    → IsNumbered 0 l
    → l ≢ []
    → (pg_append h column f now u a o payload (to_rows column l)
        ≡ ((append h now u a o payload l).0, to_rows column (append h now u a o payload l).1))
      ⊎ ((x : LedgerError) × (pg_append h column f now u a o payload (to_rows column l)
            ≡ (err x, to_rows column l)))
unfolding pg_append append
pg_append-refines h column f now u a o none l k ne = inl refl
pg_append-refines h column f now u a o (some payload) l k ne =
    let (m, at_end) = some-last l ne in
    let rows = to_rows column l in
    let (found, index) =
      numbered_last h now u a o payload rows (to_row column m) (to_rows-IsNumbered column 0 l k)
        (last-to_rows column l m at_end) in
    rw (append_tx_lem h now u a o payload column f rows (to_row column m) found index) rw
      (append-last h now u a o payload l m at_end) rw
      (length-to_rows column l, to_rows-snoc column l (next h now u a o payload l m.hash))
      (five_calls f.begin f.lock f.read
        (f.insert || clashes (next h now u a o payload l m.hash) rows) f.commit rows _)

-- Where no call fails and no row has the hash of the new entry, `Append` in PostgreSQL returns the
-- entry of `Append` in memory and leaves the rows of the ledger that this leaves.
pub pg_append_total :
    (h : Hashing) (column : ℕ → ℕ) (now : ℕ) (u a o payload : Bytes) (l : List Entry) (m : Entry)
    → IsNumbered 0 l
    → last l ≡ some m
    → some_of (λ r. text_eq r.hash (next h now u a o payload l m.hash).hash) (to_rows column l)
      ≡ false
    → pg_append h column no_faults now u a o (some payload) (to_rows column l) ≡ (
      ok (next h now u a o payload l m.hash),
      to_rows column (append h now u a o (some payload) l).1,
    )
unfolding pg_append
pg_append_total h column now u a o payload l m k at_end fresh =
    let rows = to_rows column l in
    let numbered = to_rows-IsNumbered column 0 l k in
    let (found, index) =
      numbered_last h now u a o payload rows (to_row column m) numbered
        (last-to_rows column l m at_end) in
    rw (append_tx_lem h now u a o payload column no_faults rows (to_row column m) found index) rw
      (append-last h now u a o payload l m at_end) rw
      (clashes-next h now u a o payload rows m.hash numbered) rw
      (length-to_rows column l, to_rows-snoc column l (next h now u a o payload l m.hash)) rw fresh
      refl
