-- ===== src/Ledger/Postgres.antt =====
-- internal/trustledger/postgres.go over the rows of the table `trust_ledger`. Each database call may
-- fail; a transaction that does not commit leaves the rows as they were. `column` is what the column
-- `timestamp TIMESTAMPTZ` keeps of a time: the hash is that of the time itself.
use nexus_agent_protocol.Prelude.{
  ℕ, suc, ◌+◌, ◌≤◌, ◌⊎◌, inl, inr, ◌≡◌, ◌≢◌, refl, Bool, true, false, ◌||◌, Option, none, some,
  List, [], ◌∷◌, ◌++◌, arith, Bytes, text_eq, ltb, leb, ◌==◌, if◌then◌else◌, length, last, some_of,
  Result, ok, err,
}
use nexus_agent_protocol.Ledger.{
  Hashing, Entry, LedgerError, marshal_payload, begin_tx, acquire_lock, read_tail, insert_entry,
  commit_tx, make_entry, append, verify,
}
use nexus_agent_protocol.Repository.Order.{sort}

-- Which database calls of one `Append` fail.
pub record Faults : Type 0 where
  pub begin : Bool
  pub lock : Bool
  pub read : Bool
  pub insert : Bool
  pub commit : Bool

-- SELECT ... ORDER BY idx DESC LIMIT 1
unfoldable pub tail_row : List Entry → Option Entry
tail_row [] = none
tail_row (r ∷ rows) = elim (tail_row rows) [
  | none ↦ some r
  | some t ↦ if ltb t.index r.index then some r else some t
]

-- the unique keys `idx` and `hash` of the table
unfoldable pub clashes : Entry → List Entry → Bool
clashes e = some_of (λ r. r.index == e.index || text_eq r.hash e.hash)

-- the row of an entry
abbrev pub to_row : (ℕ → ℕ) → Entry → Entry
to_row column e = record e { timestamp = column e.timestamp }

module _ (h : Hashing) (column : ℕ → ℕ) where
  -- the transaction behind the advisory lock
  unfoldable pub append_tx :
      Faults
      → ℕ
      → Bytes
      → Bytes
      → Bytes
      → Bytes
      → List Entry
      → Result LedgerError Entry × List Entry
  unfolding clashes
  append_tx f now agent_uri action actor payload_json rows = elim (tail_row rows) [
    | none ↦ (err read_tail, rows)
    | some prev ↦
        let entry =
          make_entry h (prev.index + 1) now agent_uri action actor payload_json prev.hash in
        if f.read
        then (err read_tail, rows)
        else if f.insert || clashes entry rows
        then (err insert_entry, rows)
        else if f.commit
        then (err commit_tx, rows)
        else (ok entry, rows ++ to_row column entry ∷ [])
  ]

  -- (*PostgresLedger).Append
  unfoldable pub pg_append :
      Faults
      → ℕ
      → Bytes
      → Bytes
      → Bytes
      → Option Bytes
      → List Entry
      → Result LedgerError Entry × List Entry
  pg_append f now agent_uri action actor none rows = (err marshal_payload, rows)
  pg_append f now agent_uri action actor (some payload_json) rows =
      if f.begin
      then (err begin_tx, rows)
      else if f.lock
      then (err acquire_lock, rows)
      else append_tx f now agent_uri action actor payload_json rows

-- (*PostgresLedger).Verify of a query that answers: `ORDER BY idx ASC`, and the rounds over the rows,
-- which are those of the ledger in memory
unfoldable pub pg_verify : Hashing → List Entry → Result LedgerError (Unit {0})
unfolding sort verify
pg_verify h rows = verify h (sort (λ a b. leb a.index b.index) rows)

-- Rows in the order of `idx`, counted from 0: what `Append` keeps and `Verify` reads.
abbrev pub IsNumbered : ℕ → List Entry → Type 0
IsNumbered n [] = Unit
IsNumbered n (r ∷ rows) = (r.index ≡ n) × IsNumbered (suc n) rows

tail_numbered :
    (n : ℕ) (r : Entry) (rows : List Entry)
    → IsNumbered n (r ∷ rows)
    → (t : Entry) × (tail_row (r ∷ rows) ≡ some t)
      × (last (r ∷ rows) ≡ some t)
      × (t.index ≡ n + length rows)
unfolding tail_row
tail_numbered n r [] k = (r, refl, refl, omega arith)
tail_numbered n r (s ∷ rows) (here, k) =
    let (t, found, at_end, index) = tail_numbered (suc n) s rows k in
    (t, rw (found, tail_row) (ground arith), at_end, omega arith)

-- In a numbered table no row has the next number.
no_index :
    (n m : ℕ) (rows : List Entry)
    → IsNumbered n rows
    → n + length rows ≤ m
    → some_of (λ r. r.index == m) rows ≡ false
no_index n m [] k lt = refl
no_index n m (r ∷ rows) (here, k) lt = ground (arith, no_index (suc n) m rows k (omega arith))

pub IsNumbered-snoc :
    (n : ℕ) (rows : List Entry) (e : Entry)
    → IsNumbered n rows
    → e.index ≡ n + length rows
    → IsNumbered n (rows ++ e ∷ [])
IsNumbered-snoc n [] e k q = omega arith
IsNumbered-snoc n (r ∷ rows) e (here, k) q = (here, IsNumbered-snoc (suc n) rows e k (omega arith))

abbrev pub no_faults : Faults
no_faults = record { begin = false; lock = false; read = false; insert = false; commit = false }

module _ (h : Hashing) (now : ℕ) (u a o payload : Bytes) where
  -- The entry that an append to these rows builds.
  abbrev pub next : List Entry → Bytes → Entry
  next rows prev = make_entry h (length rows) now u a o payload prev

  clash_of_hash :
      (e : Entry) (rows : List Entry)
      → some_of (λ r. r.index == e.index) rows ≡ false
      → clashes e rows ≡ some_of (λ r. text_eq r.hash e.hash) rows
  unfolding clashes
  clash_of_hash e [] k = refl
  clash_of_hash e (r ∷ rows) k = ground (arith, clash_of_hash e rows)

  -- On numbered rows, the transaction with its entry written as in the ledger in memory.
  pub append_tx_lem :
      (column : ℕ → ℕ) (f : Faults) (rows : List Entry) (t : Entry)
      → tail_row rows ≡ some t
      → t.index + 1 ≡ length rows
      → append_tx h column f now u a o payload rows ≡ (
          if f.read
          then (err read_tail, rows)
          else if f.insert || clashes (next rows t.hash) rows
          then (err insert_entry, rows)
          else if f.commit
          then (err commit_tx, rows)
          else (ok (next rows t.hash), rows ++ to_row column (next rows t.hash) ∷ []))
  unfolding append_tx
  append_tx_lem column f rows t found index = rw (found, append_tx) (rw index)

  numbered_tail :
      (rows : List Entry)
      → IsNumbered 0 rows
      → rows ≢ []
      → (t : Entry) × (tail_row rows ≡ some t) × (last rows ≡ some t) × (t.index + 1 ≡ length rows)
  numbered_tail [] k ne = absurd (ne refl)
  numbered_tail (r ∷ rows) k ne =
      let (t, found, at_end, index) = tail_numbered 0 r rows k in (t, found, at_end, omega arith)

  pub numbered_last :
      (rows : List Entry) (t : Entry)
      → IsNumbered 0 rows
      → last rows ≡ some t
      → (tail_row rows ≡ some t) × (t.index + 1 ≡ length rows)
  numbered_last [] t k at_end = cc
  numbered_last (r ∷ rows) t k at_end =
      let (s, found, end, index) = tail_numbered 0 r rows k in (cc, ground arith)

  pub clashes-next :
      (rows : List Entry) (prev : Bytes)
      → IsNumbered 0 rows
      → clashes (next rows prev) rows ≡ some_of (λ r. text_eq r.hash (next rows prev).hash) rows
  unfolding make_entry
  clashes-next rows prev k =
      clash_of_hash (next rows prev) rows (no_index 0 (length rows) rows k (omega arith))

  pub append-last :
      (rows : List Entry) (t : Entry)
      → last rows ≡ some t
      → append h now u a o (some payload) rows
        ≡ (ok (next rows t.hash), rows ++ next rows t.hash ∷ [])
  unfolding append
  append-last rows t at_end = rw (at_end, append)

-- The five calls of a transaction: it is done, or it fails and changes nothing.
pub five_calls :
    (begin lock read insert commit : Bool) (rows : List Entry)
    (done : Result LedgerError Entry × List Entry)
    → ((if begin
          then (err begin_tx, rows)
          else if lock
          then (err acquire_lock, rows)
          else if read
          then (err read_tail, rows)
          else if insert
          then (err insert_entry, rows)
          else if commit
          then (err commit_tx, rows)
          else done)
        ≡ done)
      ⊎ ((x : LedgerError) × ((if begin
              then (err begin_tx, rows)
              else if lock
              then (err acquire_lock, rows)
              else if read
              then (err read_tail, rows)
              else if insert
              then (err insert_entry, rows)
              else if commit
              then (err commit_tx, rows)
              else done)
            ≡ (err x, rows)))
five_calls true l r i c rows done = inr (begin_tx, refl)
five_calls false true r i c rows done = inr (acquire_lock, refl)
five_calls false false true i c rows done = inr (read_tail, refl)
five_calls false false false true c rows done = inr (insert_entry, refl)
five_calls false false false false true rows done = inr (commit_tx, refl)
five_calls false false false false false rows done = inl refl

-- On numbered rows `Append` puts the row of the new entry behind them, or fails and changes nothing.
pub pg_append_outcome :
    (h : Hashing) (column : ℕ → ℕ) (f : Faults) (now : ℕ) (u a o : Bytes) (payload : Option Bytes)
    (rows : List Entry) (t : Entry)
    → IsNumbered 0 rows
    → last rows ≡ some t
    → ((json : Bytes) × (pg_append h column f now u a o payload rows ≡ (
      ok (next h now u a o json rows t.hash),
      rows ++ to_row column (next h now u a o json rows t.hash) ∷ [],
    )))
      ⊎ ((x : LedgerError) × (pg_append h column f now u a o payload rows ≡ (err x, rows)))
unfolding pg_append
pg_append_outcome h column f now u a o none rows t k at_end = inr (marshal_payload, refl)
pg_append_outcome h column f now u a o (some json) rows t k at_end =
    let (found, index) = numbered_last h now u a o json rows t k at_end in
    let e = next h now u a o json rows t.hash in
    elim (five_calls f.begin f.lock f.read (f.insert || clashes e rows) f.commit rows
      (ok e, rows ++ to_row column e ∷ [])) [
        | inl q ↦ inl (json, rw (append_tx_lem h now u a o json column f rows t found index) q)
        | inr (x, q) ↦ inr (x, rw (append_tx_lem h now u a o json column f rows t found index) q)
      ]
