-- ===== src/Ledger.antt =====
-- internal/trustledger: entries, their hashes, the ledger in memory and the ledger in PostgreSQL.
-- SHA-256 in hexadecimal and the RFC 3339 print of a time are parameters.
pub mod Decimal
pub mod Chain
pub mod Tamper
pub mod Postgres
pub mod Refinement
pub mod Stored
mod Tests
use nexus_agent_protocol.Prelude.{
  ℕ, suc, ◌+◌, ◌-◌, ◌≡◌, Bool, true, false, ◌||◌, not, Option, none, some, List, [], ◌∷◌, ◌++◌,
  Bytes, codes, ltb, leb, ◌==◌, if◌then◌else◌, text_eq, length, get_elem?, last, Lacks, Result, ok,
  err,
}
use Decimal.{decimal}

pub record Hashing : Type 0 where
  pub sha256_hex : Bytes → Bytes
  pub format_time : ℕ → Bytes

-- What is relied on: the digest is printed without a `|`.
abbrev pub IsHex : Hashing → Type 0
IsHex h = (x : Bytes) → Lacks b'|' (h.sha256_hex x)

pub record Entry : Type 0 where
  pub index : ℕ
  pub timestamp : ℕ
  pub agent_uri : Bytes
  pub action : Bytes
  pub actor : Bytes
  pub data_hash : Bytes
  pub prev_hash : Bytes
  pub hash : Bytes

pub data LedgerError : Type 0 where
  marshal_payload index_out_of_range empty_ledger bad_genesis : LedgerError
  chain_broken invalid_hash : ℕ → LedgerError
  begin_tx acquire_lock read_tail insert_entry commit_tx : LedgerError

-- GenesisHash
abbrev pub genesis_hash : Bytes
genesis_hash = codes "0000000000000000000000000000000000000000000000000000000000000000"

-- the text that `hashEntry` feeds to the digest, up to the last bar
unfoldable pub hash_prefix : Hashing → Entry → Bytes
hash_prefix h e =
    decimal e.index
    ++ (b'|' ∷ h.format_time e.timestamp
        ++ (b'|' ∷ e.agent_uri ++ (b'|' ∷ e.action ++ (b'|' ∷ e.actor ++ (b'|' ∷ e.data_hash)))))

unfoldable pub hash_input : Hashing → Entry → Bytes
hash_input h e = hash_prefix h e ++ b'|' ∷ e.prev_hash

-- hashEntry
unfoldable pub hash_entry : Hashing → Entry → Bytes
hash_entry h e = h.sha256_hex (hash_input h e)

-- New, at the time `now`
unfoldable pub new : ℕ → List Entry
new now =
    record {
      index = 0;
      timestamp = now;
      agent_uri = [];
      action = codes "genesis";
      actor = codes "nexus-system";
      data_hash = genesis_hash;
      prev_hash = genesis_hash;
      hash = genesis_hash;
    }
    ∷ []

module _ (h : Hashing) where
  -- the entry that both implementations of `Append` build, with its hash
  unfoldable pub make_entry : ℕ → ℕ → Bytes → Bytes → Bytes → Bytes → Bytes → Entry
  unfolding hash_entry
  make_entry index now agent_uri action actor payload_json prev_hash =
      let entry : Entry = record {
        index = index;
        timestamp = now;
        agent_uri = agent_uri;
        action = action;
        actor = actor;
        data_hash = h.sha256_hex payload_json;
        prev_hash = prev_hash;
        hash = [];
      } in
      record entry { hash = hash_entry h entry }

  -- (*MemoryLedger).Append; the payload is what `json.Marshal` made of it
  unfoldable pub append :
      ℕ → Bytes → Bytes → Bytes → Option Bytes → List Entry → Result LedgerError Entry × List Entry
  append now agent_uri action actor none entries = (err marshal_payload, entries)
  append now agent_uri action actor (some payload_json) entries = elim (last entries) [
    | none ↦ (err empty_ledger, entries)
    | some prev ↦
        let entry = make_entry (length entries) now agent_uri action actor payload_json prev.hash in
        (ok entry, entries ++ entry ∷ [])
  ]

  -- the rounds of `Verify` behind the genesis entry
  unfoldable pub verify_rest : Entry → List Entry → Result LedgerError (Unit {0})
  verify_rest prev [] = ok tt
  verify_rest prev (curr ∷ rest) =
      let go = verify_rest curr rest in
      if not (text_eq curr.prev_hash prev.hash)
      then err (chain_broken curr.index)
      else if not (text_eq curr.hash (hash_entry h curr))
      then err (invalid_hash curr.index)
      else go

  -- (*MemoryLedger).Verify
  unfoldable pub verify : List Entry → Result LedgerError (Unit {0})
  unfolding verify_rest
  verify [] = ok tt
  verify (genesis ∷ rest) =
      if not (text_eq genesis.hash genesis_hash) then err bad_genesis else verify_rest genesis rest

-- (*MemoryLedger).Get, for an index that is not negative
unfoldable pub get : List Entry → ℕ → Result LedgerError Entry
get entries i = elim (get_elem? entries i) [ none ↦ err index_out_of_range | some e ↦ ok e ]

-- (*MemoryLedger).Len
unfoldable pub entry_count : List Entry → ℕ
entry_count = length

-- (*MemoryLedger).Root
unfoldable pub root : List Entry → Bytes
root entries = elim (last entries) [ none ↦ [] | some e ↦ e.hash ]
