-- ===== src/Ledger/Tests.antt =====
-- Runs of both ledgers with a toy digest, and the theorems at concrete ledgers.
use nexus_agent_protocol.Prelude.{
  ℕ, ◌+◌, ◌%◌, ◌/◌, ◌<◌, ◌≡◌, ◌≢◌, ◌⊎◌, ◌↔◌, refl, some, List, [], ◌∷◌, ◌++◌, arith, Bytes, codes,
  text_eq, drop, ok, err,
}
use nexus_agent_protocol.Ledger.{
  Hashing, IsHex, Entry, LedgerError, invalid_hash, new, make_entry, append, verify, verify_rest,
  genesis_hash, hash_entry, hash_input, hash_prefix,
}
use nexus_agent_protocol.Ledger.Decimal.{decimal, digits}
use nexus_agent_protocol.Repository.Order.{sort, insert}
use nexus_agent_protocol.Ledger.Stored.{IsLedger, lost_time_breaks_verify}
use nexus_agent_protocol.Ledger.Chain.{IsChain, IsAppended, verify_iff, append_lem}
use nexus_agent_protocol.Ledger.Tamper.{
  SameInputs, Collision, root_pins_inputs, hash_entry_ambiguous,
}
use nexus_agent_protocol.Ledger.Postgres.{
  no_faults, to_row, next, pg_append, append_tx, tail_row, clashes, pg_verify,
}
use nexus_agent_protocol.Ledger.Refinement.{to_rows, pg_append-refines, pg_append_total}

sum : Bytes → ℕ
sum [] = 0
sum (c ∷ s) = (c + sum s) % 10

-- One digit in place of SHA-256.
abbrev toy : Hashing
toy = record { sha256_hex = λ x. (48 + sum x) ∷ []; format_time = decimal }

sum_small : (x : Bytes) → sum x < 10
unfolding sum
sum_small [] = omega arith
sum_small (c ∷ s) = omega arith

toy-IsHex : IsHex toy
toy-IsHex x = ((λ e. absurd (omega (arith, sum_small x))), tt)

registered : ℕ → Bytes → List Entry
unfolding new append
registered now payload =
    (append toy now (codes "agent://a/b/agent_1") (codes "register") (codes "a") (some payload)
      (new 3)).1

registered_verifies : verify toy (registered 5 (codes "{}")) ≡ ok tt
unfolding verify registered make_entry hash_entry hash_input hash_prefix decimal sum text_eq
registered_verifies = refl

-- a changed field is found
edit : List Entry → List Entry
edit (g ∷ e ∷ l) = g ∷ record e { actor = codes "b" } ∷ l
edit l = l

edited : verify toy (edit (registered 5 (codes "{}"))) ≡ err (invalid_hash 1)
unfolding edit verify registered make_entry hash_entry hash_input hash_prefix decimal sum text_eq
edited = refl

verify_iff_example :
    (verify toy (registered 5 (codes "{}")) ≡ ok tt) ↔ IsChain toy (registered 5 (codes "{}"))
verify_iff_example = verify_iff toy (registered 5 (codes "{}"))

registered-ne-nil : registered 5 (codes "{}") ≢ []
unfolding registered
registered-ne-nil = λ e. cc

append_lem_example :
    (e : Entry) × (l' : List Entry) × (append toy 9
        (codes "u")
        (codes "revoke")
        (codes "s")
        (some (codes "{}"))
        (registered 5 (codes "{}"))
      ≡ (ok e, l'))
    × IsAppended toy (registered 5 (codes "{}")) e l'
append_lem_example =
    append_lem toy 9 (codes "u") (codes "revoke") (codes "s") (codes "{}")
      (registered 5 (codes "{}")) registered_verifies registered-ne-nil

root_pins_inputs_example :
    SameInputs toy (drop 1 (registered 5 (codes "{}"))) (drop 1 (registered 5 (codes "{}")))
    ⊎ Collision toy
root_pins_inputs_example =
    root_pins_inputs toy toy-IsHex (registered 5 (codes "{}")) (registered 5 (codes "{}")) refl
      registered_verifies registered_verifies refl

abbrev blank : Entry
blank = record {
  index = 0;
  timestamp = 5;
  agent_uri = [];
  action = [];
  actor = [];
  data_hash = [];
  prev_hash = [];
  hash = [];
}

hash_entry_ambiguous_example :
    hash_entry toy (record blank { agent_uri = codes "a" ++ b'|' ∷ codes "b"; action = codes "c" })
    ≡ hash_entry toy
        (record blank { agent_uri = codes "a"; action = codes "b" ++ b'|' ∷ codes "c" })
hash_entry_ambiguous_example = hash_entry_ambiguous toy blank (codes "a") (codes "b") (codes "c")

-- a column that keeps no last digit
abbrev coarse : ℕ → ℕ
coarse t = t / 10

pg_append-refines_example :
    (pg_append toy coarse no_faults 5 [] [] [] (some []) (to_rows coarse (new 3)) ≡ (
      (append toy 5 [] [] [] (some []) (new 3)).0,
      to_rows coarse (append toy 5 [] [] [] (some []) (new 3)).1,
    ))
    ⊎ ((x : LedgerError) × (pg_append toy coarse no_faults 5 [] [] []
            (some [])
            (to_rows coarse (new 3))
          ≡ (err x, to_rows coarse (new 3))))
unfolding new
pg_append-refines_example =
    pg_append-refines toy coarse no_faults 5 [] [] [] (some []) (new 3) (refl, tt) (λ e. cc)

pg_append_total_example :
    pg_append toy coarse no_faults 5 [] [] [] (some []) (to_rows coarse (blank ∷ [])) ≡ (
      ok (next toy 5 [] [] [] [] (blank ∷ []) blank.hash),
      to_rows coarse (append toy 5 [] [] [] (some []) (blank ∷ [])).1,
    )
unfolding make_entry text_eq hash_entry hash_input hash_prefix decimal sum
pg_append_total_example =
    pg_append_total toy coarse 5 [] [] [] [] (blank ∷ []) blank (refl, tt) refl refl

-- the entry that is appended at the time 15, of which the column keeps 1
abbrev late : Entry
late = next toy 15 [] [] [] [] (new 3) genesis_hash

appended_late : (pg_append toy coarse no_faults 15 [] [] [] (some []) (new 3)).0 ≡ ok late
unfolding new pg_append append_tx tail_row clashes make_entry text_eq hash_entry hash_input
    hash_prefix decimal digits sum
appended_late = refl

late_lost : hash_entry toy (to_row coarse late) ≢ late.hash
unfolding new make_entry hash_entry hash_input hash_prefix decimal digits sum
late_lost = λ q. cc

new-IsLedger : IsLedger toy coarse (new 3)
unfolding new
new-IsLedger = (refl, (refl, tt), tt)

new_passes : pg_verify toy (new 3) ≡ ok tt
unfolding new pg_verify verify verify_rest sort insert text_eq
new_passes = refl

lost_time_breaks_verify_example :
    pg_verify toy (pg_append toy coarse no_faults 15 [] [] [] (some []) (new 3)).1
    ≡ err (invalid_hash late.index)
lost_time_breaks_verify_example =
    lost_time_breaks_verify toy coarse no_faults 15 [] [] [] (some []) (new 3) late new-IsLedger
      new_passes appended_late late_lost
