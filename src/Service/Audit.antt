-- ===== src/Service/Audit.antt =====
-- The trust ledger under any sequence of requests.
use nexus_agent_protocol.Prelude.{
  ℕ, ◌≡◌, ◌⊎◌, refl, sym, ◌∙◌, ap, inl, inr, Bool, Bool-cases, List, [], ◌∷◌, ◌++◌, append_assoc,
  append-nil, arith, Bytes, ok, err,
}
use nexus_agent_protocol.Model.Agent.{Agent}
use mathlib.Core.Path.{subst}
use nexus_agent_protocol.Ledger.{Hashing, Entry, invalid_hash}
use nexus_agent_protocol.Ledger.Postgres.{pg_verify}
use nexus_agent_protocol.Ledger.Stored.{
  IsLedger, IsExtended, pg_append-IsExtended, pg_verify-IsVerdict,
}
use nexus_agent_protocol.World.{World, Env}
use nexus_agent_protocol.World.Keeps.{IsHistory, Keeps}
use nexus_agent_protocol.Repository.{
  exec_update, create, update, update_status, activate_row, delete, update_status_with_reason,
  suspend_row, restore_row, deprecate_row, update_health_status,
}
use nexus_agent_protocol.Service.{Service, append_ledger, dispatch_webhook}
use nexus_agent_protocol.Service.Operations.{Op, run}
use nexus_agent_protocol.Service.Histories.{IsKept, AllMay, run-Keeps}

-- If the earlier table is a ledger, then the later one is too and has it as its beginning.
record LedgerExtended (h : Hashing) (column : ℕ → ℕ) (v w : World) : Type 0 where
  grown : IsLedger h column v.ledger → IsExtended h column v.ledger w.ledger

abbrev AnyOp : Op → Type 0
AnyOp op = Unit

module _ (h : Hashing) (column : ℕ → ℕ) where
  LedgerExtended-same : (v w : World) → w.ledger ≡ v.ledger → LedgerExtended h column v w
  LedgerExtended-same v w same = record {
    grown = λ k. record {
      more = [];
      extends = same ∙ sym (append-nil v.ledger);
      intact = subst (IsLedger h column) (sym same) k;
    };
  }

  LedgerExtended-IsHistory : IsHistory (LedgerExtended h column)
  LedgerExtended-IsHistory = record {
    same = λ {v} {w} k. LedgerExtended-same v w k.ledger;
    trans = λ {u} {v} {w} a b. record {
      grown = λ k.
          let first = a.grown k in
          let second = b.grown first.intact in
          record {
            more = first.more ++ second.more;
            extends = cc (
              second.extends,
              ap (λ l. l ++ second.more) first.extends,
              append_assoc u.ledger first.more second.more,
            );
            intact = second.intact;
          };
    };
  }

  LedgerExtended-exec_update :
      (env : Env) (p : Agent → Bool) (f : ℕ → Agent → Agent)
      → Keeps (LedgerExtended h column) (exec_update env p f)
  unfolding exec_update
  LedgerExtended-exec_update env p f = record {
    holds = λ w. LedgerExtended-same _ _ (ground arith);
  }

module _ (s : Service) where
  LedgerExtended-append_ledger :
      (u a o : Bytes) (p : List (Bytes × Bytes))
      → Keeps (LedgerExtended s.hashing s.ledger_column) (append_ledger s u a o p)
  unfolding append_ledger
  LedgerExtended-append_ledger u a o p = record {
    holds = λ w. elim (Bool-cases s.has_ledger) [
      | inl t ↦ rw t (record {
        grown = λ k.
            pg_append-IsExtended s.hashing s.ledger_column (s.ledger_faults w.calls)
              (s.env.now w.calls) u a o (s.codec.marshal_map p) w.ledger k;
      })
      | inr n ↦ rw n (LedgerExtended-same s.hashing s.ledger_column w w refl)
    ];
  }

  extended-IsKept : IsKept s AnyOp (LedgerExtended s.hashing s.ledger_column)
  unfolding update update_status activate_row update_status_with_reason suspend_row restore_row
      deprecate_row update_health_status create delete dispatch_webhook
  extended-IsKept =
      let h = s.hashing in
      let c = s.ledger_column in
      record {
        history = LedgerExtended-IsHistory h c;
        creates = λ a. record { holds = λ w. LedgerExtended-same h c _ _ (ground arith) };
        updates = λ a. LedgerExtended-exec_update h c s.env _ _;
        activates = λ i may. LedgerExtended-exec_update h c s.env _ _;
        certifies = λ i n b may. LedgerExtended-exec_update h c s.env _ _;
        revokes = λ i. LedgerExtended-exec_update h c s.env _ _;
        revokes_for = λ i n. LedgerExtended-exec_update h c s.env _ _;
        suspends = λ i. LedgerExtended-exec_update h c s.env _ _;
        restores = λ i. LedgerExtended-exec_update h c s.env _ _;
        deprecates = λ i d b. LedgerExtended-exec_update h c s.env _ _;
        deletes = λ i may. record { holds = λ w. LedgerExtended-same h c _ _ (ground arith) };
        probes = λ i n t. LedgerExtended-exec_update h c s.env _ _;
        appends = LedgerExtended-append_ledger;
        dispatches = λ t p. record { holds = λ w. LedgerExtended-same h c _ _ (ground arith) };
      }

every_op : (ops : List Op) → AllMay AnyOp ops
every_op [] = tt
every_op (op ∷ ops) = (tt, every_op ops)

-- The trust ledger is append-only: if its rows are a ledger, numbered from 0, begun by the genesis
-- entry, chained, and each hashed with a time of which the column kept its timestamp, then after any
-- sequence of requests they are the old rows with rows behind them and a ledger again, whatever
-- failed; and `Verify` passes, or it finds a row that does not have the hash of its columns, and
-- never a broken link.
pub ledger_extended :
    (s : Service) (ops : List Op) (w : World)
    → IsLedger s.hashing s.ledger_column w.ledger
    → (more : List Entry) × ((run s ops w).ledger ≡ w.ledger ++ more)
      × IsLedger s.hashing s.ledger_column (run s ops w).ledger
      × ((pg_verify s.hashing (run s ops w).ledger ≡ ok tt)
          ⊎ ((i : ℕ) × (pg_verify s.hashing (run s ops w).ledger ≡ err (invalid_hash i))))
ledger_extended s ops w h =
    let k = (run-Keeps s (extended-IsKept s) ops w (every_op ops)).grown h in
    (k.more, k.extends, k.intact, pg_verify-IsVerdict s.hashing s.ledger_column _ k.intact)
