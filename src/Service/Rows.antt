-- ===== src/Service/Rows.antt =====
-- A later world in which a row is still stored, as a later version of itself; which writes of the
-- repository lead to such a world.
use nexus_agent_protocol.Prelude.{
  ℕ, ◌≡◌, ◌≢◌, refl, ap, inl, inr, ◌⊎◌, Bool-cases, Bool, true, false, some, List, [], ◌∷◌, arith,
  Bytes, ◌==◌, if◌then◌else◌, some_of,
}
use nexus_agent_protocol.Model.Agent.{Agent}
use nexus_agent_protocol.World.{World, Env}
use nexus_agent_protocol.World.Keeps.{IsHistory, Keeps}
use nexus_agent_protocol.Repository.{
  exec_update, taken, stamped, inserted, owner_missing, create, delete,
}
use nexus_agent_protocol.Repository.Table.{
  find, update_where, changed, find-update_where, find-delete_where_ne, find-id,
}
use nexus_agent_protocol.Service.{Service, append_ledger, dispatch_webhook}

-- A relation between a row and a later version of it.
pub record IsRowHistory (Q : Agent → Agent → Type 0) : Type 0 where
  pub refl_row : (a : Agent) → Q a a
  pub trans_row : {a b c : Agent} → Q a b → Q b c → Q a c

-- The row with the id is still there, and is a later version of itself.
abbrev pub RowKept : (Agent → Agent → Type 0) → ℕ → List Agent → List Agent → Type 0
RowKept Q id rows after =
    (a : Agent) → find id rows ≡ some a → (b : Agent) × (find id after ≡ some b) × Q a b

abbrev pub KeptIn : (Agent → Agent → Type 0) → ℕ → World → World → Type 0
KeptIn Q id v w = RowKept Q id v.agents w.agents

pub exec_update-cases :
    (env : Env) (p : Agent → Bool) (f : ℕ → Agent → Agent) (w : World)
    → ((exec_update env p f w).1.agents ≡ w.agents)
      ⊎ ((exec_update env p f w).1.agents ≡ update_where p (f (env.now w.calls)) w.agents)
unfolding exec_update
exec_update-cases env p f w = elim (Bool-cases (env.fault w.calls)) [
  | inl t ↦ inl (rw t refl)
  | inr n ↦ elim (Bool-cases (some_of p w.agents)) [
    | inl t ↦ inr (rw (n, t) refl)
    | inr m ↦ inl (rw (n, m) refl)
  ]
]

taken-id :
    (env : Env) (x : Agent) (id : ℕ) (rows : List Agent) {a : Agent}
    → find id rows ≡ some a
    → taken env x rows ≡ false
    → (x.id == id) ≡ false
unfolding taken find
taken-id env x id [] {a} h free = cc
taken-id env x id (b ∷ rows) {a} h free = ground (arith, taken-id env x id rows {a = a})

-- A new row has a new id, so an old row is found as before.
pub find-create :
    (env : Env) (agent : Agent) (w : World) (id : ℕ) (a : Agent)
    → find id w.agents ≡ some a
    → find id (create env agent w).1.agents ≡ some a
unfolding create find stamped inserted
find-create env agent w id a h =
    let filled = stamped env (env.new_uuid w.calls) (env.now w.calls) agent in
    elim (Bool-cases (env.fault w.calls)) [
      | inl t ↦ rw t h
      | inr n ↦ elim (Bool-cases (taken env filled w.agents)) [
        | inl t ↦ rw (n, t) h
        | inr m ↦ elim (Bool-cases (owner_missing env w.calls agent.owner_user_id)) [
          | inl t ↦ rw (n, m, t) h
          | inr o ↦ rw (n, m, o, taken-id env filled id w.agents {a = a} h m) h
        ]
      ]
    ]

module _ {Q : Agent → Agent → Type 0} (hist : IsRowHistory Q) (id : ℕ) where
  pub kept_same : (rows after : List Agent) → after ≡ rows → RowKept Q id rows after
  kept_same rows after same a h = (a, cc (ap (find id) same, h), hist.refl_row a)

  pub KeptIn-IsHistory : IsHistory (KeptIn Q id)
  KeptIn-IsHistory = record {
    same = λ {v} {w} h. kept_same v.agents w.agents h.agents;
    trans = λ h k a q.
        let (b, fb, qb) = h a q in let (c, fc, qc) = k b fb in (c, fc, hist.trans_row qb qc);
  }

  kept_cond : (b : Bool) {a c : Agent} → (b ≡ true → Q a c) → Q a (if b then c else a)
  kept_cond true q = q refl
  kept_cond false q = hist.refl_row _

  kept_where :
      (p : Agent → Bool) (f : Agent → Agent) (rows : List Agent)
      → ((a : Agent) → (f a).id ≡ a.id)
      → ((a : Agent) → a.id ≡ id → p a ≡ true → Q a (f a))
      → RowKept Q id rows (update_where p f rows)
  kept_where p f rows ids later a h = (
    (if p a then f a else a),
    cc (find-update_where p f id rows ids, ap (changed p f) h),
    kept_cond (p a) (later a (find-id id rows h)),
  )

  -- an update of rows that keeps their ids
  pub KeptIn-exec_update :
      (env : Env) (p : Agent → Bool) (f : ℕ → Agent → Agent)
      → ((now : ℕ) (a : Agent) → (f now a).id ≡ a.id)
      → ((now : ℕ) (a : Agent) → a.id ≡ id → p a ≡ true → Q a (f now a))
      → Keeps (KeptIn Q id) (exec_update env p f)
  KeptIn-exec_update env p f ids later = record {
    holds = λ w. elim (exec_update-cases env p f w) [
      | inl same ↦ kept_same _ _ same
      | inr new ↦ rw new (kept_where p (f (env.now w.calls)) w.agents (ids _) (later _))
    ];
  }

  -- a new row has a new id
  pub KeptIn-create : (env : Env) (a : Agent) → Keeps (KeptIn Q id) (create env a)
  KeptIn-create env a = record { holds = λ w b h. (b, find-create env a w id b h, hist.refl_row b) }

  pub KeptIn-delete : (env : Env) (i : ℕ) → i ≢ id → Keeps (KeptIn Q id) (delete env i)
  unfolding delete
  KeptIn-delete env i ne = record {
    holds = λ w b h. (b, ground (arith, find-delete_where_ne i id w.agents ne), hist.refl_row b);
  }

  -- the ledger and the webhooks are elsewhere
  pub KeptIn-append_ledger :
      (s : Service) (u a o : Bytes) (p : List (Bytes × Bytes))
      → Keeps (KeptIn Q id) (append_ledger s u a o p)
  unfolding append_ledger
  KeptIn-append_ledger s u a o p = record { holds = λ w. kept_same _ _ (ground arith) }

  pub KeptIn-dispatch_webhook :
      (s : Service) (t : Bytes) (p : List (Bytes × Bytes))
      → Keeps (KeptIn Q id) (dispatch_webhook s t p)
  unfolding dispatch_webhook
  KeptIn-dispatch_webhook s t p = record { holds = λ w. kept_same _ _ (ground arith) }
