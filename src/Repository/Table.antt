-- ===== src/Repository/Table.antt =====
-- Rows of the table `agents`: the first row with an id, updates and deletions by a test.
use nexus_agent_protocol.Prelude.{
  ℕ, ◌≡◌, ◌≢◌, refl, Bool, true, Option, none, some, List, [], ◌∷◌, arith, ◌==◌, if◌then◌else◌,
  some_of,
}
use nexus_agent_protocol.Model.Agent.{Agent}

unfoldable pub find : ℕ → List Agent → Option Agent
find id [] = none
find id (a ∷ rows) = if a.id == id then some a else find id rows

unfoldable pub update_where : (Agent → Bool) → (Agent → Agent) → List Agent → List Agent
update_where p f [] = []
update_where p f (a ∷ rows) = (if p a then f a else a) ∷ update_where p f rows

unfoldable pub delete_where : (Agent → Bool) → List Agent → List Agent
delete_where p [] = []
delete_where p (a ∷ rows) = let rest = delete_where p rows in if p a then rest else a ∷ rest

-- What an update makes of one row.
abbrev pub changed : (Agent → Bool) → (Agent → Agent) → Option Agent → Option Agent
changed p f none = none
changed p f (some a) = some (if p a then f a else a)

-- An update that leaves ids alone changes the row that is found, and no other.
pub find-update_where :
    (p : Agent → Bool) (f : Agent → Agent) (id : ℕ) (rows : List Agent)
    → ((a : Agent) → (f a).id ≡ a.id)
    → find id (update_where p f rows) ≡ changed p f (find id rows)
unfolding find update_where
find-update_where p f id [] keeps = refl
find-update_where p f id (a ∷ rows) keeps =
    ground (arith, keeps a, find-update_where p f id rows keeps)

pub find-delete_where_self :
    (id : ℕ) (rows : List Agent) → find id (delete_where (λ a. a.id == id) rows) ≡ none
unfolding find delete_where
find-delete_where_self id [] = refl
find-delete_where_self id (a ∷ rows) = ground (arith, find-delete_where_self id rows)

pub find-delete_where_ne :
    (id j : ℕ) (rows : List Agent)
    → id ≢ j
    → find j (delete_where (λ a. a.id == id) rows) ≡ find j rows
unfolding find delete_where
find-delete_where_ne id j [] ne = refl
find-delete_where_ne id j (a ∷ rows) ne = ground (arith, find-delete_where_ne id j rows ne)

pub find-id : (id : ℕ) (rows : List Agent) {a : Agent} → find id rows ≡ some a → a.id ≡ id
unfolding find
find-id id [] {a} h = cc
find-id id (b ∷ rows) {a} h = ground (arith, find-id id rows {a = a})

-- A row that is found and passes the test is among the rows that the test counts.
pub some_of-find :
    (p : Agent → Bool) (id : ℕ) (rows : List Agent) {a : Agent}
    → find id rows ≡ some a
    → p a ≡ true
    → some_of p rows ≡ true
unfolding find
some_of-find p id [] {a} h k = cc
some_of-find p id (b ∷ rows) {a} h k = ground (arith, some_of-find p id rows {a = a})
