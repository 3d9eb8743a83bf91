-- ===== src/Handler/Batch.antt =====
-- BatchResolve of internal/registry/handler/agent.go: the order of the goroutines.
use nexus_agent_protocol.Prelude.{
  ℕ, zero, suc, ◌≤◌, ◌<◌, ◌≡◌, refl, ap, ◌∙◌, true, false, inl, inr, Option-cases, Result-cases,
  Option, none, some, List, [], ◌∷◌, arith, if◌then◌else◌, ◌==◌, ltb, length, get_elem?, some_of,
  map, Bytes, Result, ok, err,
}
use nexus_agent_protocol.Model.Agent.{Agent}
use nexus_agent_protocol.Uri
use nexus_agent_protocol.World.{Error, World, tick}
use nexus_agent_protocol.Repository.{query, one, get_by_agent_id}
use nexus_agent_protocol.Service.Normalize.{normalize_capability}
use nexus_agent_protocol.Service.Healthy.{Healthy}
use nexus_agent_protocol.Service.Lifecycle.{resolve, settle, resolve_local, resolve_remote}
use nexus_agent_protocol.Handler.{BatchOutcome, unset, batch_body, Server}
use nexus_agent_protocol.Handler.Queries.{
  set_at, max_batch, resolve_one, resolve_each, batch_resolve,
}

module _ {A : Type 0} where
  get_elem-set_at :
      (i j : ℕ) (x : A) (l : List A)
      → get_elem? (set_at i x l) j
        ≡ (if i == j then elim (get_elem? l j) [ none ↦ none | some y ↦ some x ] else get_elem? l j)
  get_elem-set_at i j x [] = ground arith
  get_elem-set_at zero zero x (y ∷ l) = ground arith
  get_elem-set_at zero (suc j) x (y ∷ l) = ground arith
  get_elem-set_at (suc i) zero x (y ∷ l) = ground arith
  get_elem-set_at (suc i) (suc j) x (y ∷ l) = ground (arith, get_elem-set_at i j x l)

  get_elem-ext : (l k : List A) → ((i : ℕ) → get_elem? l i ≡ get_elem? k i) → l ≡ k
  get_elem-ext [] [] h = refl
  get_elem-ext [] (y ∷ k) h = absurd (ground (arith, h 0))
  get_elem-ext (x ∷ l) [] h = absurd (ground (arith, h 0))
  get_elem-ext (x ∷ l) (y ∷ k) h = ground (arith, h 0, get_elem-ext l k λ i. h (suc i))

get_elem-map :
    {A B : Type 0} (f : A → B) (l : List A) (i : ℕ)
    → get_elem? (map f l) i ≡ (elim (get_elem? l i) [ none ↦ none | some x ↦ some (f x) ])
get_elem-map f [] i = refl
get_elem-map f (x ∷ l) zero = refl
get_elem-map f (x ∷ l) (suc i) = get_elem-map f l i

get_elem_lt : {A : Type 0} (l : List A) (i : ℕ) (x : A) → get_elem? l i ≡ some x → i < length l
get_elem_lt [] i x q = absurd (ground (arith, q))
get_elem_lt (y ∷ l) zero x q = omega arith
get_elem_lt (y ∷ l) (suc i) x q = omega (arith, get_elem_lt l i x q)

same_at :
    {A : Type 0} (l : List A) (i j : ℕ) (p : Option A)
    → get_elem? l i ≡ p
    → i == j ≡ true
    → get_elem? l j ≡ p
same_at l i j p q e = ground (arith, q, e)

not_over : (n : ℕ) → n ≤ 100 → ltb max_batch n ≡ false
not_over n h = ground arith

-- the world after some number of calls
abbrev at : ℕ → World → World
at n v = record v { calls = n }

module _ (h : Server) (healthy : Healthy h.service.env) where
  one_result :
      (o : Option Agent) (w v : World) → one h.service.env o w ≡ ((one h.service.env o v).0, w)
  unfolding one
  one_result none w v = refl
  one_result (some a) w v = refl

  row_result :
      (t c a : Bytes) (n : ℕ) (v : World)
      → get_by_agent_id h.service.env t c a (at n v)
        ≡ ((get_by_agent_id h.service.env t c a v).0, at (suc n) v)
  unfolding get_by_agent_id query
  row_result t c a n v = rw (healthy n, healthy v.calls) (one_result _ (at (suc n) v) (tick v))

  settle_result :
      (t c a : Bytes) (r : Result Error Agent) (w v : World)
      → settle h.service t c a r w ≡ ((settle h.service t c a r v).0, w)
  unfolding settle resolve_local resolve_remote
  settle_result t c a (ok x) w v = ground arith
  settle_result t c a (err e) w v = ground arith

  -- the answer of a resolution rests on the rows alone
  resolve_result :
      (t c a : Bytes) (n : ℕ) (v : World)
      → resolve h.service t c a (at n v) ≡ ((resolve h.service t c a v).0, at (suc n) v)
  unfolding resolve
  resolve_result t c a n v =
      rw (row_result t (normalize_capability c) a n v) (settle_result t c a _ (at (suc n) v) _)

  resolve_one_result :
      (u : Bytes) (n : ℕ) (v : World)
      → (m : ℕ) × (resolve_one h u (at n v) ≡ ((resolve_one h u v).0, at m v))
  unfolding resolve_one
  resolve_one_result u n v = elim (Result-cases (Uri.parse h.url_parse u)) [
    | inl (e, q) ↦ (n, rw (q, resolve_one) refl)
    | inr (p, q) ↦
        (suc n, rw (q, resolve_result p.org_name p.category p.agent_id n v, resolve_one) refl)
  ]

  -- the result of an index: set if the index's goroutine has run
  abbrev slot :
      World
      → List ℕ
      → ℕ
      → Option (Bytes × BatchOutcome)
      → Option Bytes
      → Option (Bytes × BatchOutcome)
  slot v order j none u = none
  slot v order j (some y) none = some y
  slot v order j (some y) (some u) =
      some (if some_of (λ i. i == j) order then (u, (resolve_one h u v).0) else y)

  slot_nil :
      (v : World) (j : ℕ) (o : Option (Bytes × BatchOutcome)) (p : Option Bytes)
      → o ≡ slot v [] j o p
  slot_nil v j none p = refl
  slot_nil v j (some y) none = refl
  slot_nil v j (some y) (some u) = refl

  slot_skip :
      (v : World) (i j : ℕ) (order : List ℕ) (o : Option (Bytes × BatchOutcome)) (p : Option Bytes)
      → (i == j ≡ true → p ≡ none)
      → slot v order j o p ≡ slot v (i ∷ order) j o p
  slot_skip v i j order none p h = refl
  slot_skip v i j order (some y) none h = refl
  slot_skip v i j order (some y) (some u) h = ground (arith, h)

  slot_set :
      (v : World) (i j : ℕ) (order : List ℕ) (u : Bytes) (o : Option (Bytes × BatchOutcome))
      (p : Option Bytes)
      → (i == j ≡ true → p ≡ some u)
      → slot v order j
          (if i == j then elim o [ none ↦ none | some y ↦ some (u, (resolve_one h u v).0) ] else o)
          p
        ≡ slot v (i ∷ order) j o p
  slot_set v i j order u none p h = ground (arith, h)
  slot_set v i j order u (some y) none h = ground (arith, h)
  slot_set v i j order u (some y) (some x) h = ground (arith, h)

  covered :
      (order : List ℕ) (uris : List Bytes) (v : World) (j : ℕ)
      → (j < length uris → some_of (λ i. i == j) order ≡ true)
      → slot v order j (get_elem? (map (λ u. ([], unset)) uris) j) (get_elem? uris j)
        ≡ get_elem? (map (λ u. (u, (resolve_one h u v).0)) uris) j
  covered order uris v j all = elim (Option-cases (get_elem? uris j)) [
    | inl q ↦
        rw
          (
            get_elem-map {B = Bytes × BatchOutcome} (λ u. ([], unset)) uris j,
            get_elem-map {B = Bytes × BatchOutcome} (λ u. (u, (resolve_one h u v).0)) uris j,
            q,
          )
          refl
    | inr (u, q) ↦
        rw
          (
            get_elem-map {B = Bytes × BatchOutcome} (λ u. ([], unset)) uris j,
            get_elem-map {B = Bytes × BatchOutcome} (λ u. (u, (resolve_one h u v).0)) uris j,
            q,
          )
          rw (all (get_elem_lt uris j u q)) refl
  ]

  step_skip :
      (i : ℕ) (order : List ℕ) (uris : List Bytes) (rs : List (Bytes × BatchOutcome)) (w : World)
      → get_elem? uris i ≡ none
      → resolve_each h (i ∷ order) uris rs w ≡ resolve_each h order uris rs w
  unfolding resolve_each
  step_skip i order uris rs w q = rw (q, resolve_each) refl

  step_set :
      (i : ℕ) (order : List ℕ) (uris : List Bytes) (rs : List (Bytes × BatchOutcome)) (w v : World)
      (u : Bytes) (o : BatchOutcome)
      → get_elem? uris i ≡ some u
      → resolve_one h u w ≡ (o, v)
      → resolve_each h (i ∷ order) uris rs w ≡ resolve_each h order uris (set_at i (u, o) rs) v
  unfolding resolve_each
  step_set i order uris rs w v u o q run = rw (q, resolve_each) rw run refl

  resolve_each_result :
      (order : List ℕ) (uris : List Bytes) (rs : List (Bytes × BatchOutcome)) (n : ℕ) (v : World)
      → (m : ℕ) × ((resolve_each h order uris rs (at n v)).1 ≡ at m v)
        × ((j : ℕ)
            → get_elem? (resolve_each h order uris rs (at n v)).0 j
              ≡ slot v order j (get_elem? rs j) (get_elem? uris j))
  unfolding resolve_each
  resolve_each_result [] uris rs n v =
      (n, refl, λ j. slot_nil v j (get_elem? rs j) (get_elem? uris j))
  resolve_each_result (i ∷ order) uris rs n v = elim (Option-cases (get_elem? uris i)) [
    | inl q ↦
        let step = step_skip i order uris rs (at n v) q in
        let (k, final, at_each) = resolve_each_result order uris rs n v in
        (
          k,
          ap (λ r. r.1) step ∙ final,
          λ j.
              ap (λ r. get_elem? r.0 j) step
              ∙ at_each j
              ∙ slot_skip v i j order (get_elem? rs j) (get_elem? uris j) (same_at uris i j none q),
        )
    | inr (u, q) ↦
        let val = (resolve_one h u v).0 in
        let (m, run) = resolve_one_result u n v in
        let step = step_set i order uris rs (at n v) (at m v) u val q run in
        let (k, final, at_each) = resolve_each_result order uris (set_at i (u, val) rs) m v in
        (
          k,
          ap (λ r. r.1) step ∙ final,
          λ j.
              ap (λ r. get_elem? r.0 j) step
              ∙ at_each j
              ∙ ap (λ o. slot v order j o (get_elem? uris j)) (get_elem-set_at i j (u, val) rs)
              ∙ slot_set v i j order u (get_elem? rs j) (get_elem? uris j)
                  (same_at uris i j (some u) q),
        )
  ]

  -- Every goroutine has run once or more: whatever the order was in which they asked a database
  -- that answers, of at most 100 URIs, the results are those of resolving each URI alone, in the order of
  -- the request, and only the number of calls has changed.
  pub batch_order :
      (order : List ℕ) (uris : List Bytes) (v : World)
      → length uris ≤ 100
      → ((j : ℕ) → j < length uris → some_of (λ i. i == j) order ≡ true)
      → (m : ℕ) × (batch_resolve h order (some uris) v ≡ (
        ok (record { code = 200; body = batch_body (map (λ u. (u, (resolve_one h u v).0)) uris) }),
        record v { calls = m },
      ))
  unfolding batch_resolve
  batch_order order uris v few all =
      let blank = map (λ u. ([], unset)) uris in
      let (m, final, at_each) = resolve_each_result order uris blank v.calls v in
      let same =
        get_elem-ext (resolve_each h order uris blank v).0
          (map (λ u. (u, (resolve_one h u v).0)) uris)
          (λ j. at_each j ∙ covered order uris v j (all j)) in
      (m, rw (not_over (length uris) few, same, final) refl)
