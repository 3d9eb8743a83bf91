-- ===== src/Repository/Search.antt =====
-- The lists and searches of internal/registry/repository/agent.go. A limit that is not positive
-- is 0 here.
pub mod Laws
use nexus_agent_protocol.Prelude.{
  ℕ, ◌+◌, ◌≤◌, ◌≡◌, refl, Bool, true, false, ◌&&◌, ◌||◌, not, Option, none, some, List, [], ◌∷◌,
  ◌++◌, arith, Bytes, codes, ltb, leb, ◌==◌, if◌then◌else◌, is_empty, text_eq, length, keep, take,
  drop, All, All-take, All-drop, length-take-le,
}
use nexus_agent_protocol.Model.Agent.{Agent, is_active, is_revoked, is_domain}
use nexus_agent_protocol.World.{Env, M}
use nexus_agent_protocol.Repository.{query}
use nexus_agent_protocol.Repository.Like.{like}
use nexus_agent_protocol.Repository.Order.{
  sort, page, count, shuffle, IsSorted, IsOrder, All-keep, All-sort, sort-IsSorted, page-IsSorted,
}

-- `ORDER BY created_at DESC`
unfoldable pub newest : Agent → Agent → Bool
newest a b = leb b.created_at a.created_at

-- the CASE of `SearchByCapability`
unfoldable pub rank : Agent → ℕ
rank a =
    let certified = not (is_empty a.cert_serial) in
    let owned = is_domain a.registration_type in
    if certified && owned then 1 else if certified then 2 else if owned then 3 else 4

unfoldable pub by_rank : Agent → Agent → Bool
unfolding rank newest
by_rank a b = ltb (rank a) (rank b) || (rank a == rank b && newest a b)

abbrev pub owner_is : ℕ → Agent → Bool
owner_is user a = elim a.owner_user_id [ none ↦ false | some o ↦ o == user ]

-- a capability of the category itself, or below it
unfoldable pub in_category : Bytes → Agent → Bool
unfolding like
in_category cap a = text_eq a.capability_node cap || like (cap ++ codes ">%") a.capability_node

-- `SELECT * ... WHERE ... ORDER BY ... LIMIT ... OFFSET ...`, of rows that are read in an order
unfoldable pub select :
    (ℕ → ℕ) → (Agent → Agent → Bool) → (Agent → Bool) → ℕ → ℕ → List Agent → List Agent
unfolding sort page shuffle
select order before p limit offset rows =
    page limit offset (sort before (shuffle order (keep p rows)))

-- the WHERE clauses
unfoldable pub listed : Bytes → Bytes → Agent → Bool
unfolding in_category
listed trust_root cap a =
    (is_empty trust_root || text_eq a.trust_root trust_root) && (is_empty cap || in_category cap a)

unfoldable pub in_search : Bytes → Bytes → Agent → Bool
unfolding in_category
in_search cap org a =
    in_category cap a && is_active a.status && (is_empty org || text_eq a.trust_root org)

module _ (env : Env) where
  -- a SELECT of several rows
  unfoldable pub query_rows : (Agent → Agent → Bool) → (Agent → Bool) → ℕ → ℕ → M (List Agent)
  unfolding select
  query_rows before p limit offset w =
      query env (select (env.order w.calls) before p limit offset) w

  -- List
  unfoldable pub list : Bytes → Bytes → ℕ → ℕ → M (List Agent)
  unfolding query_rows newest listed
  list trust_root cap limit offset = query_rows newest (listed trust_root cap) limit offset

  -- ListByOwnerDomain
  unfoldable pub list_by_owner_domain : Bytes → ℕ → ℕ → M (List Agent)
  unfolding query_rows newest
  list_by_owner_domain owner limit offset =
      query_rows newest (λ a. text_eq a.owner_domain owner && is_active a.status) limit offset

  -- SearchByOrg
  unfoldable pub search_by_org : Bytes → ℕ → ℕ → M (List Agent)
  unfolding query_rows newest
  search_by_org org limit offset =
      query_rows newest (λ a. text_eq a.trust_root org && is_active a.status) limit offset

  -- SearchByCapability
  unfoldable pub search_by_capability : Bytes → Bytes → ℕ → ℕ → M (List Agent)
  unfolding query_rows by_rank in_search
  search_by_capability cap org limit offset = query_rows by_rank (in_search cap org) limit offset

  -- ListByOwnerUserID
  unfoldable pub list_by_owner_user_id : ℕ → ℕ → ℕ → M (List Agent)
  unfolding query_rows newest
  list_by_owner_user_id user limit offset = query_rows newest (owner_is user) limit offset

  -- ListActiveByOwnerUserID
  unfoldable pub list_active_by_owner_user_id : ℕ → ℕ → ℕ → M (List Agent)
  unfolding query_rows newest
  list_active_by_owner_user_id user limit offset =
      query_rows newest (λ a. owner_is user a && is_active a.status) limit offset

  -- CountActiveByOwnerUserID
  unfoldable pub count_active_by_owner_user_id : ℕ → M ℕ
  count_active_by_owner_user_id user =
      query env (count (λ a. owner_is user a && is_active a.status))
