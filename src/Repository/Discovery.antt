-- ===== src/Repository/Discovery.antt =====
-- The searches of internal/registry/repository/agent.go by text, skill, tool and user name, and the
-- two lists that the background work reads. A limit that is not positive is 0 here.
use nexus_agent_protocol.Prelude.{
  ℕ, Bool, true, false, ◌&&◌, ◌||◌, not, Option, none, some, List, ◌++◌, Bytes, codes, ltb, leb,
  ◌==◌, if◌then◌else◌, is_empty, text_eq, some_of, keep, to_lower,
}
use nexus_agent_protocol.Model.Agent.{Agent, is_active, is_revoked, is_domain, is_nap_hosted}
use nexus_agent_protocol.World.{Env, M}
use nexus_agent_protocol.Repository.{query}
use nexus_agent_protocol.Repository.Like.{like}
use nexus_agent_protocol.Repository.Order.{sort, shuffle}
use nexus_agent_protocol.Repository.Search.{query_rows, newest}

-- the CASE of `SearchBySkill` and `SearchByTool`
unfoldable pub skill_rank : Agent → ℕ
skill_rank a =
    if not (is_empty a.cert_serial) && is_domain a.registration_type
    then 1
    else if is_domain a.registration_type
    then 2
    else 3

-- the CASE of `Search`
unfoldable pub text_rank : Agent → ℕ
text_rank a =
    if not (is_empty a.cert_serial) && is_domain a.registration_type
    then 1
    else if is_domain a.registration_type
    then 2
    else if is_nap_hosted a.registration_type
    then 3
    else 4

-- by a rank, and then newest first
unfoldable pub ranked : (Agent → ℕ) → Agent → Agent → Bool
unfolding newest
ranked rank a b = ltb (rank a) (rank b) || (rank a == rank b && newest a b)

-- the WHERE of `Search`, of a pattern; `sql_lower` is the database's lower()
unfoldable pub in_text : (Bytes → Bytes) → Bytes → Agent → Bool
unfolding like
in_text sql_lower pattern a =
    like pattern (sql_lower a.display_name)
    || like pattern (sql_lower a.description)
    || like pattern (sql_lower a.trust_root)
    || like pattern (sql_lower a.capability_node)
    || like pattern (sql_lower a.agent_id)
    || some_of (λ t. like pattern (sql_lower t)) a.tags

-- `ORDER BY last_seen_at ASC NULLS FIRST`
abbrev pub seen_first : Option ℕ → Option ℕ → Bool
seen_first none y = true
seen_first (some x) none = false
seen_first (some x) (some y) = leb x y

module _ (env : Env) where
  -- SearchBySkill
  unfoldable pub search_by_skill : Bytes → ℕ → ℕ → M (List Agent)
  unfolding query_rows ranked skill_rank
  search_by_skill skill limit offset =
      query_rows env (ranked skill_rank)
        (λ a. some_of (λ s. text_eq s skill) a.skill_ids && is_active a.status) limit offset

  -- SearchByTool
  unfoldable pub search_by_tool : Bytes → ℕ → ℕ → M (List Agent)
  unfolding query_rows ranked skill_rank
  search_by_tool tool limit offset =
      query_rows env (ranked skill_rank)
        (λ a. some_of (λ s. text_eq s tool) a.tool_names && is_active a.status) limit offset

  -- Search
  unfoldable pub search : (Bytes → Bytes) → Bytes → ℕ → ℕ → M (List Agent)
  unfolding query_rows ranked text_rank in_text
  search sql_lower q limit offset =
      query_rows env (ranked text_rank) (in_text sql_lower (codes "%" ++ to_lower q ++ codes "%"))
        limit offset

  -- ListActiveByUsername: `named` says which user has the name, in the table of the users
  unfoldable pub list_active_by_username : (ℕ → Bool) → ℕ → ℕ → M (List Agent)
  unfolding query_rows newest
  list_active_by_username named limit offset =
      query_rows env newest
        (λ a. elim a.owner_user_id [ none ↦ false | some u ↦ named u ] && is_active a.status) limit
        offset

  -- ListRevokedCerts: `ORDER BY updated_at DESC`
  unfoldable pub list_revoked_certs : M (List Agent)
  unfolding sort
  list_revoked_certs w =
      query env
        (λ rows.
          sort (λ a b. leb b.updated_at a.updated_at)
            (shuffle (env.order w.calls)
              (keep (λ a. is_revoked a.status && not (is_empty a.cert_serial)) rows)))
        w

  -- ListActiveEndpoints
  unfoldable pub list_active_endpoints : M (List Agent)
  unfolding sort
  list_active_endpoints w =
      query env
        (λ rows.
          sort (λ a b. seen_first a.last_seen_at b.last_seen_at)
            (shuffle (env.order w.calls)
              (keep (λ a. is_active a.status && not (is_empty a.endpoint)) rows)))
        w
