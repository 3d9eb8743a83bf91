-- ===== src/Handler/Queries.antt =====
-- The handlers of internal/registry/handler/agent.go that read.
use nexus_agent_protocol.Prelude.{
  ℕ, zero, suc, ◌&&◌, ◌||◌, not, Option, none, some, List, [], ◌∷◌, Bytes, codes, if◌then◌else◌,
  ◌==◌, ltb, is_empty, length, get_elem?, map, trim_space, Result, ok, err,
}
use nexus_agent_protocol.Action.{pure, ◌>>=◌}
use nexus_agent_protocol.Model.Agent.{Agent, compute_trust_tier, uri}
use nexus_agent_protocol.Uri
use nexus_agent_protocol.Uri.{Uri}
use nexus_agent_protocol.World.{Error, World, M}
use nexus_agent_protocol.Repository.Search.{
  list, search_by_org, search_by_capability, list_by_owner_user_id,
}
use nexus_agent_protocol.Repository.Discovery.{
  search_by_skill, search_by_tool, search, list_active_by_username, list_revoked_certs,
}
use nexus_agent_protocol.Identity.{Context}
use nexus_agent_protocol.Service.{McpManifest}
use nexus_agent_protocol.Service.Lifecycle.{resolve}
use nexus_agent_protocol.Service.Cards.{CardError, get_agent_card_json, generate_mcp_manifest}
use nexus_agent_protocol.Handler.{
  BatchOutcome, unset, bad_uri, failed, found, CardView, Body, message, error_text, owned_body,
  resolved_body, agents_body, card_body, manifest_body, views_body, revoked_list, batch_body,
  Response, Handler, Server, answer, calling, missing_or, path_id, get_agent,
}

abbrev pub ok_body : Body → Handler Response
ok_body body = pure (record { code = 200; body = body })

abbrev failing : Bytes → {A : Type 0} → Error → Handler A
failing text e = answer 500 (message text)

-- the query parameters of `ListAgents`
pub record ListQuery : Type 0 where
  pub q : Bytes
  pub trust_root : Bytes
  pub capability_node : Bytes
  pub username : Bytes
  pub skill : Bytes
  pub tool : Bytes
  pub limit : Bytes
  pub offset : Bytes

-- toCardView
unfoldable pub to_card_view : Agent → CardView
unfolding uri compute_trust_tier
to_card_view a = record {
  id = a.id;
  uri = uri a;
  display_name = a.display_name;
  description = a.description;
  capability_node = a.capability_node;
  endpoint = a.endpoint;
  trust_tier = compute_trust_tier a;
  metadata = a.metadata;
}

-- `DefaultQuery`
abbrev or_default : Bytes → Bytes → Bytes
or_default text default = if is_empty text then default else text

abbrev pub set_at : {A : Type 0} → ℕ → A → List A → List A
set_at i x [] = []
set_at zero x (y ∷ l) = x ∷ l
set_at (suc i) x (y ∷ l) = y ∷ set_at i x l

abbrev pub max_batch : ℕ
max_batch = 100

abbrev manifest_answer : Result CardError (Option McpManifest) → Handler Response
manifest_answer (ok none) = answer 404 (message (codes "agent has no declared MCP tools"))
manifest_answer (ok (some m)) = ok_body (manifest_body m)
manifest_answer (err e) = answer 500 (message (codes "failed to generate MCP manifest"))

module _ (h : Server) where
  -- `if limit <= 0 || limit > 200 { limit = 50 }`
  unfoldable pub limit_of : Bytes → ℕ
  limit_of text =
      let (negative, n) = h.atoi (or_default text (codes "50")) in
      if negative || n == 0 || ltb 200 n then 50 else n

  -- `if offset < 0 { offset = 0 }`
  unfoldable pub offset_of : Bytes → ℕ
  offset_of text =
      let (negative, n) = h.atoi (or_default text (codes "0")) in if negative then 0 else n

  -- the switch of `ListAgents`
  unfoldable pub list_query : ListQuery → ℕ → ℕ → M (List Agent)
  list_query p limit offset =
      let env = h.service.env in
      if not (is_empty (trim_space p.skill))
      then search_by_skill env (trim_space p.skill) limit offset
      else if not (is_empty (trim_space p.tool))
      then search_by_tool env (trim_space p.tool) limit offset
      else if not (is_empty (trim_space p.username))
      then list_active_by_username env (h.user_named (trim_space p.username)) limit offset
      else if not (is_empty (trim_space p.q))
      then search env h.sql_lower (trim_space p.q) limit offset
      else list env p.trust_root p.capability_node limit offset

  -- ListAgents
  unfoldable pub list_agents : ListQuery → Handler Response
  unfolding limit_of offset_of list_query
  list_agents p = do
    agents ←
        calling (list_query p (limit_of p.limit) (offset_of p.offset))
          (failing (codes "failed to list agents"))
    ok_body (agents_body agents)

  -- GetAgent: an owner that is not found is left out
  unfoldable pub show_agent : Bytes → Handler Response
  show_agent path = do
    id ← path_id h path
    agent ← get_agent h id
    ok_body (owned_body agent (elim agent.owner_user_id [ none ↦ none | some u ↦ h.owner u ]))

  -- ResolveAgent
  unfoldable pub resolve_agent : Bytes → Bytes → Bytes → Handler Response
  resolve_agent trust_root cap_node agent_id =
      if is_empty trust_root || is_empty cap_node || is_empty agent_id
      then answer 400 (message (codes "trust_root, capability_node and agent_id are required"))
      else (do
        agent ←
            calling (resolve h.service trust_root cap_node agent_id)
              (λ e. missing_or (answer 400 (error_text e)) e)
        ok_body (resolved_body agent))

  -- LookupByDomain
  unfoldable pub lookup_by_domain : Bytes → Bytes → Bytes → Bytes → Handler Response
  unfolding limit_of offset_of to_card_view
  lookup_by_domain org capability limit offset =
      if is_empty org && is_empty capability
      then answer 400 (message (codes "at least one of org or capability is required"))
      else (do
        agents ←
            calling
              (if not (is_empty capability)
                then search_by_capability h.service.env capability org (limit_of limit)
                    (offset_of offset)
                else search_by_org h.service.env org (limit_of limit) (offset_of offset))
              (failing (codes "lookup failed"))
        ok_body (views_body (map to_card_view agents)))

  -- GetAgentCard
  unfoldable pub show_card : Bytes → Handler Response
  show_card path = do
    id ← path_id h path
    agent ← get_agent h id
    (elim (get_agent_card_json h.service agent) [
      | ok json ↦ ok_body (card_body json)
      | err e ↦ answer 500 (message (codes "failed to generate agent card"))
    ])

  -- GetMCPManifest
  unfoldable pub show_manifest : Bytes → Handler Response
  show_manifest path = do
    id ← path_id h path
    agent ← get_agent h id
    manifest_answer (generate_mcp_manifest h.service agent)

  -- ListMyAgents
  unfoldable pub list_my_agents : Context → Bytes → Bytes → Handler Response
  unfolding limit_of offset_of
  list_my_agents c limit offset = elim c.user_claims [
    | none ↦ answer 401 (message (codes "user authentication required"))
    | some claims ↦
        let (valid, uid) = h.parse_uuid claims.user_id in
        if valid
        then (do
          agents ←
              calling (list_by_owner_user_id h.service.env uid (limit_of limit) (offset_of offset))
                (failing (codes "failed to list agents"))
          ok_body (agents_body agents))
        else answer 400 (message (codes "invalid user ID in token"))
  ]

  -- GetCRL
  unfoldable pub get_crl : Handler Response
  get_crl = do
    agents ←
        calling (list_revoked_certs h.service.env)
          (failing (codes "failed to list revoked certificates"))
    ok_body (revoked_list (map (λ a. (a.cert_serial, a.revocation_reason, a.updated_at)) agents))

  abbrev outcome : Result Error Agent → BatchOutcome
  outcome (ok a) = found a
  outcome (err e) = failed e

  -- the goroutine of one URI
  unfoldable pub resolve_one : Bytes → World → BatchOutcome × World
  unfolding Uri.parse
  resolve_one raw w = elim (Uri.parse h.url_parse raw) [
    | err e ↦ (bad_uri e, w)
    | ok u ↦ let (r, w') = resolve h.service u.org_name u.category u.agent_id w in (outcome r, w')
  ]

  -- The goroutines in the order in which they ask the database, which the scheduler chooses; each
  -- writes the result of its own index.
  unfoldable pub resolve_each :
      List ℕ
      → List Bytes
      → List (Bytes × BatchOutcome)
      → World
      → List (Bytes × BatchOutcome) × World
  unfolding resolve_one
  resolve_each [] uris results w = (results, w)
  resolve_each (i ∷ order) uris results w = elim (get_elem? uris i) [
    | none ↦ resolve_each order uris results w
    | some u ↦ let (o, w') = resolve_one u w in resolve_each order uris (set_at i (u, o) results) w'
  ]

  -- BatchResolve; `none` is a body that does not decode
  unfoldable pub batch_resolve : List ℕ → Option (List Bytes) → Handler Response
  unfolding resolve_each
  batch_resolve order none w = answer 400 (message (codes "invalid request")) w
  batch_resolve order (some uris) w =
      let (results, w') = resolve_each order uris (map (λ u. ([], unset)) uris) w in
      if ltb max_batch (length uris)
      then answer 400 (message (codes "maximum 100 URIs per batch")) w
      else ok_body (batch_body results) w'
