-- ===== src/Handler.antt =====
-- internal/registry/handler/agent.go: the requests over agents. A handler is an action whose error is
-- the answer that an early return has written.
pub mod Agents
pub mod Requests
pub mod Paging
pub mod Batch
pub mod Queries
pub mod Atomic
pub mod Authorization
pub mod Toys
mod Tests
use nexus_agent_protocol.Prelude.{
  ℕ, Bool, true, false, ◌&&◌, ◌||◌, not, Option, none, some, List, [], ◌∷◌, ◌++◌, Bytes, codes,
  if◌then◌else◌, ◌==◌, ltb, leb, is_some, is_empty, text_eq, Result, ok, err,
}
use nexus_agent_protocol.Action.{Action, pure, fail, continue, ◌>>=◌, ◌>>◌, tried}
use nexus_agent_protocol.Model.Agent.{Agent, AgentMeta, TrustTier, is_domain, uri}
use nexus_agent_protocol.Threat.{Report}
use nexus_agent_protocol.Uri.{Url, UriError}
use nexus_agent_protocol.World.{Error, not_found, World, M}
use nexus_agent_protocol.Identity.{Tokens, Context, TaskTokenClaims, UserTokenClaims, has_scope}
use nexus_agent_protocol.Service.{Service, McpManifest}
use nexus_agent_protocol.Service.Activate.{ActivationResult}
use nexus_agent_protocol.Service.Lifecycle.{get}

-- One result of `BatchResolve` beside its URI: the agent, whose endpoint and status are shown, or an
-- error. `unset` is the zero value.
pub data BatchOutcome : Type 0 where
  unset : BatchOutcome
  bad_uri : UriError → BatchOutcome
  failed : Error → BatchOutcome
  found : Agent → BatchOutcome

-- agentCardView
pub record CardView : Type 0 where
  pub id : ℕ
  pub uri : Bytes
  pub display_name : Bytes
  pub description : Bytes
  pub capability_node : Bytes
  pub endpoint : Bytes
  pub trust_tier : TrustTier
  pub metadata : AgentMeta

-- The JSON that an answer holds.
pub data Body : Type 0 where
  no_body : Body
  message : Bytes → Body
  error_text : Error → Body
  rejected_body : Report → Body
  registered_body : Agent → Option Report → Body
  agent_body : Agent → Body
  owned_body : Agent → Option (Bytes × Bytes × Bytes) → Body
  status_body : Bytes → Body
  revoked_body : Bytes → Body
  activated_body : ActivationResult → Body
  resolved_body : Agent → Body
  agents_body : List Agent → Body
  card_body : Bytes → Body
  manifest_body : McpManifest → Body
  views_body : List CardView → Body
  revoked_list : List (Bytes × Bytes × ℕ) → Body
  batch_body : List (Bytes × BatchOutcome) → Body

pub record Response : Type 0 where
  pub code : ℕ
  pub body : Body

abbrev pub Handler : Type 0 → Type 0
Handler A = Action World Response A

-- AgentHandler: `tokens` and `user_tokens` say which issuers are configured. `parse_uuid` is
-- `uuid.Parse`, which returns a value with its error too. `error_string` is the text of an
-- error that the service only passes on; `owner` is the owner's name, display name and avatar.
-- `atoi` is `strconv.Atoi`: is the number negative, and its size. `url_parse` is `url.Parse`,
-- `user_named` the table of the users, and `sql_lower` the database's lower().
pub record Server : Type 0 where
  pub service : Service
  pub tokens : Bool
  pub user_tokens : Bool
  pub parse_uuid : Bytes → Bool × ℕ
  pub has_scorer : Bool
  pub error_string : Error → Bytes
  pub owner : ℕ → Option (Bytes × Bytes × Bytes)
  pub atoi : Bytes → Bool × ℕ
  pub url_parse : Bytes → Option Url
  pub user_named : Bytes → ℕ → Bool
  pub sql_lower : Bytes → Bytes

abbrev pub answer : {A : Type 0} → ℕ → Body → Handler A
answer code body = fail (record { code = code; body = body })

abbrev pub is_not_found : Error → Bool
is_not_found not_found = true
is_not_found _ = false

-- a service's error is answered
unfoldable pub or_answer : {A : Type 0} → (Error → Handler A) → Result Error A → Handler A
or_answer on_error (ok a) = pure a
or_answer on_error (err e) = on_error e

-- a call of the service, with the answer to each of its errors
abbrev pub calling : {A : Type 0} → M A → (Error → Handler A) → Handler A
calling m on_error = tried m >>= or_answer on_error

-- `ErrNotFound` is a 404
abbrev pub missing_or : {A : Type 0} → Handler A → Error → Handler A
missing_or other e =
    if is_not_found e then answer 404 (message (codes "agent not found")) else other

-- Is the caller the agent itself, or an administrator?
unfoldable pub is_agent : Agent → Option TaskTokenClaims → Bool
unfolding has_scope text_eq
is_agent a none = false
is_agent a (some claims) =
    text_eq claims.agent_uri (uri a) || has_scope (some claims) (codes "nexus:admin")

module _ (h : Server) where
  -- the id of the path
  unfoldable pub path_id : Bytes → Handler ℕ
  path_id text =
      let (valid, id) = h.parse_uuid text in
      if valid then pure id else answer 400 (message (codes "invalid agent ID"))

  unfoldable pub get_agent : ℕ → Handler Agent
  get_agent id =
      calling (get h.service id) (missing_or (answer 500 (message (codes "failed to get agent"))))

  -- Is the caller the user who owns the agent? An error of `uuid.Parse` is ignored.
  unfoldable pub is_owner : Agent → Option UserTokenClaims → Bool
  is_owner a none = false
  is_owner a (some claims) = elim a.owner_user_id [
    | none ↦ false
    | some owner ↦ owner == (h.parse_uuid claims.user_id).1
  ]

  unfoldable pub authorized : Agent → Context → Bool
  unfolding is_agent is_owner
  authorized a c = is_agent a c.agent_claims || is_owner a c.user_claims

  -- an unauthorized caller is answered
  unfoldable pub refuse : Context → Bytes → Handler (Unit {0})
  refuse c text =
      if not (is_some c.agent_claims) && not (is_some c.user_claims)
      then answer 401 (message (codes "authentication required"))
      else answer 403 (message text)

  unfoldable pub check : Bool → Agent → Context → Bytes → Handler (Unit {0})
  unfolding authorized refuse
  check enforced a c text = if enforced && not (authorized a c) then refuse c text else pure tt

  -- authorizeAgentAction
  unfoldable pub authorize_agent_action : Context → ℕ → Bytes → Handler (Unit {0})
  authorize_agent_action c id action = do
    a ← get_agent id
    check (h.tokens || h.user_tokens) a c
        (codes "cannot " ++ action ++ codes " another agent's registration")
