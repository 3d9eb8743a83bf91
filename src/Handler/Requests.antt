-- ===== src/Handler/Requests.antt =====
-- internal/registry/handler/agent.go: the requests that write, as one type, and who may make them.
use nexus_agent_protocol.Prelude.{Bool, true, ◌||◌, not, Option, none, some, Bytes}
use nexus_agent_protocol.Model.Agent.{Agent, RegisterRequest, UpdateRequest, DeprecateRequest}
use nexus_agent_protocol.Identity.{Context}
use nexus_agent_protocol.Handler.{Response, Handler, Server}
use nexus_agent_protocol.Handler.Agents.{
  create_agent, patch_agent, remove_agent, activate_agent, revoke_agent, suspend_agent,
  restore_agent, deprecate_agent, is_ownerless_domain,
}

-- a request, with its path's id and its body; `none` is a body that does not decode
pub data Change : Type 0 where
  posting : Option RegisterRequest → Change
  patching : Bytes → Option UpdateRequest → Change
  removing activating suspending restoring : Bytes → Change
  revoking : Bytes → Bytes → Change
  deprecating : Bytes → DeprecateRequest → Change

-- the routes of `Register` that write
unfoldable pub handle : Server → Context → Change → Handler Response
handle h c (posting r) = create_agent h c r
handle h c (patching path r) = patch_agent h c path r
handle h c (removing path) = remove_agent h c path
handle h c (activating path) = activate_agent h c path
handle h c (suspending path) = suspend_agent h c path
handle h c (restoring path) = restore_agent h c path
handle h c (revoking path why) = revoke_agent h c path why
handle h c (deprecating path r) = deprecate_agent h c path r

-- the id in the path, of a request over a registered agent whose body decodes
unfoldable pub target : Change → Option Bytes
target (posting r) = none
target (patching path none) = none
target (patching path (some r)) = some path
target (removing path) = some path
target (activating path) = some path
target (suspending path) = some path
target (restoring path) = some path
target (revoking path why) = some path
target (deprecating path r) = some path

-- Does this server check who makes the request over this agent?
unfoldable pub is_guarded : Server → Change → Agent → Bool
is_guarded h (posting r) a = true
is_guarded h (removing path) a = h.tokens
is_guarded h (revoking path why) a = h.tokens
is_guarded h (activating path) a = not (is_ownerless_domain a)
is_guarded h q a = h.tokens || h.user_tokens
