-- ===== src/Service/Operations.antt =====
-- The requests that the service handles, and any sequence of them.
use nexus_agent_protocol.Prelude.{ℕ, List, [], ◌∷◌, Option, Bytes}
use nexus_agent_protocol.Model.Agent.{RegisterRequest, UpdateRequest, DeprecateRequest}
use nexus_agent_protocol.World.{World, M, pure, ◌>>◌}
use nexus_agent_protocol.Service.{Service}
use nexus_agent_protocol.Service.Register.{register}
use nexus_agent_protocol.Service.Lifecycle.{
  update_agent, revoke, suspend, restore, deprecate, delete_agent, set_health, resolve,
}
use nexus_agent_protocol.Service.Activate.{activate}

pub data Op : Type 0 where
  registering : RegisterRequest → Op
  updating : ℕ → UpdateRequest → Op
  activating : ℕ → Op
  revoking : ℕ → Bytes → Op
  suspending : ℕ → Op
  restoring : ℕ → Op
  deprecating : ℕ → Option DeprecateRequest → Op
  deleting : ℕ → Op
  probing : ℕ → Bytes → ℕ → Op
  resolving : Bytes → Bytes → Bytes → Op

module _ (s : Service) where
  -- the operation, with its value forgotten
  unfoldable pub perform : Op → M (Unit {0})
  perform (registering req) = register s req >> pure tt
  perform (updating id req) = update_agent s id req >> pure tt
  perform (activating id) = activate s id >> pure tt
  perform (revoking id reason) = revoke s id reason
  perform (suspending id) = suspend s id
  perform (restoring id) = restore s id
  perform (deprecating id req) = deprecate s id req
  perform (deleting id) = delete_agent s id
  perform (probing id status seen) = set_health s id status seen
  perform (resolving root cap id) = resolve s root cap id >> pure tt

  -- requests one after another, whether they succeed or not
  unfoldable pub run : List Op → World → World
  run [] w = w
  run (op ∷ ops) w = run ops (perform op w).1
