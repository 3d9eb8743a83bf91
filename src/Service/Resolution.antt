-- ===== src/Service/Resolution.antt =====
-- Which agents `Resolve` returns.
use nexus_agent_protocol.Prelude.{
  ◌≡◌, ◌⊎◌, has_prefix, false, inl, inr, Bool, true, ◌&&◌, ◌||◌, Bool-cases, none, some,
  Option-cases, List, [], ◌∷◌, ◌++◌, arith, Bytes, codes, first, text_eq, text_eq_sound, Result, ok,
  err,
}
use nexus_agent_protocol.Model.Agent.{Agent, is_active, is_deprecated}
use nexus_agent_protocol.World.{Error, World, Env}
use nexus_agent_protocol.Repository.{query, one, get_by_agent_id}
use nexus_agent_protocol.Repository.Like.{like}
use nexus_agent_protocol.Repository.Like.Laws.{is_plain, like-children}
use nexus_agent_protocol.Service.{Service}
use nexus_agent_protocol.Service.Normalize.{normalize_capability}
use nexus_agent_protocol.Service.Lifecycle.{settle, resolve, resolve_local, resolve_remote}

first-passes : {A : Type 0} (p : A → Bool) (l : List A) (x : A) → first p l ≡ some x → p x ≡ true
first-passes p [] x h = cc
first-passes p (y ∷ l) x h = elim (Bool-cases (p y)) [
  | inl t ↦ ground arith
  | inr n ↦ first-passes p l x (ground arith)
]

-- A row that may be resolved: its parts fit what was asked for, and it is active or deprecated.
pub record IsResolved (trust_root cap agent_id : Bytes) (a : Agent) : Type 0 where
  pub root_lem : a.trust_root ≡ trust_root
  pub id_lem : a.agent_id ≡ agent_id
  pub category_lem :
      (text_eq a.capability_node (normalize_capability cap)
        || like (normalize_capability cap ++ codes ">%") a.capability_node)
      ≡ true
  pub below_lem :
      (is_plain (normalize_capability cap) ≡ false)
      ⊎ (a.capability_node ≡ normalize_capability cap)
      ⊎ (has_prefix a.capability_node (normalize_capability cap ++ codes ">") ≡ true)
  pub status_lem : (is_active a.status || is_deprecated a.status) ≡ true

below :
    (cap text : Bytes)
    → (text_eq text cap || like (cap ++ codes ">%") text) ≡ true
    → (is_plain cap ≡ false) ⊎ (text ≡ cap) ⊎ (has_prefix text (cap ++ codes ">") ≡ true)
below cap text h = elim (Bool-cases (is_plain cap)) [
  | inr n ↦ inl n
  | inl plain ↦ elim (Bool-cases (text_eq text cap)) [
    | inl t ↦ inr (inl (text_eq_sound text cap t))
    | inr n ↦ inr (inr (ground (arith, h, n, like-children cap text plain)))
  ]
]

asked : Bytes → Bytes → Bytes → Agent → Bool
asked trust_root cap agent_id a =
    text_eq a.trust_root trust_root
    && (text_eq a.capability_node cap || like (cap ++ codes ">%") a.capability_node)
    && text_eq a.agent_id agent_id

get_by_agent_id-asked :
    (env : Env) (r c i : Bytes) (w : World) (a : Agent)
    → (get_by_agent_id env r c i w).0 ≡ ok a
    → asked r c i a ≡ true
unfolding get_by_agent_id query one asked
get_by_agent_id-asked env r c i w a h = elim (Bool-cases (env.fault w.calls)) [
  | inl t ↦ absurd (ground arith)
  | inr n ↦ elim (Option-cases (first (asked r c i) w.agents)) [
    | inl q ↦ absurd (ground arith)
    | inr (b, q) ↦ ground (arith, first-passes (asked r c i) w.agents b q)
  ]
]

settled :
    (s : Service) (r c i : Bytes) (x : Result Error Agent) (w : World) (a : Agent)
    → s.remote_resolver ≡ none
    → (settle s r c i x w).0 ≡ ok a
    → (x ≡ ok a) × ((is_active a.status || is_deprecated a.status) ≡ true)
unfolding settle resolve_local resolve_remote
settled s r c i (err e) w a alone h = absurd (ground arith)
settled s r c i (ok b) w a alone h = ground arith

-- Without federation, what `Resolve` returns is a row with the trust root and the agent id that were
-- asked for, and it is active or deprecated. Its capability is the one asked for or is matched by the
-- LIKE pattern of those below it; if the one asked for has none of the characters that LIKE reads in
-- a special way, then its capability is that one or begins with it and a `>`.
pub resolve-IsResolved :
    (s : Service) (trust_root cap agent_id : Bytes) (w : World) (a : Agent)
    → s.remote_resolver ≡ none
    → (resolve s trust_root cap agent_id w).0 ≡ ok a
    → IsResolved trust_root cap agent_id a
unfolding resolve
resolve-IsResolved s r c i w a alone h =
    let (q, st) = settled s r c i _ _ a alone h in
    let t = get_by_agent_id-asked s.env r (normalize_capability c) i w a q in
    unfold asked in
    record {
      root_lem = text_eq_sound a.trust_root r (ground arith);
      id_lem = text_eq_sound a.agent_id i (ground arith);
      category_lem = ground arith;
      below_lem = below (normalize_capability c) a.capability_node (ground arith);
      status_lem = st;
    }
