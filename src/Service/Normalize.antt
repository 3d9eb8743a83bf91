-- ===== src/Service/Normalize.antt =====
-- The helpers of agent.go that normalise capabilities and skills.
use nexus_agent_protocol.Prelude.{
  suc, ◌==◌, not, Option, none, some, List, [], ◌∷◌, Bytes, codes, if◌then◌else◌, is_empty, drop,
  last_index, replace_all, to_lower, trim, trim_space,
}
use nexus_agent_protocol.Model.Agent.{Skill, McpTool}

-- normalizeCapability
unfoldable pub normalize_capability : Bytes → Bytes
unfolding to_lower trim_space replace_all trim
normalize_capability cap =
    let lowered = to_lower (trim_space cap) in
    let converted = replace_all b'/' (codes ">") lowered in trim (λ c. c == b'>') converted

-- slugifySkillID
unfoldable pub slugify_skill_id : Bytes → Bytes
unfolding to_lower trim_space replace_all
slugify_skill_id id = replace_all b' ' (codes "-") (to_lower (trim_space id))

-- cap[idx+1:] for the last `>`
unfoldable pub last_level : Bytes → Option Bytes
unfolding last_index
last_level cap = elim (last_index cap b'>') [ none ↦ none | some idx ↦ some (drop (suc idx) cap) ]

-- the part of the two functions below that reads the capability
unfoldable pub skill_of_capability : Bytes → Bytes
unfolding last_level
skill_of_capability cap = elim (last_level cap) [ none ↦ [] | some level ↦ level ]

-- derivePrimarySkill
unfoldable pub derive_primary_skill : List Skill → Bytes → Bytes
unfolding skill_of_capability slugify_skill_id
derive_primary_skill [] cap = skill_of_capability cap
derive_primary_skill (sk ∷ skills) cap =
    if not (is_empty sk.id) then slugify_skill_id sk.id else skill_of_capability cap

-- the loop of deriveSkillIDs
unfoldable pub declared_ids : List Skill → List Bytes
unfolding slugify_skill_id
declared_ids [] = []
declared_ids (sk ∷ skills) =
    let rest = declared_ids skills in
    if not (is_empty sk.id) then slugify_skill_id sk.id ∷ rest else rest

-- deriveSkillIDs; nil is the empty list, as `Create` stores it
unfoldable pub derive_skill_ids : List Skill → Bytes → List Bytes
unfolding declared_ids last_level
derive_skill_ids skills cap = elim (declared_ids skills) [
  | id ∷ ids ↦ id ∷ ids
  | [] ↦ elim (last_level cap) [ none ↦ [] | some level ↦ level ∷ [] ]
]

-- deriveToolNames
unfoldable pub derive_tool_names : List McpTool → List Bytes
derive_tool_names [] = []
derive_tool_names (t ∷ tools) =
    let rest = derive_tool_names tools in if not (is_empty t.name) then t.name ∷ rest else rest
