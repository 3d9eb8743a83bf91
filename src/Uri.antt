-- ===== src/Uri.antt =====
-- pkg/uri/uri.go: parsing and printing of agent:// URIs. `net/url.Parse` is a parameter.
pub mod RoundTrip
pub mod Sound
mod Tests
use nexus_agent_protocol.Prelude.{
  ℕ, Bool, true, false, ◌&&◌, ◌||◌, not, Option, none, some, List, [], ◌∷◌, ◌++◌, Bytes, codes, ltb,
  ◌==◌, if◌then◌else◌, is_empty, text_eq, has_prefix, length, last, split, some_of, Result, ok, err,
  ◌>>=◌, ◌>>◌,
}

-- The parts of a `url.URL` that `Parse` reads.
pub record Url : Type 0 where
  pub scheme : Bytes
  pub host : Bytes
  pub path : Bytes

pub record Uri : Type 0 where
  pub org_name : Bytes
  pub category : Bytes
  pub primary_skill : Bytes
  pub agent_id : Bytes
  pub raw : Bytes

pub data UriError : Type 0 where
  invalid_uri unsupported_scheme missing_org_name missing_path too_few_parts : UriError
  org_name_empty org_name_invalid category_empty category_invalid : UriError
  agent_id_empty agent_id_prefix : UriError

abbrev pub scheme_name : Bytes
scheme_name = codes "agent"

-- strings.ContainsAny(value, " \\?#")
unfoldable pub has_illegal : Bytes → Bool
has_illegal = some_of (λ c. c == b' ' || c == b'\\' || c == b'?' || c == b'#')

-- validateSegment; the two errors of the segment are passed in place of its name
unfoldable pub validate_segment : UriError → UriError → Bytes → Result UriError (Unit {0})
unfolding has_illegal
validate_segment empty invalid value =
    if is_empty value then err empty else if has_illegal value then err invalid else ok tt

-- validateAgentID
unfoldable pub validate_agent_id : Bytes → Result UriError (Unit {0})
unfolding has_prefix
validate_agent_id id =
    if is_empty id
    then err agent_id_empty
    else if not (has_prefix id (codes "agent_"))
    then err agent_id_prefix
    else ok tt

-- strings.TrimPrefix(path, "/")
unfoldable pub trim_slash : Bytes → Bytes
trim_slash [] = []
trim_slash (c ∷ s) = if c == b'/' then s else c ∷ s

-- parts[0], parts[entry_count(parts)-1], and parts[1] if there are three parts
abbrev pub first_part : List Bytes → Bytes
first_part [] = []
first_part (p ∷ _) = p

abbrev pub last_part : List Bytes → Bytes
last_part ps = elim (last ps) [ none ↦ [] | some p ↦ p ]

abbrev pub skill_part : List Bytes → Bytes
skill_part (_ ∷ s ∷ _ ∷ []) = s
skill_part _ = []

-- `Parse` behind the split of the path
unfoldable pub of_parts : Bytes → Bytes → List Bytes → Result UriError Uri
unfolding validate_segment validate_agent_id
of_parts raw org parts = if ltb (length parts) 2 then err too_few_parts else do
  validate_segment org_name_empty org_name_invalid org
  validate_segment category_empty category_invalid (first_part parts)
  validate_agent_id (last_part parts)
  ok (record {
    org_name = org;
    category = first_part parts;
    primary_skill = skill_part parts;
    agent_id = last_part parts;
    raw = raw;
  })

-- `Parse` behind `url.Parse`
unfoldable pub of_url : Bytes → Url → Result UriError Uri
of_url raw u =
    if not (text_eq u.scheme scheme_name)
    then err unsupported_scheme
    else if is_empty u.host
    then err missing_org_name
    else if is_empty (trim_slash u.path)
    then err missing_path
    else of_parts raw u.host (split (trim_slash u.path) b'/')

-- Parse
unfoldable pub parse : (Bytes → Option Url) → Bytes → Result UriError Uri
parse url_parse raw = elim (url_parse raw) [ none ↦ err invalid_uri | some u ↦ of_url raw u ]

-- the path of the printed URI
unfoldable pub path_of : Uri → Bytes
path_of u =
    if not (is_empty u.primary_skill)
    then b'/' ∷ u.category ++ (b'/' ∷ u.primary_skill ++ (b'/' ∷ u.agent_id))
    else b'/' ∷ u.category ++ (b'/' ∷ u.agent_id)

-- (*URI).String
unfoldable pub to_string : Uri → Bytes
unfolding path_of
to_string u = scheme_name ++ (codes "://" ++ (u.org_name ++ path_of u))
