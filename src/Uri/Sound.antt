-- ===== src/Uri/Sound.antt =====
-- What a parsed URI satisfies.
use nexus_agent_protocol.Prelude.{
  ◌≡◌, ◌≢◌, refl, true, false, some, [], ◌∷◌, arith, Bytes, codes, has_prefix, Option, List, ok,
  length, ◌≤◌, split, Option-cases, inl, inr,
}
use nexus_agent_protocol.Uri.{
  Url, Uri, UriError, org_name_empty, org_name_invalid, category_empty, category_invalid,
  has_illegal, validate_segment, validate_agent_id, trim_slash, first_part, last_part, skill_part,
  of_parts, of_url, parse,
}

-- What `Parse` promises of the parts, given what `url.Parse` found.
pub record IsParse (u : Url) (raw : Bytes) (r : Uri) : Type 0 where
  pub org_name : r.org_name ≡ u.host
  pub org_name_legal : has_illegal r.org_name ≡ false
  pub org_name_some : r.org_name ≢ []
  pub parts : 2 ≤ length (split (trim_slash u.path) b'/')
  pub category : r.category ≡ first_part (split (trim_slash u.path) b'/')
  pub category_legal : has_illegal r.category ≡ false
  pub category_some : r.category ≢ []
  pub primary_skill : r.primary_skill ≡ skill_part (split (trim_slash u.path) b'/')
  pub agent_id : r.agent_id ≡ last_part (split (trim_slash u.path) b'/')
  pub agent_id_prefix : has_prefix r.agent_id (codes "agent_") ≡ true
  pub raw_kept : r.raw ≡ raw

validate_segment_sound :
    (e x : UriError) (v : Bytes)
    → validate_segment e x v ≡ ok tt
    → (has_illegal v ≡ false) × (v ≢ [])
unfolding validate_segment
validate_segment_sound e x [] h = cc
validate_segment_sound e x (c ∷ v) h = (ground arith, λ q. cc)

validate_agent_id_sound :
    (v : Bytes) → validate_agent_id v ≡ ok tt → has_prefix v (codes "agent_") ≡ true
unfolding validate_agent_id
validate_agent_id_sound v h = ground arith

-- The whole of `Parse` behind the parts, as one record.
record Checked (raw org : Bytes) (ps : List Bytes) (r : Uri) : Type 0 where
  parts : 2 ≤ length ps
  org_ok : validate_segment org_name_empty org_name_invalid org ≡ ok tt
  category_ok : validate_segment category_empty category_invalid (first_part ps) ≡ ok tt
  id_ok : validate_agent_id (last_part ps) ≡ ok tt
  result : r ≡ record {
    org_name = org;
    category = first_part ps;
    primary_skill = skill_part ps;
    agent_id = last_part ps;
    raw = raw;
  }

of_parts-Checked :
    (raw org : Bytes) (ps : List Bytes) {r : Uri}
    → of_parts raw org ps ≡ ok r
    → Checked raw org ps r
unfolding of_parts
of_parts-Checked raw org ps h = ground arith

of_url_parts :
    (u : Url) (raw : Bytes) {r : Uri}
    → of_url raw u ≡ ok r
    → of_parts raw u.host (split (trim_slash u.path) b'/') ≡ ok r
unfolding of_url
of_url_parts u raw h = ground arith

of_url_sound : (u : Url) (raw : Bytes) {r : Uri} → of_url raw u ≡ ok r → IsParse u raw r
of_url_sound u raw {r} h =
    let ps = split (trim_slash u.path) b'/' in
    let c = of_parts-Checked raw u.host ps (of_url_parts u raw h) in
    let org = validate_segment_sound org_name_empty org_name_invalid u.host c.org_ok in
    let cat =
      validate_segment_sound category_empty category_invalid (first_part ps) c.category_ok in
    rw (c.result) (record {
      org_name = refl;
      org_name_legal = org.0;
      org_name_some = org.1;
      parts = c.parts;
      category = refl;
      category_legal = cat.0;
      category_some = cat.1;
      primary_skill = refl;
      agent_id = refl;
      agent_id_prefix = validate_agent_id_sound (last_part ps) c.id_ok;
      raw_kept = refl;
    })

-- A result of `Parse` comes from a URL that `url.Parse` found. Its organisation is the host and its
-- category the first part of the path, neither empty nor with an illegal character; its agent id is
-- the last of at least two parts and starts with `agent_`; and it has a skill only where there are
-- three parts.
pub parse_sound :
    (url_parse : Bytes → Option Url) (raw : Bytes) {r : Uri}
    → parse url_parse raw ≡ ok r
    → (u : Url) × (url_parse raw ≡ some u) × IsParse u raw r
unfolding parse
parse_sound url_parse raw h = elim (Option-cases (url_parse raw)) [
  | inl e ↦ absurd (ground arith)
  | inr (u, e) ↦ (u, e, of_url_sound u raw (ground arith))
]
