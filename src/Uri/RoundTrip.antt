-- ===== src/Uri/RoundTrip.antt =====
-- Printing a URI and parsing it again.
use nexus_agent_protocol.Prelude.{
  ◌≡◌, refl, sym, Bool-cases, inl, inr, true, false, some, [], ◌∷◌, ◌++◌, arith, Bytes, codes,
  has_prefix, Option, ok, Lacks, split, split-append, split-Lacks, is_empty, text_eq_refl,
}
use nexus_agent_protocol.Uri.{
  Url, Uri, UriError, org_name_empty, org_name_invalid, category_empty, category_invalid,
  scheme_name, has_illegal, validate_segment, validate_agent_id, trim_slash, of_parts, of_url,
  parse, path_of, to_string,
}

-- A URI whose parts survive the path: no part holds a slash, the organisation and the category are
-- not empty and hold no illegal character, and the agent id has its prefix.
pub record IsCanonical (u : Uri) : Type 0 where
  pub org_some : is_empty u.org_name ≡ false
  pub org_legal : has_illegal u.org_name ≡ false
  pub category_some : is_empty u.category ≡ false
  pub category_legal : has_illegal u.category ≡ false
  pub category_whole : Lacks b'/' u.category
  pub skill_whole : Lacks b'/' u.primary_skill
  pub agent_id_prefix : has_prefix u.agent_id (codes "agent_") ≡ true
  pub agent_id_whole : Lacks b'/' u.agent_id

-- What the program relies on of `url.Parse`: it reads the printed text of `u` as scheme, host and
-- path. The documentation of net/url gives this for hosts and paths that need no escaping.
abbrev pub ReadsBack : (Bytes → Option Url) → Uri → Type 0
ReadsBack url_parse u =
    url_parse (to_string u)
    ≡ some (record { scheme = scheme_name; host = u.org_name; path = path_of u })

agent_id_ok : (v : Bytes) → has_prefix v (codes "agent_") ≡ true → validate_agent_id v ≡ ok tt
unfolding validate_agent_id
agent_id_ok [] h = unfold has_prefix in cc
agent_id_ok (c ∷ v) h = ground arith

segment_ok :
    (e x : UriError) (v : Bytes)
    → is_empty v ≡ false
    → has_illegal v ≡ false
    → validate_segment e x v ≡ ok tt
unfolding validate_segment
segment_ok e x v some_byte legal = ground arith

nil_of_empty : (s : Bytes) → is_empty s ≡ true → s ≡ []
nil_of_empty [] h = refl
nil_of_empty (c ∷ s) h = cc

append_some : (s t : Bytes) → is_empty s ≡ false → is_empty (s ++ t) ≡ false
append_some [] t h = cc
append_some (c ∷ s) t h = refl

module _ (raw : Bytes) (u : Uri) (h : IsCanonical u) where
  org_ok : validate_segment org_name_empty org_name_invalid u.org_name ≡ ok tt
  org_ok = segment_ok _ _ _ h.org_some h.org_legal

  category_ok : validate_segment category_empty category_invalid u.category ≡ ok tt
  category_ok = segment_ok _ _ _ h.category_some h.category_legal

  id_ok : validate_agent_id u.agent_id ≡ ok tt
  id_ok = agent_id_ok _ h.agent_id_prefix

  of_parts-skill :
      of_parts raw u.org_name (u.category ∷ u.primary_skill ∷ u.agent_id ∷ [])
      ≡ ok (record u { raw = raw })
  unfolding of_parts
  of_parts-skill = rw (org_ok, category_ok, id_ok)

  of_parts-plain :
      u.primary_skill ≡ []
      → of_parts raw u.org_name (u.category ∷ u.agent_id ∷ []) ≡ ok (record u { raw = raw })
  unfolding of_parts
  of_parts-plain e =
      rw (org_ok, category_ok, id_ok) (λ i. ok (record u { primary_skill = sym e i; raw = raw }))

  split-plain :
      is_empty u.primary_skill ≡ true
      → split (trim_slash (path_of u)) b'/' ≡ u.category ∷ u.agent_id ∷ []
  unfolding path_of trim_slash
  split-plain e = rw e (
      rw (split-append u.category u.agent_id b'/' h.category_whole)
        (rw (split-Lacks u.agent_id b'/' h.agent_id_whole)))

  split-skill :
      is_empty u.primary_skill ≡ false
      → split (trim_slash (path_of u)) b'/' ≡ u.category ∷ u.primary_skill ∷ u.agent_id ∷ []
  unfolding path_of trim_slash
  split-skill e = rw e (
      rw (split-append u.category (u.primary_skill ++ b'/' ∷ u.agent_id) b'/' h.category_whole) (
        rw (split-append u.primary_skill u.agent_id b'/' h.skill_whole)
          (rw (split-Lacks u.agent_id b'/' h.agent_id_whole))))

  parts_of_path :
      of_parts raw u.org_name (split (trim_slash (path_of u)) b'/') ≡ ok (record u { raw = raw })
  parts_of_path = elim (Bool-cases (is_empty u.primary_skill)) [
    | inl e ↦ rw (split-plain e) (of_parts-plain (nil_of_empty u.primary_skill e))
    | inr e ↦ rw (split-skill e) of_parts-skill
  ]

  path_some : is_empty (trim_slash (path_of u)) ≡ false
  unfolding path_of trim_slash
  path_some = ground (
    arith,
    append_some u.category (b'/' ∷ u.agent_id) h.category_some,
    append_some u.category (b'/' ∷ u.primary_skill ++ b'/' ∷ u.agent_id) h.category_some,
  )

-- `Parse` reads a printed canonical URI back, with the printed text kept as the raw text. It is
-- assumed that `url.Parse` reads that text as its scheme, host and path.
pub parse-to_string :
    (url_parse : Bytes → Option Url) (u : Uri)
    → IsCanonical u
    → ReadsBack url_parse u
    → parse url_parse (to_string u) ≡ ok (record u { raw = to_string u })
unfolding parse of_url
parse-to_string url_parse u h reads =
    rw (reads, parse)
      (rw (text_eq_refl scheme_name, h.org_some, path_some (to_string u) u h)
        (parts_of_path (to_string u) u h))
