-- ===== src/Uri/Tests.antt =====
-- Runs of `Parse` and `String`, and the theorems at concrete URIs. `read_url` stands for
-- `url.Parse` on texts with a scheme, a host and a path that need no escaping.
use nexus_agent_protocol.Prelude.{
  split, text_eq, ◌≡◌, refl, none, some, [], arith, Bytes, codes, Option, ok, err, index, take,
  drop, has_prefix, ◌+◌,
}
use nexus_agent_protocol.Uri.{
  Url, Uri, has_illegal, too_few_parts, trim_slash, of_parts, of_url, parse, to_string,
}
use nexus_agent_protocol.Uri.Sound.{IsParse, parse_sound}
use nexus_agent_protocol.Uri.RoundTrip.{IsCanonical, parse-to_string}

-- the host and the path of what stands behind `scheme://`
read_rest : Bytes → Bytes → Option Url
read_rest scheme s = elim (index s b'/') [
  | none ↦ some (record { scheme = scheme; host = s; path = [] })
  | some i ↦ some (record { scheme = scheme; host = take i s; path = drop i s })
]

read_url : Bytes → Option Url
unfolding read_rest index
read_url s = elim (index s b':') [ none ↦ none | some i ↦ read_rest (take i s) (drop (i + 3) s) ]

abbrev reconcile : Uri
reconcile = record {
  org_name = codes "acme.com";
  category = codes "finance";
  primary_skill = codes "reconcile-invoices";
  agent_id = codes "agent_7x2v9q";
  raw = [];
}

print_reconcile :
    to_string reconcile ≡ codes "agent://acme.com/finance/reconcile-invoices/agent_7x2v9q"
unfolding to_string
print_reconcile = refl

short_path : parse read_url (codes "agent://acme.com/finance") ≡ err too_few_parts
unfolding parse of_url of_parts read_url trim_slash split text_eq
short_path = refl

reconcile-IsCanonical : IsCanonical reconcile
unfolding has_illegal has_prefix
reconcile-IsCanonical = record {
  org_some = refl;
  org_legal = refl;
  category_some = refl;
  category_legal = refl;
  category_whole = omega arith;
  skill_whole = omega arith;
  agent_id_prefix = refl;
  agent_id_whole = omega arith;
}

parse-to_string_example :
    parse read_url (to_string reconcile) ≡ ok (record reconcile { raw = to_string reconcile })
parse-to_string_example =
    parse-to_string read_url reconcile reconcile-IsCanonical (unfold to_string read_url in refl)

parse_sound_example :
    (u : Url) × (read_url (to_string reconcile) ≡ some u)
    × IsParse u (to_string reconcile) (record reconcile { raw = to_string reconcile })
parse_sound_example = parse_sound read_url (to_string reconcile) parse-to_string_example
