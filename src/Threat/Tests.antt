-- ===== src/Threat/Tests.antt =====
-- Registrations scored, and the theorems at them.
use nexus_agent_protocol.Prelude.{
  ◌≤◌, ◌≡◌, ◌↔◌, refl, true, List, [], ◌∷◌, Bytes, codes, leb, if◌then◌else◌, contains, has_prefix,
  to_lower,
}
use nexus_agent_protocol.Threat.{
  critical, score, rule_capability_keywords, rule_description_phrases, rule_endpoint_scheme,
  rule_name_keywords, keyword_of, each_contained, total, all_findings, severity_label,
}
use nexus_agent_protocol.Threat.Laws.{points, rejected_iff, score_lem}

abbrev name : Bytes
name = codes "Root Agent"

abbrev description : Bytes
description = codes "bypass and exploit"

abbrev endpoint : Bytes
endpoint = codes "http://a.example"

abbrev caps : List Bytes
caps = codes "shell" ∷ codes "billing" ∷ codes "Sudo" ∷ []

scored : (score name description endpoint caps).score ≡ 99
unfolding score rule_capability_keywords rule_description_phrases rule_endpoint_scheme
    rule_name_keywords keyword_of each_contained total all_findings severity_label contains
    has_prefix to_lower
scored = refl

rejected_iff_example :
    ((score name description endpoint caps).rejected ≡ true)
    ↔ (85 ≤ points name description endpoint caps)
rejected_iff_example = rejected_iff name description endpoint caps

score_lem_example :
    ((score name description endpoint caps).score ≡ (
      if leb (points name description endpoint caps) 100
      then points name description endpoint caps
      else 100))
    × (((score name description endpoint caps).severity ≡ critical)
        ↔ ((score name description endpoint caps).rejected ≡ true))
score_lem_example = score_lem name description endpoint caps
