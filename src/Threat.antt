-- ===== src/Threat.antt =====
-- internal/threat: the rule-based scorer of registrations. A confidence is in tenths, so that
-- `int(f.Confidence * 25)` is the quotient of 25 times it by 10.
pub mod Laws
mod Tests
use nexus_agent_protocol.Prelude.{
  ℕ, ◌+◌, ◌*◌, ◌/◌, Bool, true, false, ◌&&◌, not, Option, none, some, List, [], ◌∷◌, ◌++◌, Bytes,
  codes, leb, if◌then◌else◌, is_empty, first, contains, has_prefix, to_lower,
}

pub record Finding : Type 0 where
  pub rule : Bytes
  pub description : Bytes
  pub confidence : ℕ

pub data Severity : Type 0 where
  critical high medium low calm : Severity

pub record Report : Type 0 where
  pub score : ℕ
  pub severity : Severity
  pub findings : List Finding
  pub rejected : Bool

-- severityLabel; `calm` is "none"
unfoldable pub severity_label : ℕ → Severity
severity_label score =
    if leb 85 score
    then critical
    else if leb 65 score
    then high
    else if leb 35 score
    then medium
    else if leb 15 score
    then low
    else calm

abbrev suspicious_capability_keywords : List Bytes
suspicious_capability_keywords =
    codes "shell"
    ∷ codes "exec"
    ∷ codes "sudo"
    ∷ codes "admin"
    ∷ codes "root"
    ∷ codes "system"
    ∷ codes "kernel"
    ∷ codes "daemon"
    ∷ []

abbrev suspicious_description_phrases : List Bytes
suspicious_description_phrases =
    codes "exfiltrat"
    ∷ codes "bypass"
    ∷ codes "escalat"
    ∷ codes "inject"
    ∷ codes "exploit"
    ∷ codes "malware"
    ∷ codes "arbitrary shell"
    ∷ codes "arbitrary command"
    ∷ codes "remote code"
    ∷ codes "privilege"
    ∷ codes "backdoor"
    ∷ codes "rootkit"
    ∷ codes "keylog"
    ∷ []

abbrev suspicious_name_keywords : List Bytes
suspicious_name_keywords =
    codes "shell executor"
    ∷ codes "command executor"
    ∷ codes "root agent"
    ∷ codes "system agent"
    ∷ codes "admin agent"
    ∷ codes "sudo agent"
    ∷ codes "kernel agent"
    ∷ []

-- the first keyword that the text contains
unfoldable pub keyword_of : List Bytes → Bytes → Option Bytes
unfolding contains
keyword_of keywords text = first (contains text) keywords

-- ruleCapabilityKeywords: one finding for each capability with a keyword
unfoldable pub rule_capability_keywords : List Bytes → List Finding
unfolding keyword_of to_lower
rule_capability_keywords [] = []
rule_capability_keywords (cap ∷ caps) =
    let rest = rule_capability_keywords caps in
    elim (keyword_of suspicious_capability_keywords (to_lower cap)) [
      | none ↦ rest
      | some kw ↦
          record {
            rule = codes "capability_keyword";
            description = codes "Capability name contains suspicious keyword: " ++ kw;
            confidence = 7;
          }
          ∷ rest
    ]

-- one finding for each keyword that the text contains
unfoldable pub each_contained : Bytes → Bytes → ℕ → List Bytes → Bytes → List Finding
unfolding contains
each_contained rule what confidence [] text = []
each_contained rule what confidence (kw ∷ keywords) text =
    let rest = each_contained rule what confidence keywords text in
    if contains text kw
    then record { rule = rule; description = what ++ kw; confidence = confidence } ∷ rest
    else rest

-- ruleDescriptionPhrases
unfoldable pub rule_description_phrases : Bytes → List Finding
unfolding each_contained to_lower
rule_description_phrases description =
    each_contained (codes "description_phrase") (codes "Description contains suspicious phrase: ") 8
      suspicious_description_phrases (to_lower description)

-- ruleEndpointScheme
unfoldable pub rule_endpoint_scheme : Bytes → List Finding
unfolding contains has_prefix to_lower
rule_endpoint_scheme endpoint =
    let lower = to_lower endpoint in
    if is_empty endpoint
    then []
    else if has_prefix lower (codes "http://")
        && not (contains lower (codes "localhost"))
        && not (contains lower (codes "127.0.0.1"))
    then record {
      rule = codes "endpoint_scheme";
      description = codes "Endpoint uses non-HTTPS scheme in production context";
      confidence = 4;
    }
      ∷ []
    else []

-- ruleNameKeywords
unfoldable pub rule_name_keywords : Bytes → List Finding
unfolding each_contained to_lower
rule_name_keywords name =
    each_contained (codes "name_keyword") (codes "Display name contains suspicious keyword: ") 6
      suspicious_name_keywords (to_lower name)

-- the loop that adds up the findings
unfoldable pub total : List Finding → ℕ
total [] = 0
total (f ∷ findings) = f.confidence * 25 / 10 + total findings

-- the rules in their order
unfoldable pub all_findings : Bytes → Bytes → Bytes → List Bytes → List Finding
unfolding rule_capability_keywords rule_description_phrases rule_endpoint_scheme rule_name_keywords
all_findings name description endpoint caps =
    rule_capability_keywords caps
    ++ (rule_description_phrases description
        ++ (rule_endpoint_scheme endpoint ++ rule_name_keywords name))

abbrev capped : ℕ → ℕ
capped n = if leb n 100 then n else 100

-- Score
unfoldable pub score : Bytes → Bytes → Bytes → List Bytes → Report
unfolding total all_findings severity_label
score name description endpoint caps =
    let findings = all_findings name description endpoint caps in
    let points = capped (total findings) in
    record {
      score = points;
      severity = severity_label points;
      findings = findings;
      rejected = leb 85 points;
    }
