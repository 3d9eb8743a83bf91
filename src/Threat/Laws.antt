-- ===== src/Threat/Laws.antt =====
-- The score of a registration: its bounds, what it is made of, and that more suspicion is never less.
use nexus_agent_protocol.Prelude.{
  ℕ, ◌+◌, ◌*◌, ◌≤◌, ◌≡◌, ◌↔◌, refl, Bool, true, false, List, [], ◌∷◌, ◌++◌, arith, Bytes, leb,
  if◌then◌else◌, length,
}
use nexus_agent_protocol.Threat.{
  Finding, critical, severity_label, rule_capability_keywords, each_contained,
  rule_description_phrases, rule_endpoint_scheme, rule_name_keywords, total, all_findings, score,
}

total-append : (l m : List Finding) → total (l ++ m) ≡ total l + total m
unfolding total
total-append [] m = omega arith
total-append (f ∷ l) m = omega (arith, total-append l m)

total-capabilities :
    (caps : List Bytes)
    → total (rule_capability_keywords caps) ≡ 17 * length (rule_capability_keywords caps)
unfolding total rule_capability_keywords
total-capabilities [] = omega arith
total-capabilities (cap ∷ caps) = ground (arith, total-capabilities caps)

total-phrases :
    (r d : Bytes) (ks : List Bytes) (t : Bytes)
    → total (each_contained r d 8 ks t) ≡ 20 * length (each_contained r d 8 ks t)
unfolding total each_contained
total-phrases r d [] t = refl
total-phrases r d (k ∷ ks) t = ground (arith, total-phrases r d ks t)

total-names :
    (r d : Bytes) (ks : List Bytes) (t : Bytes)
    → total (each_contained r d 6 ks t) ≡ 15 * length (each_contained r d 6 ks t)
unfolding total each_contained
total-names r d [] t = refl
total-names r d (k ∷ ks) t = ground (arith, total-names r d ks t)

total-one :
    (b c : Bool) (f : Finding)
    → f.confidence ≡ 4
    → total (if b then [] else if c then f ∷ [] else [])
      ≡ 10 * length (if b then [] else if c then f ∷ [] else [])
unfolding total
total-one true c f h = refl
total-one false true f h = omega (arith, h)
total-one false false f h = refl

total-endpoint : (e : Bytes) → total (rule_endpoint_scheme e) ≡ 10 * length (rule_endpoint_scheme e)
unfolding rule_endpoint_scheme
total-endpoint e = total-one _ _ _ refl

-- The points of a registration before the cap: 17 for each capability with a keyword, 20 for each
-- phrase of the description, 10 for the endpoint and 15 for each keyword of the name.
abbrev pub points : Bytes → Bytes → Bytes → List Bytes → ℕ
points name description endpoint caps =
    17 * length (rule_capability_keywords caps)
    + 20 * length (rule_description_phrases description)
    + 10 * length (rule_endpoint_scheme endpoint)
    + 15 * length (rule_name_keywords name)

total-points :
    (n d e : Bytes) (caps : List Bytes) → total (all_findings n d e caps) ≡ points n d e caps
unfolding all_findings rule_description_phrases rule_name_keywords
total-points n d e caps =
    let c = rule_capability_keywords caps in
    let p = rule_description_phrases d in
    let s = rule_endpoint_scheme e in
    let k = rule_name_keywords n in
    omega (
      arith,
      total-append c (p ++ (s ++ k)),
      total-append p (s ++ k),
      total-append s k,
      total-capabilities caps,
      total-phrases _ _ _ _,
      total-endpoint e,
      total-names _ _ _ _,
    )

-- A registration is rejected exactly when its weighted findings reach 85 points.
pub rejected_iff :
    (n d e : Bytes) (caps : List Bytes)
    → ((score n d e caps).rejected ≡ true) ↔ (85 ≤ points n d e caps)
unfolding score
rejected_iff n d e caps = ground (arith, total-points n d e caps)

-- The score is the points, cut at 100, and its severity is critical exactly when it is rejected.
pub score_lem :
    (n d e : Bytes) (caps : List Bytes)
    → ((score n d e caps).score ≡ (if leb (points n d e caps) 100 then points n d e caps else 100))
      × (((score n d e caps).severity ≡ critical) ↔ ((score n d e caps).rejected ≡ true))
unfolding score severity_label
score_lem n d e caps = ground (arith, total-points n d e caps)
