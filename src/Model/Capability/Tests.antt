-- ===== src/Model/Capability/Tests.antt =====
-- Runs of the capability checks, and the theorem at a concrete capability.
use nexus_agent_protocol.Prelude.{◌≡◌, ◌↔◌, refl, codes, ok, err}
use nexus_agent_protocol.Model.Capability.{
  segment_empty, bad_category, too_many_levels, validate_capability_node, top_level_category,
  format_display,
}
use nexus_agent_protocol.Model.Capability.Laws.{IsCapability, validate_iff}

three_levels : validate_capability_node (codes "finance>tax law>filing") ≡ ok tt
unfolding validate_capability_node
three_levels = refl

four_levels : validate_capability_node (codes "a>b>c>d") ≡ err too_many_levels
unfolding validate_capability_node
four_levels = refl

empty_level : validate_capability_node (codes "a>>c") ≡ err (segment_empty 2)
unfolding validate_capability_node
empty_level = refl

blank_in_category : validate_capability_node (codes "a b>c") ≡ err (bad_category (codes "a b"))
unfolding validate_capability_node
blank_in_category = refl

category_of : top_level_category (codes "finance>tax") ≡ codes "finance"
unfolding top_level_category
category_of = refl

display : format_display (codes "finance>tax") ≡ codes "finance > tax"
unfolding format_display
display = refl

validate_iff_example :
    (validate_capability_node (codes "finance>tax law>filing") ≡ ok tt)
    ↔ IsCapability (codes "finance>tax law>filing")
validate_iff_example = validate_iff (codes "finance>tax law>filing")
