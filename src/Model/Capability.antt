-- ===== src/Model/Capability.antt =====
-- internal/registry/model/capabilities.go: the format of a capability string.
pub mod Laws
mod Tests
use nexus_agent_protocol.Prelude.{
  ℕ, zero, suc, ◌+◌, ◌≡◌, Bool, true, false, ◌&&◌, ◌||◌, Option, none, some, List, [], ◌∷◌, Bytes,
  codes, ltb, leb, ◌==◌, if◌then◌else◌, is_empty, length, take, index, split, replace_all, Result,
  ok, err, ◌>>=◌, ◌>>◌,
}

-- The errors of `ValidateCapabilityNode`; a segment is counted from 1.
pub data CapabilityError : Type 0 where
  capability_required capability_too_long too_many_levels : CapabilityError
  segment_empty segment_too_long : ℕ → CapabilityError
  bad_category : Bytes → CapabilityError

-- isSlugRune
unfoldable pub is_slug_rune : ℕ → Bool
is_slug_rune r =
    (leb b'a' r && leb r b'z')
    || (leb b'A' r && leb r b'Z')
    || (leb b'0' r && leb r b'9')
    || r == b'-'
    || r == b'_'

-- the inner loop over the runes of the first segment
unfoldable pub all_slug : Bytes → Bool
unfolding is_slug_rune
all_slug [] = true
all_slug (r ∷ s) = is_slug_rune r && all_slug s

unfoldable pub check_segment : ℕ → Bytes → Result CapabilityError (Unit {0})
unfolding all_slug
check_segment i p =
    if is_empty p
    then err (segment_empty (i + 1))
    else if ltb 100 (length p)
    then err (segment_too_long (i + 1))
    else if i == 0
    then (if all_slug p then ok tt else err (bad_category p))
    else ok tt

-- the loop `for i, p := range parts`
unfoldable pub check_segments : ℕ → List Bytes → Result CapabilityError (Unit {0})
unfolding check_segment
check_segments i [] = ok tt
check_segments i (p ∷ ps) = check_segment i p >> check_segments (i + 1) ps

-- ValidateCapabilityNode
unfoldable pub validate_capability_node : Bytes → Result CapabilityError (Unit {0})
unfolding check_segments split
validate_capability_node cap =
    if is_empty cap
    then err capability_required
    else if ltb 200 (length cap)
    then err capability_too_long
    else if ltb 3 (length (split cap b'>'))
    then err too_many_levels
    else check_segments 0 (split cap b'>')

-- TopLevelCategory
unfoldable pub top_level_category : Bytes → Bytes
unfolding index
top_level_category cap = elim (index cap b'>') [ none ↦ cap | some idx ↦ take idx cap ]

-- FormatDisplay
unfoldable pub format_display : Bytes → Bytes
unfolding replace_all
format_display cap = replace_all b'>' (codes " > ") cap
