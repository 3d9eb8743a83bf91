-- ===== src/Model/Capability/Laws.antt =====
-- What a valid capability looks like.
use nexus_agent_protocol.Prelude.{
  ℕ, ◌+◌, ◌≤◌, ◌≡◌, ◌<◌, ◌≢◌, ◌⊎◌, ◌↔◌, refl, true, List, [], ◌∷◌, Bytes, arith, length, index,
  split, onto, All, Result, ok, err, ◌>>◌,
}
use nexus_agent_protocol.Model.Capability.{
  CapabilityError, is_slug_rune, all_slug, check_segment, check_segments, validate_capability_node,
  top_level_category,
}

-- The first part of a split is the text up to the separator.
abbrev head_part : List Bytes → Bytes
head_part [] = []
head_part (p ∷ ps) = p

head_part-onto : (c : ℕ) (ps : List Bytes) → head_part (onto c ps) ≡ c ∷ head_part ps
unfolding onto
head_part-onto c [] = refl
head_part-onto c (p ∷ ps) = refl

top_level-head_part : (s : Bytes) → top_level_category s ≡ head_part (split s b'>')
unfolding top_level_category index split
top_level-head_part [] = refl
top_level-head_part (c ∷ s) = ground (arith, top_level-head_part s, head_part-onto c (split s b'>'))

onto-ne-nil : (c : ℕ) (ps : List Bytes) → onto c ps ≢ []
unfolding onto
onto-ne-nil c [] = λ h. cc
onto-ne-nil c (p ∷ ps) = λ h. cc

split-ne-nil : (s : Bytes) (sep : ℕ) → split s sep ≢ []
unfolding split
split-ne-nil [] sep = λ h. cc
split-ne-nil (c ∷ s) sep = ground (arith, onto-ne-nil c (split s sep))

-- A letter, a digit, a hyphen or an underscore.
abbrev pub IsSlug : ℕ → Type 0
IsSlug r =
    ((b'a' ≤ r) × (r ≤ b'z'))
    ⊎ ((b'A' ≤ r) × (r ≤ b'Z'))
    ⊎ ((b'0' ≤ r) × (r ≤ b'9'))
    ⊎ (r ≡ b'-')
    ⊎ (r ≡ b'_')

is_slug_rune_sound : (r : ℕ) → is_slug_rune r ≡ true → IsSlug r
unfolding is_slug_rune
is_slug_rune_sound r h = ground arith

is_slug_rune_complete : (r : ℕ) → IsSlug r → is_slug_rune r ≡ true
unfolding is_slug_rune
is_slug_rune_complete r h = ground arith

all_slug_sound : (s : Bytes) → all_slug s ≡ true → All IsSlug s
unfolding all_slug
all_slug_sound [] h = tt
all_slug_sound (r ∷ s) h = (is_slug_rune_sound r (ground arith), all_slug_sound s (ground arith))

all_slug_complete : (s : Bytes) → All IsSlug s → all_slug s ≡ true
unfolding all_slug
all_slug_complete [] h = refl
all_slug_complete (r ∷ s) (hr, hs) =
    ground (arith, is_slug_rune_complete r hr, all_slug_complete s hs)

-- A segment is not empty and has at most 100 bytes.
abbrev pub IsSegment : Bytes → Type 0
IsSegment p = (p ≢ []) × (length p ≤ 100)

-- What a capability string has to be, written without the code's loops.
pub record IsCapability (cap : Bytes) : Type 0 where
  pub fits : length cap ≤ 200
  pub levels : length (split cap b'>') ≤ 3
  pub segments : All IsSegment (split cap b'>')
  pub category : All IsSlug (top_level_category cap)

later-IsSegment_sound : (j : ℕ) (p : Bytes) → 0 < j → check_segment j p ≡ ok tt → IsSegment p
unfolding check_segment
later-IsSegment_sound j [] pos h = ground arith
later-IsSegment_sound j (c ∷ p) pos h = ((λ e. cc), ground arith)

later_segment_complete : (j : ℕ) (p : Bytes) → 0 < j → IsSegment p → check_segment j p ≡ ok tt
unfolding check_segment
later_segment_complete j [] pos h = absurd (h.0 refl)
later_segment_complete j (c ∷ p) pos h = ground arith

>>-eq-ok : {m n : Result CapabilityError (Unit {0})} → (m >> n) ≡ ok tt → (m ≡ ok tt) × (n ≡ ok tt)
>>-eq-ok {m = ok tt} h = (refl, h)
>>-eq-ok {m = err e} h = cc

later_segments_sound :
    (j : ℕ) (ps : List Bytes) → 0 < j → check_segments j ps ≡ ok tt → All IsSegment ps
unfolding check_segments
later_segments_sound j [] pos h = tt
later_segments_sound j (p ∷ ps) pos h =
    let (hp, hs) = >>-eq-ok h in
    (later-IsSegment_sound j p pos hp, later_segments_sound (j + 1) ps (omega arith) hs)

later_segments_complete :
    (j : ℕ) (ps : List Bytes) → 0 < j → All IsSegment ps → check_segments j ps ≡ ok tt
unfolding check_segments
later_segments_complete j [] pos h = refl
later_segments_complete j (p ∷ ps) pos (hp, hs) =
    rw (later_segment_complete j p pos hp) (later_segments_complete (j + 1) ps (omega arith) hs)

first-IsSegment_sound : (p : Bytes) → check_segment 0 p ≡ ok tt → IsSegment p × All IsSlug p
unfolding check_segment
first-IsSegment_sound [] h = ground arith
first-IsSegment_sound (c ∷ p) h = (((λ e. cc), ground arith), all_slug_sound (c ∷ p) (ground arith))

first_segment_complete : (p : Bytes) → IsSegment p → All IsSlug p → check_segment 0 p ≡ ok tt
unfolding check_segment
first_segment_complete [] h k = absurd (h.0 refl)
first_segment_complete (c ∷ p) h k = ground (arith, all_slug_complete (c ∷ p) k)

segments_sound :
    (ps : List Bytes)
    → ps ≢ []
    → check_segments 0 ps ≡ ok tt
    → All IsSegment ps × All IsSlug (head_part ps)
unfolding check_segments
segments_sound [] ne h = absurd (ne refl)
segments_sound (p ∷ ps) ne h =
    let (hp, hs) = >>-eq-ok h in
    let (segment, slug) = first-IsSegment_sound p hp in
    ((segment, later_segments_sound (0 + 1) ps (omega arith) hs), slug)

segments_complete :
    (ps : List Bytes) → All IsSegment ps → All IsSlug (head_part ps) → check_segments 0 ps ≡ ok tt
unfolding check_segments
segments_complete [] h k = refl
segments_complete (p ∷ ps) (hp, hs) k =
    rw (first_segment_complete p hp k) (later_segments_complete (0 + 1) ps (omega arith) hs)

-- The guards of `validate_capability_node` in front of the loop.
validate_guards :
    (cap : Bytes)
    → validate_capability_node cap ≡ ok tt
    → (length cap ≤ 200)
      × (length (split cap b'>') ≤ 3)
      × (check_segments 0 (split cap b'>') ≡ ok tt)
unfolding validate_capability_node
validate_guards cap h = ground arith

validate_sound : (cap : Bytes) → validate_capability_node cap ≡ ok tt → IsCapability cap
validate_sound cap h =
    let (fits, levels, checked) = validate_guards cap h in
    let (segments, slug) = segments_sound (split cap b'>') (split-ne-nil cap b'>') checked in
    record {
      fits = fits;
      levels = levels;
      segments = segments;
      category = rw (top_level-head_part cap) slug;
    }

validate_complete : (cap : Bytes) → IsCapability cap → validate_capability_node cap ≡ ok tt
unfolding validate_capability_node
validate_complete [] h = absurd (unfold split in h.segments.0.0 refl)
validate_complete (c ∷ s) h = ground (
  arith,
  segments_complete (split (c ∷ s) b'>') h.segments
      (rw (top_level-head_part (c ∷ s)) at h.category),
)

-- `ValidateCapabilityNode` accepts a string exactly when it has at most 200 bytes and at most three
-- segments, each segment is not empty and has at most 100 bytes, and the text in front of the first
-- `>` consists of letters, digits, hyphens and underscores.
pub validate_iff : (cap : Bytes) → (validate_capability_node cap ≡ ok tt) ↔ IsCapability cap
validate_iff cap = (validate_sound cap, validate_complete cap)
