-- ===== src/Prelude/Text/Split.antt =====
-- Splitting a text that is put together from parts.
use Prim.Native.Nat.{ℕ}
use mathlib.Core.Path.{◌≡◌, refl}
use mathlib.Core.List.{[], ◌∷◌, ◌++◌}
use native.Mathlib.Omega.{arith}
use nexus_agent_protocol.Prelude.Text.{Bytes, onto, split, Lacks}

-- Up to the first separator, a text without it is the first part.
pub split-append :
    (p s : Bytes) (sep : ℕ) → Lacks sep p → split (p ++ sep ∷ s) sep ≡ p ∷ split s sep
unfolding split
split-append [] s sep h = ground arith
split-append (c ∷ p) s sep (hc, hp) = ground (arith, split-append p s sep hp, onto_lem c p s sep)
  where
    onto_lem : (c : ℕ) (p s : Bytes) (sep : ℕ) → onto c (p ∷ split s sep) ≡ (c ∷ p) ∷ split s sep
    onto_lem c p s sep = unfold onto in refl

pub split-Lacks : (p : Bytes) (sep : ℕ) → Lacks sep p → split p sep ≡ p ∷ []
unfolding split
split-Lacks [] sep h = refl
split-Lacks (c ∷ p) sep (hc, hp) = ground (arith, split-Lacks p sep hp, onto_lem)
  where
    onto_lem : onto c (p ∷ []) ≡ (c ∷ p) ∷ []
    onto_lem = unfold onto in refl
