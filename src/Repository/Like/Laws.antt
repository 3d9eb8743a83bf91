-- ===== src/Repository/Like/Laws.antt =====
-- What the pattern of a category matches.
use nexus_agent_protocol.Prelude.{
  ℕ, ◌≡◌, refl, Bool, true, false, ◌&&◌, not, [], ◌∷◌, ◌++◌, arith, Bytes, codes, ◌==◌, All,
  has_prefix,
}
use nexus_agent_protocol.Repository.Like.{any_suffix, like_from, like}

-- a character that a pattern does not read in a special way
abbrev IsPlain : ℕ → Type 0
IsPlain c = ((c == b'%') ≡ false) × ((c == b'_') ≡ false) × ((c == b'\\') ≡ false)

any_rest : (s : Bytes) → any_suffix (like_from false []) s ≡ true
unfolding any_suffix like_from
any_rest [] = refl
any_rest (c ∷ s) = ground (arith, any_rest s)

tail : (s : Bytes) → like_from false (codes ">%") s ≡ has_prefix s (codes ">")
unfolding like_from has_prefix
tail [] = refl
tail (c ∷ s) = ground (arith, any_rest s)

from_children :
    (cap s : Bytes)
    → All IsPlain cap
    → like_from false (cap ++ codes ">%") s ≡ has_prefix s (cap ++ codes ">")
unfolding like_from has_prefix
from_children [] s h = tail s
from_children (c ∷ cap) [] h = ground (arith, h.0)
from_children (c ∷ cap) (d ∷ s) h = ground (arith, h.0, from_children cap s h.1)

-- a text without the characters that a pattern reads in a special way
unfoldable pub is_plain : Bytes → Bool
is_plain [] = true
is_plain (c ∷ s) = not (c == b'%') && not (c == b'_') && not (c == b'\\') && is_plain s

is_plain-IsPlain : (s : Bytes) → is_plain s ≡ true → All IsPlain s
unfolding is_plain
is_plain-IsPlain [] h = tt
is_plain-IsPlain (c ∷ s) h = (
  (ground (arith, h), ground (arith, h), ground (arith, h)),
  is_plain-IsPlain s (ground (arith, h)),
)

pub like-children :
    (cap text : Bytes)
    → is_plain cap ≡ true
    → like (cap ++ codes ">%") text ≡ has_prefix text (cap ++ codes ">")
unfolding like
like-children cap text h = from_children cap text (is_plain-IsPlain cap h)
