-- ===== src/Repository/Like.antt =====
-- The SQL operator LIKE: `%` stands for any text, `_` for one character, and a backslash takes the
-- next character of the pattern literally.
pub mod Laws
use nexus_agent_protocol.Prelude.{
  ℕ, ◌≡◌, ◌≢◌, refl, Bool, true, false, ◌&&◌, ◌||◌, List, [], ◌∷◌, ◌++◌, Bytes, codes, arith, ◌==◌,
  if◌then◌else◌, is_empty,
}

-- some suffix passes the test
unfoldable pub any_suffix : (Bytes → Bool) → Bytes → Bool
any_suffix q [] = q []
any_suffix q (c ∷ s) = q (c ∷ s) || any_suffix q s

-- a first character that passes, and a rest that does
abbrev behind : (ℕ → Bool) → (Bytes → Bool) → Bytes → Bool
behind p q [] = false
behind p q (c ∷ s) = p c && q s

-- the first argument says that the character before was a backslash
unfoldable pub like_from : Bool → Bytes → Bytes → Bool
unfolding any_suffix
like_from escaped [] s = is_empty s
like_from true (c ∷ p) s = behind (λ d. d == c) (like_from false p) s
like_from false (c ∷ p) s =
    let any = any_suffix (like_from false p) s in
    let one = behind (λ _. true) (like_from false p) s in
    let literal = like_from true p s in
    let same = behind (λ d. d == c) (like_from false p) s in
    if c == b'%' then any else if c == b'_' then one else if c == b'\\' then literal else same

unfoldable pub like : Bytes → Bytes → Bool
unfolding like_from
like pattern text = like_from false pattern text
