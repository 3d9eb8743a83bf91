-- ===== src/Users/Names.antt =====
-- internal/users/service.go: the names that are made of an e-mail address, which is ASCII here.
use nexus_agent_protocol.Prelude.{
  ℕ, zero, suc, ◌≡◌, refl, Bool, true, false, Bool-cases, inl, inr, not, Option, none, some, List,
  [], ◌∷◌, ◌++◌, Bytes, codes, if◌then◌else◌, ltb, leb, ◌==◌, ◌&&◌, ◌||◌, is_empty, some_of, first,
  keep, take, length, index, to_lower, trim, Result, ok, err,
}
use nexus_agent_protocol.Action.{pure}
use nexus_agent_protocol.Ledger.Decimal.{decimal}
use nexus_agent_protocol.World.{Env}
use nexus_agent_protocol.Users.{
  User, UserError, not_found, no_username, Accounts, A, name_taken, tick, found_or, call, scan_one,
  get_by_username,
}

-- the part before the first `@`, if something stands there
abbrev local_part : Bytes → Bytes
local_part email = elim (index email b'@') [
  | none ↦ email
  | some at ↦ if ltb 0 at then take at email else email
]

-- a rune of a lower-cased ASCII text that `slugifyEmail` keeps
unfoldable pub is_name_rune : ℕ → Bool
is_name_rune r = (leb b'a' r && leb r b'z') || (leb b'0' r && leb r b'9') || r == b'-'

-- slugifyEmail
unfoldable pub slugify_email : Bytes → Bytes
unfolding index to_lower is_name_rune trim
slugify_email email =
    let result = trim (λ c. c == b'-') (keep is_name_rune (to_lower (local_part email))) in
    if ltb 32 (length result) then take 32 result else result

unfoldable pub base_name : Bytes → Bytes
unfolding slugify_email
base_name email = if is_empty (slugify_email email) then codes "user" else slugify_email email

-- `errors.Is(err, ErrNotFound)`
unfoldable pub is_missing : Result UserError User → Bool
is_missing (err not_found) = true
is_missing _ = false

module _ (env : Env) where
  -- the loop over the suffixes from `i` on, of which so many are left
  unfoldable pub try_suffixes : Bytes → ℕ → ℕ → A Bytes
  try_suffixes base i zero w = (err no_username, w)
  try_suffixes base i (suc left) w =
      let (r, w') = get_by_username env (base ++ decimal i) w in
      (if is_missing r then pure (base ++ decimal i) else try_suffixes base (suc i) left) w'

  -- generateUniqueUsername: the suffixes are 2 to 9999
  unfoldable pub generate_unique_username : Bytes → A Bytes
  generate_unique_username email w =
      let (r, w') = get_by_username env (base_name email) w in
      (if is_missing r then pure (base_name email) else try_suffixes (base_name email) 2 9998) w'

-- The names that may be given, in order.
unfoldable pub suffixed : Bytes → ℕ → ℕ → List Bytes
suffixed base i zero = []
suffixed base i (suc left) = (base ++ decimal i) ∷ suffixed base (suc i) left

abbrev pub candidates : Bytes → List Bytes
candidates base = base ∷ suffixed base 2 9998

abbrev pub named : Option Bytes → Result UserError Bytes
named none = err no_username
named (some name) = ok name

-- the name is not in the table
abbrev pub is_free : List User → Bytes → Bool
is_free users name = not (name_taken name users)

missing_row :
    (p : User → Bool) (rows : List User) (w : Accounts)
    → is_missing (found_or not_found (first p rows) w).0 ≡ not (some_of p rows)
unfolding is_missing
missing_row p [] w = refl
missing_row p (u ∷ rows) w = elim (Bool-cases (p u)) [
  | inl t ↦ rw t refl
  | inr n ↦ rw n (missing_row p rows w)
]

found_or_state : {X : Type 0} (e : UserError) (o : Option X) (w : Accounts) → (found_or e o w).1 ≡ w
found_or_state e none w = refl
found_or_state e (some x) w = refl

module _ (env : Env) (healthy : (n : ℕ) → env.fault n ≡ false) where
  asked_state : (name : Bytes) (w : Accounts) → (get_by_username env name w).1 ≡ tick w
  unfolding get_by_username scan_one call
  asked_state name w = rw (healthy w.calls) (found_or_state not_found _ (tick w))

  asked_missing :
      (name : Bytes) (w : Accounts)
      → is_missing (get_by_username env name w).0 ≡ is_free w.users name
  unfolding get_by_username scan_one call
  asked_missing name w = rw (healthy w.calls) (missing_row _ w.users (tick w))

  try_suffixes-first :
      (base : Bytes) (left i : ℕ) (w : Accounts)
      → (try_suffixes env base i left w).0 ≡ named (first (is_free w.users) (suffixed base i left))
  unfolding try_suffixes suffixed
  try_suffixes-first base zero i w = refl
  try_suffixes-first base (suc left) i w = elim (Bool-cases (is_free w.users (base ++ decimal i))) [
    | inl t ↦ rw (asked_missing (base ++ decimal i) w, t) refl
    | inr n ↦
        rw (asked_missing (base ++ decimal i) w, asked_state (base ++ decimal i) w, n)
          (try_suffixes-first base left (suc i) (tick w))
  ]

  -- With a database that answers, the loop gives the first name that no user has among the slug of the
  -- address and the slug with the suffixes 2 to 9999, and its error if all of them are taken.
  pub generate_unique_username_lem :
      (email : Bytes) (w : Accounts)
      → (generate_unique_username env email w).0
        ≡ named (first (is_free w.users) (candidates (base_name email)))
  unfolding generate_unique_username
  generate_unique_username_lem email w = elim (Bool-cases (is_free w.users (base_name email))) [
    | inl t ↦ rw (asked_missing (base_name email) w, t) refl
    | inr n ↦
        rw (asked_missing (base_name email) w, asked_state (base_name email) w, n)
          (try_suffixes-first (base_name email) 9998 2 (tick w))
  ]
