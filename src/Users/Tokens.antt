-- ===== src/Users/Tokens.antt =====
-- The tokens of internal/users: a reset uses its token, and a used token resets nothing.
use nexus_agent_protocol.Prelude.{
  ℕ, ◌≡◌, ◌≢◌, refl, sym, ◌∙◌, true, false, Bool-cases, inl, inr, some, List, [], ◌∷◌, Bytes, arith,
  ltb, length, is_some, first, text_eq, Result, ok, err, Result-cases,
}
use nexus_agent_protocol.Action.{pure, ◌>>=◌, ◌>>◌, tried}
use mathlib.Core.Path.{subst}
use nexus_agent_protocol.World.{Env}
use nexus_agent_protocol.Users.{
  User, TokenType, password_reset, TokenRow, UserError, token_not_found, Accounts, A, is_token,
  mark_used, call, check_token, open_token, commit, get_by_id, use_password_reset_token,
  set_password_hash,
}
use nexus_agent_protocol.Users.Service.{UserService, or_missing, hashed, reset_password}
use nexus_agent_protocol.Users.Operations.{Op, run}
use nexus_agent_protocol.Users.Grows.{Grows, first-change}
use nexus_agent_protocol.Users.Growth.{IsGrowing-by_id, IsGrowing-bind, IsGrowing-missing}
use nexus_agent_protocol.Users.Histories.{accounts_grow, IsGrowing-hashed, IsGrowing-hash}

-- the token is stored as used
IsUsed : Bytes → TokenType → Accounts → Type 0
IsUsed token type w =
    (r : TokenRow) × (first (is_token token type) w.tokens ≡ some r) × (is_some r.used_at ≡ true)

grown :
    {w v : Accounts} (token : Bytes) (type : TokenType)
    → Grows w v
    → IsUsed token type w
    → IsUsed token type v
unfolding IsUsed
grown token type h (r, q, used) = let (s, qs, hs) = h.tokens token type r q in (s, qs, hs used)

module _ {X Y : Type 0} (m : A X) (f : X → A Y) where
  -- a sequence that ends well went well in its first part
  bind_parts :
      (w : Accounts) (y : Y)
      → ((m >>= f) w).0 ≡ ok y
      → (x : X) × ((m w).0 ≡ ok x) × ((f x (m w).1).0 ≡ ok y) × ((m >>= f) w ≡ f x (m w).1)
  bind_parts w y q = elim (Result-cases (m w).0) [
    | inl (e, h) ↦ absurd (ground (arith, q, h))
    | inr (x, h) ↦ (x, h, rw h at q, rw h refl)
  ]

token_matches :
    (token : Bytes) (type : TokenType) (rows : List TokenRow) (r : TokenRow)
    → first (is_token token type) rows ≡ some r
    → text_eq r.token token ≡ true
token_matches token type [] r q = absurd (ground (arith, q))
token_matches token type (x ∷ rows) r q = elim (Bool-cases (is_token token type x)) [
  | inl t ↦ ground (arith, q, t)
  | inr n ↦ token_matches token type rows r (ground (arith, q, n))
]

mark_used-used :
    (token : Bytes) (type : TokenType) (now : ℕ) (rows : List TokenRow) (r : TokenRow)
    → first (is_token token type) rows ≡ some r
    → (s : TokenRow) × (first (is_token token type) (mark_used token now rows) ≡ some s)
      × (is_some s.used_at ≡ true)
unfolding mark_used
mark_used-used token type now rows r q =
    let marked =
      first-change (is_token token type) (λ x. text_eq x.token token)
        (λ x. record x { used_at = some now }) (λ x. refl) rows r q in
    (record r { used_at = some now }, rw (token_matches token type rows r q) at marked, refl)

module _ (env : Env) where
  opened :
      (type : TokenType) (token : Bytes) (w : Accounts) (row : TokenRow)
      → (open_token env type token w).0 ≡ ok row
      → (first (is_token token type) w.tokens ≡ some row)
        × ((open_token env type token w).1.tokens ≡ w.tokens)
        × (is_some row.used_at ≡ false)
  unfolding open_token call check_token
  opened type token w row q = (ground arith, ground arith, ground arith)

  committed :
      (token : Bytes) (now : ℕ) (w : Accounts)
      → ((call env (pure tt) >> commit env token now (λ us. us)) w).0 ≡ ok tt
      → ((call env (pure tt) >> commit env token now (λ us. us)) w).1.tokens
        ≡ mark_used token now w.tokens
  unfolding call commit
  committed token now w q = ground arith

  reset-IsUsed :
      (token : Bytes) (w : Accounts) (u : User)
      → (use_password_reset_token env token w).0 ≡ ok u
      → IsUsed token password_reset (use_password_reset_token env token w).1
  unfolding use_password_reset_token IsUsed
  reset-IsUsed token w u q =
      let (row, q1, q2, e1) = bind_parts (open_token env password_reset token) _ w u q in
      let (found, same, fresh) = opened password_reset token w row q1 in
      let (x, q3, q4, e2) =
        bind_parts
          (λ w'. (call env (pure tt) >> commit env token (env.now w'.calls) (λ users. users)) w')
          (λ _. get_by_id env row.user_id) (open_token env password_reset token w).1 u q2 in
      let w1 = (open_token env password_reset token w).1 in
      let tokens = committed token (env.now w1.calls) w1 q3 in
      let (s, marked, used) =
        mark_used-used token password_reset (env.now w1.calls) w.tokens row found in
      subst (λ r. IsUsed token password_reset r.1) (sym (e1 ∙ e2))
        (grown token password_reset ((IsGrowing-by_id env row.user_id).grows _)
          (s, rw (tokens, same) marked, used))

  used_open :
      (type : TokenType) (token : Bytes) (w : Accounts) (row : TokenRow)
      → IsUsed token type w
      → (open_token env type token w).0 ≢ ok row
  unfolding IsUsed
  used_open type token w row (r, found, used) q =
      let (found', same, fresh) = opened type token w row q in absurd (ground arith)

  used_token :
      (token : Bytes) (w : Accounts) (u : User)
      → IsUsed token password_reset w
      → (use_password_reset_token env token w).0 ≢ ok u
  unfolding use_password_reset_token
  used_token token w u used q =
      let (row, q1, q2, e1) = bind_parts (open_token env password_reset token) _ w u q in
      used_open password_reset token w row used q1

or_missing_ok :
    {X : Type 0} (e : UserError) (r : Result UserError X) (w : Accounts) (x : X)
    → (or_missing e r w).0 ≡ ok x
    → r ≡ ok x
or_missing_ok e (ok y) w x q = q
or_missing_ok e (err y) w x q = absurd (ground (arith, q))

module _ (s : UserService) where
  reset_parts :
      (token password : Bytes) (w : Accounts)
      → (reset_password s token password w).0 ≡ ok tt
      → (u : User) × ((use_password_reset_token s.env token w).0 ≡ ok u)
        × Grows (use_password_reset_token s.env token w).1 (reset_password s token password w).1
  unfolding reset_password
  reset_parts token password w q = elim (Bool-cases (ltb (length password) 8)) [
    | inl t ↦ absurd (ground (arith, rw t at q))
    | inr n ↦
        let rest = λ (r : Result UserError User). or_missing token_not_found r >>= λ u.
        hashed s password >>= λ hash. set_password_hash s.env u.id hash in
        let v = (use_password_reset_token s.env token w).1 in
        let (r, q1, q2, e) =
          bind_parts (tried (use_password_reset_token s.env token)) rest w tt (rw n at q) in
        let (u, q3, q4, e2) = bind_parts (or_missing token_not_found r) _ v tt q2 in
        (
          u,
          ground (arith, q1, or_missing_ok token_not_found r v u q3),
          rw n (
              (IsGrowing-bind
                  (IsGrowing-missing token_not_found (use_password_reset_token s.env token w).0)
                  λ u.
                    IsGrowing-bind (IsGrowing-hashed s password)
                      λ hash. IsGrowing-hash s u.id hash).grows
                v),
        )
  ]

  -- A reset that went well uses its token up: whatever calls of the service follow, no reset with this
  -- token goes well again.
  pub reset_once :
      (token password : Bytes) (w : Accounts) (ops : List Op) (other : Bytes)
      → (reset_password s token password w).0 ≡ ok tt
      → (reset_password s token other (run s ops (reset_password s token password w).1)).0 ≢ ok tt
  unfolding reset_password
  reset_once token password w ops other q next =
      let (u, q1, h) = reset_parts token password w q in
      let (v, q2, k) =
        reset_parts token other (run s ops (reset_password s token password w).1) next in
      let used = grown token password_reset h (reset-IsUsed s.env token w u q1) in
      used_token s.env token _ v (grown token password_reset (accounts_grow s ops _) used) q2
