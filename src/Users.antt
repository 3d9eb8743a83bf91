-- ===== src/Users.antt =====
-- internal/users/model.go and internal/users/repository.go: the tables of the accounts, and the calls of
-- the database over them. A statement that fails, or a transaction that is not committed, changes
-- no row.
pub mod Names
pub mod Service
pub mod Operations
pub mod Grows
pub mod Growth
pub mod Histories
pub mod Tokens
mod Tests
use nexus_agent_protocol.Prelude.{
  ℕ, suc, ◌+◌, Bool, true, false, ◌&&◌, ◌||◌, not, Option, none, some, List, [], ◌∷◌, ◌++◌, Bytes,
  codes, if◌then◌else◌, ◌==◌, ltb, is_some, is_empty, text_eq, some_of, first, Result, ok, err,
}
use nexus_agent_protocol.Action.{Action, pure, fail, continue, ◌>>=◌, ◌>>◌}
use nexus_agent_protocol.World.{Env}

pub record User : Type 0 where
  pub id : ℕ
  pub email : Bytes
  pub password_hash : Bytes
  pub display_name : Bytes
  pub username : Bytes
  pub email_verified : Bool
  pub created_at : ℕ
  pub updated_at : ℕ
  pub bio : Bytes
  pub avatar_url : Bytes
  pub website_url : Bytes
  pub public_profile : Bool

-- OAuthAccount, as far as a query reads it
pub record OauthAccount : Type 0 where
  pub user_id : ℕ
  pub provider : Bytes
  pub provider_id : Bytes

pub data TokenType : Type 0 where
  email_verification password_reset : TokenType

-- a row of the table `email_verifications`
pub record TokenRow : Type 0 where
  pub user_id : ℕ
  pub token : Bytes
  pub token_type : TokenType
  pub expires_at : ℕ
  pub used_at : Option ℕ

-- an e-mail that was sent: the address and the template
pub data Template : Type 0 where
  verification_mail reset_mail : Bytes → Bytes → Template
  no_password_mail : Bytes → Template

pub data UserError : Type 0 where
  not_found duplicate_email duplicate_username db_error : UserError
  token_used token_expired token_not_found : UserError
  credentials_required password_too_short hash_failed invalid_credentials no_password : UserError
  no_username already_verified random_failed mail_failed : UserError

-- The tables, the sent e-mails and the number of calls.
pub record Accounts : Type 0 where
  pub users : List User
  pub oauth : List OauthAccount
  pub tokens : List TokenRow
  pub mails : List (Bytes × Template)
  pub calls : ℕ

abbrev pub A : Type 0 → Type 0
A X = Action Accounts UserError X

abbrev pub same_type : TokenType → TokenType → Bool
same_type email_verification email_verification = true
same_type password_reset password_reset = true
same_type _ _ = false

abbrev pub has_id : ℕ → User → Bool
has_id id u = u.id == id

-- the row of a token of a type
abbrev pub is_token : Bytes → TokenType → TokenRow → Bool
is_token token type r = text_eq r.token token && same_type r.token_type type

-- UPDATE: the rows that pass the test
unfoldable pub change : {X : Type 0} → (X → Bool) → (X → X) → List X → List X
change p f [] = []
change p f (x ∷ l) = (if p x then f x else x) ∷ change p f l

-- the UPDATE of a token that was used
unfoldable pub mark_used : Bytes → ℕ → List TokenRow → List TokenRow
unfolding change
mark_used token now rows =
    change (λ r. text_eq r.token token) (λ r. record r { used_at = some now }) rows

-- one of the keys of the table `users` is taken
abbrev pub email_taken : Bytes → List User → Bool
email_taken email users = some_of (λ u. text_eq u.email email) users

abbrev pub name_taken : Bytes → List User → Bool
name_taken name users = some_of (λ u. text_eq u.username name) users

abbrev pub tick : Accounts → Accounts
tick w = record w { calls = suc w.calls }

abbrev pub found_or : {X : Type 0} → UserError → Option X → A X
found_or e none = fail e
found_or e (some x) = pure x

-- INSERT of a user, with the defaults of the other columns
unfoldable pub insert_user : User → A User
insert_user u w = (
  ok u,
  record w {
    users =
        w.users
        ++ record u { bio = []; avatar_url = []; website_url = []; public_profile = true } ∷ [];
  },
)

unfoldable pub insert_link : OauthAccount → A (Unit {0})
insert_link o w = (ok tt, record w { oauth = w.oauth ++ o ∷ [] })

unfoldable pub insert_token : TokenRow → A (Unit {0})
insert_token r w = (ok tt, record w { tokens = w.tokens ++ r ∷ [] })

unfoldable pub write_users : (List User → List User) → A (Unit {0})
write_users f w = (ok tt, record w { users = f w.users })

module _ (env : Env) where
  -- one call of the database, that reads or writes
  unfoldable pub call : {X : Type 0} → A X → A X
  call m w = if env.fault w.calls then (err db_error, tick w) else m (tick w)

  -- scanOne
  unfoldable pub scan_one : (User → Bool) → A User
  scan_one p = call (λ w. found_or not_found (first p w.users) w)

  -- GetByID, GetByEmail, GetByUsername
  unfoldable pub get_by_id : ℕ → A User
  get_by_id id = scan_one (has_id id)

  unfoldable pub get_by_email : Bytes → A User
  get_by_email email = scan_one (λ u. text_eq u.email email)

  unfoldable pub get_by_username : Bytes → A User
  get_by_username name = scan_one (λ u. text_eq u.username name)

  -- GetByOAuth: the join of the two tables
  unfoldable pub get_by_oauth : Bytes → Bytes → A User
  get_by_oauth provider provider_id = call (λ w.
      found_or not_found
        (first
          (λ u.
            some_of
              (λ o.
                o.user_id == u.id
                && text_eq o.provider provider
                && text_eq o.provider_id provider_id)
              w.oauth)
          w.users)
        w)

  -- Create: the columns that the statement leaves out have their defaults. The name is compared
  -- after the e-mail, as the constraints stand in the table.
  unfoldable pub create : User → A User
  create u w =
      let filled = record u {
        id = env.new_uuid w.calls;
        created_at = env.now w.calls;
        updated_at = env.now w.calls;
      } in
      call
        (if some_of (has_id filled.id) w.users
          then fail db_error
          else if email_taken u.email w.users
          then fail duplicate_email
          else if name_taken u.username w.users
          then fail duplicate_username
          else insert_user filled)
        w

  -- LinkOAuth: `ON CONFLICT DO NOTHING`
  unfoldable pub link_oauth : ℕ → Bytes → Bytes → A (Unit {0})
  link_oauth user provider provider_id w =
      call
        (if some_of (λ o. text_eq o.provider provider && text_eq o.provider_id provider_id) w.oauth
          then pure tt
          else insert_link
              (record { user_id = user; provider = provider; provider_id = provider_id }))
        w

  -- an UPDATE of one user, at the time of the call; no row is no error here
  unfoldable pub update_user : ℕ → (ℕ → User → User) → A (Unit {0})
  update_user id f w = call (write_users (change (has_id id) (f (env.now w.calls)))) w

  -- SetEmailVerified
  unfoldable pub set_email_verified : ℕ → A (Unit {0})
  set_email_verified id =
      update_user id (λ now u. record u { email_verified = true; updated_at = now })

  -- SetPasswordHash
  unfoldable pub set_password_hash : ℕ → Bytes → A (Unit {0})
  set_password_hash id hash =
      update_user id (λ now u. record u { password_hash = hash; updated_at = now })

  -- UpdateProfile
  unfoldable pub update_profile : ℕ → Bytes → Bytes → Bytes → A (Unit {0})
  update_profile id bio avatar_url website_url = update_user id (λ now u. record u {
    bio = bio;
    avatar_url = avatar_url;
    website_url = website_url;
    updated_at = now;
  })

  -- createToken: a token is stored once
  unfoldable pub create_token : TokenType → ℕ → Bytes → ℕ → A (Unit {0})
  create_token type user token expires w =
      call
        (if some_of (λ r. text_eq r.token token) w.tokens
          then fail db_error
          else insert_token (record {
            user_id = user;
            token = token;
            token_type = type;
            expires_at = expires;
            used_at = none;
          }))
        w

  -- is the token of this row free, at this time?
  unfoldable pub check_token : TokenRow → ℕ → A (Unit {0})
  check_token r now =
      if is_some r.used_at
      then fail token_used
      else if ltb r.expires_at now
      then fail token_expired
      else pure tt

  -- the first statements of a transaction that uses a token: `Begin`, the SELECT and its checks
  unfoldable pub open_token : TokenType → Bytes → A TokenRow
  open_token type token = do
    call (pure tt)
    row ← call (λ w. found_or not_found (first (is_token token type) w.tokens) w)
    (λ w. check_token row (env.now w.calls) w)
    pure row

  -- the commit: the token is used at this time, and the users are written
  unfoldable pub commit : Bytes → ℕ → (List User → List User) → A (Unit {0})
  commit token now f =
      call (λ w. (ok tt, record w { tokens = mark_used token now w.tokens; users = f w.users }))

  -- UseVerificationToken: two UPDATEs before the commit
  unfoldable pub use_verification_token : Bytes → A User
  use_verification_token token = do
    row ← open_token email_verification token
    (λ w.
        (call (pure tt)
            >> call (pure tt)
            >> commit token (env.now w.calls) (
                change (has_id row.user_id)
                  (λ u. record u { email_verified = true; updated_at = env.now w.calls })))
          w)
    get_by_id row.user_id

  -- UsePasswordResetToken: one UPDATE before the commit
  unfoldable pub use_password_reset_token : Bytes → A User
  use_password_reset_token token = do
    row ← open_token password_reset token
    (λ w. (call (pure tt) >> commit token (env.now w.calls) (λ users. users)) w)
    get_by_id row.user_id
