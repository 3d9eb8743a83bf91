-- ===== src/Users/Service.antt =====
-- internal/users/service.go: UserService. bcrypt, the random tokens and the sender of e-mails are
-- fields of the service; what they answer depends on the number of the call.
use nexus_agent_protocol.Prelude.{
  ℕ, ◌+◌, Bool, true, false, ◌||◌, not, Option, [], ◌∷◌, ◌++◌, Bytes, codes, if◌then◌else◌, ltb,
  is_empty, length, Result, ok, err,
}
use nexus_agent_protocol.Action.{pure, fail, ◌>>=◌, ◌>>◌, tried}
use nexus_agent_protocol.World.{Env}
use nexus_agent_protocol.Users.{
  User, email_verification, password_reset, Template, verification_mail, reset_mail,
  no_password_mail, UserError, not_found, token_not_found, credentials_required, password_too_short,
  hash_failed, invalid_credentials, no_password, already_verified, random_failed, mail_failed, A,
  found_or, get_by_id, get_by_email, get_by_username, get_by_oauth, create, link_oauth,
  set_email_verified, set_password_hash, create_token, use_verification_token,
  use_password_reset_token,
}
use nexus_agent_protocol.Users.Names.{generate_unique_username}

-- `none` is an error of `bcrypt` or of `crypto/rand`. Times are in seconds.
pub record UserService : Type 0 where
  pub env : Env
  pub generate_hash : ℕ → Bytes → Option Bytes
  pub compare_hash : Bytes → Bytes → Bool
  pub secure_token : ℕ → Option Bytes
  pub send : ℕ → Bool
  pub frontend_url : Bytes

-- PublicProfile, as the service fills it
pub record PublicProfile : Type 0 where
  pub username : Bytes
  pub display_name : Bytes
  pub bio : Bytes
  pub avatar_url : Bytes
  pub website_url : Bytes
  pub email_verified : Bool
  pub member_since : ℕ

-- `ErrNotFound` is replaced
abbrev pub unless_missing : UserError → UserError → UserError
unless_missing e not_found = e
unless_missing e other = other

-- the first argument replaces `ErrNotFound`
abbrev pub or_missing : {X : Type 0} → UserError → Result UserError X → A X
or_missing e (ok x) = pure x
or_missing e (err x) = fail (unless_missing e x)

-- the result of a call, without its error
abbrev pub ignore : {X : Type 0} → A X → A (Unit {0})
ignore m w = (ok tt, (m w).1)

abbrev day : ℕ
day = 86400

abbrev hour : ℕ
hour = 3600

-- an e-mail leaves
unfoldable pub deliver : Bytes → Template → A (Unit {0})
deliver to mail w = (ok tt, record w { mails = w.mails ++ (to, mail) ∷ [] })

-- the token that a caller sees: empty where none was stored
abbrev pub token_of : Result UserError (Bytes × Result UserError (Unit {0})) → Bytes
token_of (ok (token, sent)) = token
token_of (err e) = []

-- the error that a caller sees
abbrev pub sent_of : Result UserError (Bytes × Result UserError (Unit {0})) → A (Unit {0})
sent_of (ok (token, ok x)) = pure tt
sent_of (ok (token, err e)) = fail e
sent_of (err e) = fail e

abbrev pub or_name : Bytes → Bytes → Bytes
or_name display_name username = if is_empty display_name then username else display_name

abbrev pub account : Bytes → Bytes → Bytes → Bytes → Bool → User
account email hash display_name username verified = record {
  id = 0;
  email = email;
  password_hash = hash;
  display_name = or_name display_name username;
  username = username;
  email_verified = verified;
  created_at = 0;
  updated_at = 0;
  bio = [];
  avatar_url = [];
  website_url = [];
  public_profile = false;
}

module _ (s : UserService) where
  unfoldable pub hashed : Bytes → A Bytes
  hashed password w = found_or hash_failed (s.generate_hash w.calls password) w

  -- generateSecureToken
  unfoldable pub generate_secure_token : A Bytes
  generate_secure_token w = found_or random_failed (s.secure_token w.calls) w

  unfoldable pub send_mail : Bytes → Template → A (Unit {0})
  send_mail to mail w = (if s.send w.calls then deliver to mail else fail mail_failed) w

  -- createAndSendVerification, with the error that is returned beside the token
  unfoldable pub create_and_send : User → A (Bytes × Result UserError (Unit {0}))
  create_and_send u = do
    token ← generate_secure_token
    (λ w. create_token s.env email_verification u.id token (s.env.now w.calls + day) w)
    sent ← tried (
        send_mail u.email (
          verification_mail u.display_name
            (s.frontend_url ++ codes "/verify-email?token=" ++ token)))
    pure (token, sent)

  -- Signup
  unfoldable pub signup : Bytes → Bytes → Bytes → A (User × Bytes)
  signup email password display_name =
      if is_empty email || is_empty password
      then fail credentials_required
      else if ltb (length password) 8
      then fail password_too_short
      else (do
        hash ← hashed password
        username ← generate_unique_username s.env email
        u ← create s.env (account email hash display_name username false)
        r ← tried (create_and_send u)
        pure (u, token_of r))

  -- Login
  unfoldable pub login : Bytes → Bytes → A User
  login email password = do
    r ← tried (get_by_email s.env email)
    u ← or_missing invalid_credentials r
    if is_empty u.password_hash
        then fail no_password
        else if not (s.compare_hash u.password_hash password)
        then fail invalid_credentials
        else pure u

  -- VerifyEmail
  unfoldable pub verify_email : Bytes → A User
  verify_email token = do
    r ← tried (use_verification_token s.env token)
    or_missing token_not_found r

  -- GetPublicProfile
  unfoldable pub get_public_profile : Bytes → A PublicProfile
  get_public_profile username = do
    u ← get_by_username s.env username
    if not u.public_profile
        then fail not_found
        else pure (record {
          username = u.username;
          display_name = u.display_name;
          bio = u.bio;
          avatar_url = u.avatar_url;
          website_url = u.website_url;
          email_verified = u.email_verified;
          member_since = u.created_at;
        })

  -- IsEmailVerified
  unfoldable pub is_email_verified : ℕ → A Bool
  is_email_verified id = do u ← get_by_id s.env id; pure u.email_verified

  -- GetOwnerInfo
  unfoldable pub get_owner_info : ℕ → A (Bytes × Bytes)
  get_owner_info id = do u ← get_by_id s.env id; pure (u.display_name, u.email)

  -- an account with the e-mail address is linked
  unfoldable pub link_existing : Bytes → Bytes → User → A (User × Bool)
  link_existing provider provider_id u = do
    ignore (link_oauth s.env u.id provider provider_id)
    (if u.email_verified then pure tt else ignore (set_email_verified s.env u.id))
    pure (record u { email_verified = true }, false)

  unfoldable pub create_from_oauth : Bytes → Bytes → Bytes → Bytes → A (User × Bool)
  create_from_oauth provider provider_id email display_name = do
    username ← generate_unique_username s.env email
    u ← create s.env (account email [] display_name username true)
    ignore (link_oauth s.env u.id provider provider_id)
    pure (u, true)

  unfoldable pub oauth_by_email :
      Bytes → Bytes → Bytes → Bytes → Result UserError User → A (User × Bool)
  oauth_by_email provider provider_id email display_name (ok u) =
      link_existing provider provider_id u
  oauth_by_email provider provider_id email display_name (err not_found) =
      create_from_oauth provider provider_id email display_name
  oauth_by_email provider provider_id email display_name (err e) = fail e

  unfoldable pub oauth_by_link :
      Bytes → Bytes → Bytes → Bytes → Result UserError User → A (User × Bool)
  oauth_by_link provider provider_id email display_name (ok u) = pure (u, false)
  oauth_by_link provider provider_id email display_name (err not_found) =
      tried (get_by_email s.env email) >>= oauth_by_email provider provider_id email display_name
  oauth_by_link provider provider_id email display_name (err e) = fail e

  -- GetOrCreateFromOAuth
  unfoldable pub get_or_create_from_oauth : Bytes → Bytes → Bytes → Bytes → A (User × Bool)
  get_or_create_from_oauth provider provider_id email display_name =
      tried (get_by_oauth s.env provider provider_id)
      >>= oauth_by_link provider provider_id email display_name

  -- ResendVerification
  unfoldable pub resend_verification : ℕ → A (Unit {0})
  resend_verification id = do
    u ← get_by_id s.env id
    if u.email_verified then fail already_verified else tried (create_and_send u) >>= sent_of

  unfoldable pub resend_to : Result UserError User → A (Unit {0})
  resend_to (err e) = pure tt
  resend_to (ok u) = if u.email_verified then pure tt else ignore (create_and_send u)

  -- ResendVerificationByEmail
  unfoldable pub resend_verification_by_email : Bytes → A (Unit {0})
  resend_verification_by_email email = tried (get_by_email s.env email) >>= resend_to

  unfoldable pub send_reset : User → A (Unit {0})
  send_reset u = do
    token ← generate_secure_token
    (λ w. create_token s.env password_reset u.id token (s.env.now w.calls + hour) w)
    send_mail u.email
        (reset_mail u.display_name (s.frontend_url ++ codes "/reset-password?token=" ++ token))

  unfoldable pub forgot : Result UserError User → A (Unit {0})
  forgot (err e) = pure tt
  forgot (ok u) =
      if is_empty u.password_hash
      then ignore (send_mail u.email (no_password_mail u.display_name))
      else ignore (send_reset u)

  -- ForgotPassword
  unfoldable pub forgot_password : Bytes → A (Unit {0})
  forgot_password email = tried (get_by_email s.env email) >>= forgot

  -- ResetPassword
  unfoldable pub reset_password : Bytes → Bytes → A (Unit {0})
  reset_password token password = if ltb (length password) 8 then fail password_too_short else (do
    r ← tried (use_password_reset_token s.env token)
    u ← or_missing token_not_found r
    hash ← hashed password
    set_password_hash s.env u.id hash)
