-- ===== src/Users/Histories.antt =====
-- Every call of the service of internal/users/service.go lets the accounts grow.
use nexus_agent_protocol.Prelude.{
  ℕ, zero, suc, refl, true, false, not, List, [], ◌∷◌, ◌++◌, Bytes, codes, if◌then◌else◌, ltb,
  length, is_empty, Result, ok, err,
}
use nexus_agent_protocol.Action.{fail}
use nexus_agent_protocol.Users.{
  User, Template, verification_mail, reset_mail, no_password_mail, UserError, not_found,
  hash_failed, random_failed, mail_failed, credentials_required, password_too_short,
  invalid_credentials, no_password, token_not_found, already_verified, no_username, Accounts,
  email_verification, password_reset, set_email_verified, set_password_hash, update_profile,
}
use nexus_agent_protocol.Users.Names.{try_suffixes, generate_unique_username}
use nexus_agent_protocol.Users.Service.{
  UserService, deliver, hashed, generate_secure_token, send_mail, create_and_send, sent_of,
  token_of, account, signup, login, verify_email, link_existing, create_from_oauth, oauth_by_email,
  oauth_by_link, get_or_create_from_oauth, resend_verification, resend_to,
  resend_verification_by_email, send_reset, forgot, forgot_password, reset_password,
}
use nexus_agent_protocol.Users.Operations.{
  Op, signing_up, logging_in, verifying, joining, resending, resending_to, forgetting, resetting,
  editing, perform, run,
}
use nexus_agent_protocol.Users.Grows.{
  Grows, Grows-refl, Grows-trans, KeepsUsers-refl, KeepsTokens-refl,
}
use nexus_agent_protocol.Users.Growth.{
  IsGrowing, IsGrowing-pure, IsGrowing-fail, IsGrowing-if, IsGrowing-tried, IsGrowing-ignore,
  IsGrowing-missing, IsGrowing-found, IsGrowing-at, IsGrowing-bind, IsGrowing-by_id,
  IsGrowing-by_email, IsGrowing-by_username, IsGrowing-by_oauth, IsGrowing-create, IsGrowing-link,
  IsGrowing-token, IsGrowing-update, IsGrowing-verification, IsGrowing-reset,
}

module _ (s : UserService) where
  IsGrowing-verified : (id : ℕ) → IsGrowing (set_email_verified s.env id)
  unfolding set_email_verified
  IsGrowing-verified id =
      IsGrowing-update s.env id _ (λ n u. refl)
        λ n u. record { email = refl; username = refl; verified = λ h. refl }

  pub IsGrowing-hash : (id : ℕ) (hash : Bytes) → IsGrowing (set_password_hash s.env id hash)
  unfolding set_password_hash
  IsGrowing-hash id hash =
      IsGrowing-update s.env id _ (λ n u. refl)
        λ n u. record { email = refl; username = refl; verified = λ h. h }

  IsGrowing-profile : (id : ℕ) (b a w : Bytes) → IsGrowing (update_profile s.env id b a w)
  unfolding update_profile
  IsGrowing-profile id b a w =
      IsGrowing-update s.env id _ (λ n u. refl)
        λ n u. record { email = refl; username = refl; verified = λ h. h }

  IsGrowing-suffixes : (base : Bytes) (left i : ℕ) → IsGrowing (try_suffixes s.env base i left)
  unfolding try_suffixes
  IsGrowing-suffixes base zero i = IsGrowing-fail no_username
  IsGrowing-suffixes base (suc left) i = record {
    grows = λ w.
        Grows-trans ((IsGrowing-by_username s.env _).grows w)
          ((IsGrowing-if _ (IsGrowing-pure _) (IsGrowing-suffixes base left (suc i))).grows _);
  }

  IsGrowing-name : (email : Bytes) → IsGrowing (generate_unique_username s.env email)
  unfolding generate_unique_username
  IsGrowing-name email = record {
    grows = λ w.
        Grows-trans ((IsGrowing-by_username s.env _).grows w)
          ((IsGrowing-if _ (IsGrowing-pure _) (IsGrowing-suffixes _ 9998 2)).grows _);
  }

  pub IsGrowing-hashed : (password : Bytes) → IsGrowing (hashed s password)
  unfolding hashed
  IsGrowing-hashed password = IsGrowing-at _ λ v. IsGrowing-found hash_failed _

  IsGrowing-secure : IsGrowing (generate_secure_token s)
  unfolding generate_secure_token
  IsGrowing-secure = IsGrowing-at _ λ v. IsGrowing-found random_failed _

  IsGrowing-mail : (to : Bytes) (mail : Template) → IsGrowing (send_mail s to mail)
  unfolding send_mail deliver
  IsGrowing-mail to mail =
      IsGrowing-at (λ w. if s.send w.calls then deliver to mail else fail mail_failed)
        λ v.
          IsGrowing-if (s.send v.calls)
            (record {
              grows = λ w. record {
                users = KeepsUsers-refl w.users;
                tokens = KeepsTokens-refl w.tokens;
              };
            })
            (IsGrowing-fail mail_failed)

  IsGrowing-create_and_send : (u : User) → IsGrowing (create_and_send s u)
  unfolding create_and_send
  IsGrowing-create_and_send u = IsGrowing-bind IsGrowing-secure λ token.
      IsGrowing-bind (IsGrowing-at _ λ v. IsGrowing-token s.env email_verification u.id token _)
        λ _.
          IsGrowing-bind
            (IsGrowing-tried (
              IsGrowing-mail u.email (
                verification_mail u.display_name
                  (s.frontend_url ++ codes "/verify-email?token=" ++ token))))
            λ sent. IsGrowing-pure (token, sent)

  IsGrowing-sent :
      (r : Result UserError (Bytes × Result UserError (Unit {0}))) → IsGrowing (sent_of r)
  IsGrowing-sent (ok (token, ok x)) = IsGrowing-pure tt
  IsGrowing-sent (ok (token, err e)) = IsGrowing-fail e
  IsGrowing-sent (err e) = IsGrowing-fail e

  IsGrowing-signup : (email password name : Bytes) → IsGrowing (signup s email password name)
  unfolding signup
  IsGrowing-signup email password name = IsGrowing-if _ (IsGrowing-fail credentials_required) (
      IsGrowing-if _ (IsGrowing-fail password_too_short) (
        IsGrowing-bind (IsGrowing-hashed password) λ hash.
          IsGrowing-bind (IsGrowing-name email) λ username.
            IsGrowing-bind (IsGrowing-create s.env (account email hash name username false)) λ u.
              IsGrowing-bind (IsGrowing-tried (IsGrowing-create_and_send u))
                λ r. IsGrowing-pure (u, token_of r)))

  IsGrowing-login : (email password : Bytes) → IsGrowing (login s email password)
  unfolding login
  IsGrowing-login email password =
      IsGrowing-bind (IsGrowing-tried (IsGrowing-by_email s.env email)) λ r.
        IsGrowing-bind (IsGrowing-missing invalid_credentials r) λ u.
          IsGrowing-if (is_empty u.password_hash) (IsGrowing-fail no_password) (
            IsGrowing-if (not (s.compare_hash u.password_hash password))
              (IsGrowing-fail invalid_credentials) (IsGrowing-pure u))

  IsGrowing-verify : (token : Bytes) → IsGrowing (verify_email s token)
  unfolding verify_email
  IsGrowing-verify token =
      IsGrowing-bind (IsGrowing-tried (IsGrowing-verification s.env token))
        λ r. IsGrowing-missing token_not_found r

  IsGrowing-existing : (p i : Bytes) (u : User) → IsGrowing (link_existing s p i u)
  unfolding link_existing
  IsGrowing-existing p i u = IsGrowing-bind (IsGrowing-ignore (IsGrowing-link s.env u.id p i)) λ _.
      IsGrowing-bind
        (IsGrowing-if u.email_verified (IsGrowing-pure tt)
          (IsGrowing-ignore (IsGrowing-verified u.id)))
        λ _. IsGrowing-pure (record u { email_verified = true }, false)

  IsGrowing-from_oauth : (p i e n : Bytes) → IsGrowing (create_from_oauth s p i e n)
  unfolding create_from_oauth
  IsGrowing-from_oauth p i e n = IsGrowing-bind (IsGrowing-name e) λ username.
      IsGrowing-bind (IsGrowing-create s.env (account e [] n username true)) λ u.
        IsGrowing-bind (IsGrowing-ignore (IsGrowing-link s.env u.id p i))
          λ _. IsGrowing-pure (u, true)

  IsGrowing-by_mail :
      (p i e n : Bytes) (r : Result UserError User) → IsGrowing (oauth_by_email s p i e n r)
  unfolding oauth_by_email
  IsGrowing-by_mail p i e n (ok u) = IsGrowing-existing p i u
  IsGrowing-by_mail p i e n (err not_found) = IsGrowing-from_oauth p i e n
  IsGrowing-by_mail p i e n (err x) = IsGrowing-fail x

  IsGrowing-by_link :
      (p i e n : Bytes) (r : Result UserError User) → IsGrowing (oauth_by_link s p i e n r)
  unfolding oauth_by_link
  IsGrowing-by_link p i e n (ok u) = IsGrowing-pure (u, false)
  IsGrowing-by_link p i e n (err not_found) =
      IsGrowing-bind (IsGrowing-tried (IsGrowing-by_email s.env e)) λ r. IsGrowing-by_mail p i e n r
  IsGrowing-by_link p i e n (err x) = IsGrowing-fail x

  IsGrowing-join : (p i e n : Bytes) → IsGrowing (get_or_create_from_oauth s p i e n)
  unfolding get_or_create_from_oauth
  IsGrowing-join p i e n =
      IsGrowing-bind (IsGrowing-tried (IsGrowing-by_oauth s.env p i))
        λ r. IsGrowing-by_link p i e n r

  IsGrowing-resend : (id : ℕ) → IsGrowing (resend_verification s id)
  unfolding resend_verification
  IsGrowing-resend id = IsGrowing-bind (IsGrowing-by_id s.env id) λ u.
      IsGrowing-if u.email_verified (IsGrowing-fail already_verified)
        (IsGrowing-bind (IsGrowing-tried (IsGrowing-create_and_send u)) λ r. IsGrowing-sent r)

  IsGrowing-resend_to : (r : Result UserError User) → IsGrowing (resend_to s r)
  unfolding resend_to
  IsGrowing-resend_to (err e) = IsGrowing-pure tt
  IsGrowing-resend_to (ok u) =
      IsGrowing-if u.email_verified (IsGrowing-pure tt)
        (IsGrowing-ignore (IsGrowing-create_and_send u))

  IsGrowing-resend_by_email : (email : Bytes) → IsGrowing (resend_verification_by_email s email)
  unfolding resend_verification_by_email
  IsGrowing-resend_by_email email =
      IsGrowing-bind (IsGrowing-tried (IsGrowing-by_email s.env email)) λ r. IsGrowing-resend_to r

  IsGrowing-send_reset : (u : User) → IsGrowing (send_reset s u)
  unfolding send_reset
  IsGrowing-send_reset u = IsGrowing-bind IsGrowing-secure λ token.
      IsGrowing-bind (IsGrowing-at _ λ v. IsGrowing-token s.env password_reset u.id token _) λ _.
        IsGrowing-mail u.email
          (reset_mail u.display_name (s.frontend_url ++ codes "/reset-password?token=" ++ token))

  IsGrowing-forgot_to : (r : Result UserError User) → IsGrowing (forgot s r)
  unfolding forgot
  IsGrowing-forgot_to (err e) = IsGrowing-pure tt
  IsGrowing-forgot_to (ok u) =
      IsGrowing-if (is_empty u.password_hash)
        (IsGrowing-ignore (IsGrowing-mail u.email (no_password_mail u.display_name)))
        (IsGrowing-ignore (IsGrowing-send_reset u))

  IsGrowing-forgot : (email : Bytes) → IsGrowing (forgot_password s email)
  unfolding forgot_password
  IsGrowing-forgot email =
      IsGrowing-bind (IsGrowing-tried (IsGrowing-by_email s.env email)) λ r. IsGrowing-forgot_to r

  IsGrowing-reset_password : (token password : Bytes) → IsGrowing (reset_password s token password)
  unfolding reset_password
  IsGrowing-reset_password token password =
      IsGrowing-if (ltb (length password) 8) (IsGrowing-fail password_too_short) (
        IsGrowing-bind (IsGrowing-tried (IsGrowing-reset s.env token)) λ r.
          IsGrowing-bind (IsGrowing-missing token_not_found r)
            λ u. IsGrowing-bind (IsGrowing-hashed password) λ hash. IsGrowing-hash u.id hash)

  perform-Grows : (o : Op) (w : Accounts) → Grows w (perform s o w)
  unfolding perform
  perform-Grows (signing_up email password name) = (IsGrowing-signup email password name).grows
  perform-Grows (logging_in email password) = (IsGrowing-login email password).grows
  perform-Grows (verifying token) = (IsGrowing-verify token).grows
  perform-Grows (joining p i e n) = (IsGrowing-join p i e n).grows
  perform-Grows (resending id) = (IsGrowing-resend id).grows
  perform-Grows (resending_to email) = (IsGrowing-resend_by_email email).grows
  perform-Grows (forgetting email) = (IsGrowing-forgot email).grows
  perform-Grows (resetting token password) = (IsGrowing-reset_password token password).grows
  perform-Grows (editing id b a w) = (IsGrowing-profile id b a w).grows

  -- Whatever calls of the service are made, on whatever database: every user is still found under the
  -- same id, with the same address and name, a verified address is still verified, and a used
  -- token is still stored as used.
  pub accounts_grow : (ops : List Op) (w : Accounts) → Grows w (run s ops w)
  unfolding run
  accounts_grow [] w = Grows-refl w
  accounts_grow (o ∷ ops) w = Grows-trans (perform-Grows o w) (accounts_grow ops (perform s o w))
