-- ===== src/Users/Growth.antt =====
-- Every call of internal/users/repository.go lets the accounts grow, with a rule for each way to build an
-- action.
use nexus_agent_protocol.Prelude.{
  ℕ, ◌≡◌, refl, Bool, true, false, Option, none, some, List, Bytes, if◌then◌else◌, text_eq, some_of,
  first, Result, ok, err,
}
use nexus_agent_protocol.Action.{pure, fail, continue, ◌>>=◌, tried}
use nexus_agent_protocol.Users.{
  User, TokenRow, UserError, token_used, token_expired, not_found, db_error, duplicate_email,
  duplicate_username, email_taken, name_taken, OauthAccount, TokenType, email_verification,
  password_reset, insert_user, insert_link, insert_token, write_users, Accounts, A, has_id,
  is_token, mark_used, tick, found_or, call, scan_one, get_by_id, get_by_email, get_by_username,
  get_by_oauth, create, link_oauth, update_user, create_token, check_token, open_token, commit,
  use_verification_token, use_password_reset_token,
}
use nexus_agent_protocol.World.{Env}
use nexus_agent_protocol.Users.Service.{or_missing, ignore}
use nexus_agent_protocol.Users.Grows.{
  IsKept, KeepsUsers, KeepsUsers-refl, KeepsTokens-refl, Grows, Grows-refl, Grows-trans,
  KeepsUsers-append, KeepsTokens-append, KeepsUsers-change, KeepsTokens-change,
}

pub record IsGrowing {X : Type 0} (m : A X) : Type 0 where
  pub grows : (w : Accounts) → Grows w (m w).1

module _ {X : Type 0} where
  pub IsGrowing-pure : (x : X) → IsGrowing (pure x)
  IsGrowing-pure x = record { grows = Grows-refl }

  pub IsGrowing-fail : (e : UserError) → IsGrowing (fail {A = X} e)
  IsGrowing-fail e = record { grows = Grows-refl }

  pub IsGrowing-if :
      (b : Bool) {m n : A X} → IsGrowing m → IsGrowing n → IsGrowing (if b then m else n)
  IsGrowing-if true hm hn = hm
  IsGrowing-if false hm hn = hn

  pub IsGrowing-tried : {m : A X} → IsGrowing m → IsGrowing (tried m)
  IsGrowing-tried hm = record { grows = hm.grows }

  pub IsGrowing-ignore : {m : A X} → IsGrowing m → IsGrowing (ignore m)
  IsGrowing-ignore hm = record { grows = hm.grows }

  pub IsGrowing-found : (e : UserError) (o : Option X) → IsGrowing (found_or e o)
  IsGrowing-found e none = IsGrowing-fail e
  IsGrowing-found e (some x) = IsGrowing-pure x

  pub IsGrowing-missing : (e : UserError) (r : Result UserError X) → IsGrowing (or_missing e r)
  IsGrowing-missing e (ok x) = IsGrowing-pure x
  IsGrowing-missing e (err x) = IsGrowing-fail _

  -- an action that looks at the state first
  pub IsGrowing-at :
      (m : Accounts → A X) → ((v : Accounts) → IsGrowing (m v)) → IsGrowing (λ w. m w w)
  IsGrowing-at m h = record { grows = λ w. (h w).grows w }

module _ {X Y : Type 0} where
  Grows-then :
      (f : X → A Y) (v : Accounts) (r : Result UserError X) (w : Accounts)
      → Grows v w
      → ((x : X) → IsGrowing (f x))
      → Grows v (continue f r w).1
  Grows-then f v (ok x) w h k = Grows-trans h ((k x).grows w)
  Grows-then f v (err e) w h k = h

  pub IsGrowing-bind :
      {m : A X} {f : X → A Y} → IsGrowing m → ((x : X) → IsGrowing (f x)) → IsGrowing (m >>= f)
  IsGrowing-bind {m} {f} hm hf = record {
    grows = λ w. Grows-then f w (m w).0 (m w).1 (hm.grows w) hf;
  }

tick-Grows : (w : Accounts) → Grows w (tick w)
tick-Grows w = record { users = KeepsUsers-refl w.users; tokens = KeepsTokens-refl w.tokens }

pub IsGrowing-insert : (u : User) → IsGrowing (insert_user u)
unfolding insert_user
IsGrowing-insert u = record {
  grows = λ w. record { users = KeepsUsers-append w.users _; tokens = KeepsTokens-refl w.tokens };
}

pub IsGrowing-insert_link : (o : OauthAccount) → IsGrowing (insert_link o)
unfolding insert_link
IsGrowing-insert_link o = record {
  grows = λ w. record { users = KeepsUsers-refl w.users; tokens = KeepsTokens-refl w.tokens };
}

pub IsGrowing-insert_token : (r : TokenRow) → IsGrowing (insert_token r)
unfolding insert_token
IsGrowing-insert_token r = record {
  grows = λ w. record { users = KeepsUsers-refl w.users; tokens = KeepsTokens-append w.tokens _ };
}

pub IsGrowing-users :
    (f : List User → List User)
    → ((us : List User) → KeepsUsers us (f us))
    → IsGrowing (write_users f)
unfolding write_users
IsGrowing-users f h = record {
  grows = λ w. record { users = h w.users; tokens = KeepsTokens-refl w.tokens };
}

module _ (env : Env) where
  pub IsGrowing-call : {X : Type 0} {m : A X} → IsGrowing m → IsGrowing (call env m)
  unfolding call
  IsGrowing-call {X} {m} hm = record { grows = λ w. elim_call w (env.fault w.calls) }
    where
      elim_call :
          (w : Accounts) (b : Bool) → Grows w (if b then (err db_error, tick w) else m (tick w)).1
      elim_call w true = tick-Grows w
      elim_call w false = Grows-trans (tick-Grows w) (hm.grows (tick w))

  pub IsGrowing-scan : (p : User → Bool) → IsGrowing (scan_one env p)
  unfolding scan_one
  IsGrowing-scan p =
      IsGrowing-call
        (IsGrowing-at (λ w. found_or not_found (first p w.users)) λ v. IsGrowing-found not_found _)

  pub IsGrowing-by_id : (id : ℕ) → IsGrowing (get_by_id env id)
  unfolding get_by_id
  IsGrowing-by_id id = IsGrowing-scan _

  pub IsGrowing-by_email : (email : Bytes) → IsGrowing (get_by_email env email)
  unfolding get_by_email
  IsGrowing-by_email email = IsGrowing-scan _

  pub IsGrowing-by_username : (name : Bytes) → IsGrowing (get_by_username env name)
  unfolding get_by_username
  IsGrowing-by_username name = IsGrowing-scan _

  pub IsGrowing-by_oauth : (provider id : Bytes) → IsGrowing (get_by_oauth env provider id)
  unfolding get_by_oauth
  IsGrowing-by_oauth provider id =
      IsGrowing-call
        (IsGrowing-at (λ w. found_or not_found (first _ w.users)) λ v. IsGrowing-found not_found _)

  pub IsGrowing-create : (u : User) → IsGrowing (create env u)
  unfolding create
  IsGrowing-create u = record {
    grows = λ w.
        (IsGrowing-call (
            IsGrowing-if (some_of (has_id (env.new_uuid w.calls)) w.users) (IsGrowing-fail db_error)
              (IsGrowing-if (email_taken u.email w.users) (IsGrowing-fail duplicate_email) (
                IsGrowing-if (name_taken u.username w.users) (IsGrowing-fail duplicate_username)
                  (IsGrowing-insert _))))).grows
          w;
  }

  pub IsGrowing-link :
      (user : ℕ) (provider id : Bytes) → IsGrowing (link_oauth env user provider id)
  unfolding link_oauth
  IsGrowing-link user provider id = record {
    grows = λ w.
        (IsGrowing-call (IsGrowing-if _ (IsGrowing-pure tt) (IsGrowing-insert_link _))).grows w;
  }

  pub IsGrowing-token :
      (type : TokenType) (user : ℕ) (token : Bytes) (expires : ℕ)
      → IsGrowing (create_token env type user token expires)
  unfolding create_token
  IsGrowing-token type user token expires = record {
    grows = λ w.
        (IsGrowing-call (IsGrowing-if _ (IsGrowing-fail db_error) (IsGrowing-insert_token _))).grows
          w;
  }

  pub IsGrowing-update :
      (id : ℕ) (f : ℕ → User → User)
      → ((n : ℕ) (u : User) → (f n u).id ≡ u.id)
      → ((n : ℕ) (u : User) → IsKept u (f n u))
      → IsGrowing (update_user env id f)
  unfolding update_user
  IsGrowing-update id f hid hf = record {
    grows = λ w.
        (IsGrowing-call (
            IsGrowing-users _
              (λ us. KeepsUsers-change (has_id id) (f (env.now w.calls)) (hid _) (hf _) us))).grows
          w;
  }

  pub IsGrowing-commit :
      (token : Bytes) (now : ℕ) (f : List User → List User)
      → ((us : List User) → KeepsUsers us (f us))
      → IsGrowing (commit env token now f)
  unfolding commit mark_used
  IsGrowing-commit token now f h = IsGrowing-call (record {
    grows = λ w. record {
      users = h w.users;
      tokens = KeepsTokens-change (λ r. text_eq r.token token) now w.tokens;
    };
  })

  pub IsGrowing-check : (r : TokenRow) (now : ℕ) → IsGrowing (check_token env r now)
  unfolding check_token
  IsGrowing-check r now =
      IsGrowing-if _ (IsGrowing-fail token_used)
        (IsGrowing-if _ (IsGrowing-fail token_expired) (IsGrowing-pure tt))

  pub IsGrowing-open : (type : TokenType) (token : Bytes) → IsGrowing (open_token env type token)
  unfolding open_token
  IsGrowing-open type token = IsGrowing-bind (IsGrowing-call (IsGrowing-pure tt)) λ _.
      IsGrowing-bind
        (IsGrowing-call (
          IsGrowing-at (λ w. found_or not_found (first (is_token token type) w.tokens))
            λ v. IsGrowing-found not_found _))
        λ row.
          IsGrowing-bind
            (IsGrowing-at (λ w. check_token env row (env.now w.calls)) λ v. IsGrowing-check row _)
            λ _. IsGrowing-pure row

  pub IsGrowing-verification : (token : Bytes) → IsGrowing (use_verification_token env token)
  unfolding use_verification_token
  IsGrowing-verification token = IsGrowing-bind (IsGrowing-open email_verification token) λ row.
      IsGrowing-bind
        (IsGrowing-at _ λ v.
          IsGrowing-bind
            (IsGrowing-bind (IsGrowing-call (IsGrowing-pure tt))
              λ _. IsGrowing-call (IsGrowing-pure tt))
            λ _. IsGrowing-commit token _ _ (
              KeepsUsers-change _ _ (λ u. refl)
                (λ u. record { email = refl; username = refl; verified = λ h. refl })))
        λ _. IsGrowing-by_id row.user_id

  pub IsGrowing-reset : (token : Bytes) → IsGrowing (use_password_reset_token env token)
  unfolding use_password_reset_token
  IsGrowing-reset token = IsGrowing-bind (IsGrowing-open password_reset token) λ row.
      IsGrowing-bind
        (IsGrowing-at _ λ v.
          IsGrowing-bind (IsGrowing-call (IsGrowing-pure tt))
            λ _. IsGrowing-commit token _ _ KeepsUsers-refl)
        λ _. IsGrowing-by_id row.user_id
