-- ===== src/Users/Tests.antt =====
-- The accounts of internal/users, run at concrete calls, and their theorems there.
use nexus_agent_protocol.Prelude.{
  ◌+◌, ◌≡◌, ◌≢◌, refl, true, false, none, some, List, [], ◌∷◌, ◌++◌, codes, text_eq, first, ok,
}
use nexus_agent_protocol.World.{Env}
use nexus_agent_protocol.Users.{
  User, TokenRow, password_reset, Accounts, change, mark_used, call, scan_one, write_users,
  update_user, check_token, open_token, commit, get_by_id, use_password_reset_token,
  set_password_hash,
}
use nexus_agent_protocol.Users.Names.{
  base_name, candidates, named, is_free, slugify_email, generate_unique_username,
  generate_unique_username_lem,
}
use nexus_agent_protocol.Users.Service.{UserService, hashed, reset_password}
use nexus_agent_protocol.Users.Operations.{Op, forgetting, resetting, signing_up, joining, run}
use nexus_agent_protocol.Users.Grows.{Grows}
use nexus_agent_protocol.Users.Histories.{accounts_grow}
use nexus_agent_protocol.Users.Tokens.{reset_once}

abbrev clock : Env
clock = record {
  fault = λ n. false;
  now = λ n. n;
  new_uuid = λ n. n + 100;
  has_user = λ n user. true;
  order = λ n i. 0;
}

-- a hash is the password behind a mark
abbrev toy_users : UserService
toy_users = record {
  env = clock;
  generate_hash = λ n password. some (codes "#" ++ password);
  compare_hash = λ hash password. text_eq hash (codes "#" ++ password);
  secure_token = λ n. some (n ∷ []);
  send = λ n. true;
  frontend_url = codes "https://nap";
}

abbrev ann : User
ann = record {
  id = 1;
  email = codes "Ann.B@x.org";
  password_hash = codes "#secret12";
  display_name = codes "Ann";
  username = codes "annb";
  email_verified = true;
  created_at = 0;
  updated_at = 0;
  bio = [];
  avatar_url = [];
  website_url = [];
  public_profile = true;
}

abbrev tok : TokenRow
tok = record {
  user_id = 1;
  token = codes "t1";
  token_type = password_reset;
  expires_at = 50;
  used_at = none;
}

abbrev accounts : Accounts
accounts = record { users = ann ∷ []; oauth = []; tokens = tok ∷ []; mails = []; calls = 0 }

slug : slugify_email (codes "-Ann.B@x.org") ≡ codes "annb"
unfolding slugify_email
slug = refl

generate_unique_username_lem_example :
    (generate_unique_username clock (codes "Ann.B@x.org") accounts).0
    ≡ named (first (is_free accounts.users) (candidates (base_name (codes "Ann.B@x.org"))))
generate_unique_username_lem_example =
    generate_unique_username_lem clock (λ n. refl) (codes "Ann.B@x.org") accounts

abbrev ops : List Op
ops =
    forgetting (codes "Ann.B@x.org")
    ∷ signing_up (codes "bob@x.org") (codes "password") []
    ∷ joining (codes "github") (codes "7") (codes "Ann.B@x.org") (codes "Ann")
    ∷ resetting (codes "t1") (codes "anotherone")
    ∷ []

accounts_grow_example : Grows accounts (run toy_users ops accounts)
accounts_grow_example = accounts_grow toy_users ops accounts

reset_works : (reset_password toy_users (codes "t1") (codes "newsecret") accounts).0 ≡ ok tt
unfolding reset_password use_password_reset_token open_token call check_token commit mark_used
    get_by_id scan_one hashed set_password_hash update_user write_users change text_eq
reset_works = refl

reset_once_example :
    (reset_password toy_users
      (codes "t1")
      (codes "password")
      (run toy_users ops (reset_password toy_users (codes "t1") (codes "newsecret") accounts).1)).0
    ≢ ok tt
reset_once_example =
    reset_once toy_users (codes "t1") (codes "newsecret") accounts ops (codes "password")
      reset_works
