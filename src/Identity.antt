-- ===== src/Identity.antt =====
-- internal/identity/mtls.go and usertoken.go: the claims of the two kinds of token, the middlewares
-- that check them, and the answer of a request. What a JWT holds is found by a parameter that stands
-- for `jwt.ParseWithClaims`, which checks the signature, the issuer and the expiry.
use nexus_agent_protocol.Prelude.{
  Bool, false, ◌&&◌, not, Option, none, some, List, Bytes, codes, if◌then◌else◌, some_of, drop,
  text_eq, has_prefix, Result, ok, err,
}

-- TaskTokenClaims
pub record TaskTokenClaims : Type 0 where
  pub agent_uri : Bytes
  pub scopes : List Bytes

-- UserTokenClaims
pub record UserTokenClaims : Type 0 where
  pub user_id : Bytes
  pub email : Bytes
  pub username : Bytes
  pub token_type : Bytes
  pub role : Bytes

-- the two keys of the context of a request
pub record Context : Type 0 where
  pub agent_claims : Option TaskTokenClaims
  pub user_claims : Option UserTokenClaims

abbrev pub anonymous : Context
anonymous = record { agent_claims = none; user_claims = none }

-- the status codes that a middleware aborts with
pub data Refusal : Type 0 where
  unauthorized forbidden : Refusal

-- The parsers of the tokens; the arguments of the middlewares are the issuers that are not nil.
pub record Tokens : Type 0 where
  pub parse_task : Bytes → Option TaskTokenClaims
  pub parse_user : Bytes → Option UserTokenClaims

-- strings.HasPrefix and strings.TrimPrefix
unfoldable pub bearer : Bytes → Option Bytes
unfolding has_prefix
bearer header = if has_prefix header (codes "Bearer ") then some (drop 7 header) else none

-- (*UserTokenIssuer).Verify, of claims that were parsed
unfoldable pub session_claims : UserTokenClaims → Option UserTokenClaims
unfolding text_eq
session_claims claims =
    if not (text_eq claims.token_type (codes "user"))
      && not (text_eq claims.token_type (codes "admin"))
    then none
    else some claims

unfoldable pub verify_user : Tokens → Bytes → Option UserTokenClaims
unfolding session_claims
verify_user t token = elim (t.parse_user token) [
  | none ↦ none
  | some claims ↦ session_claims claims
]

unfoldable pub verify_bearer : {A : Type 0} → (Bytes → Option A) → Bytes → Option A
unfolding bearer
verify_bearer verify header = elim (bearer header) [ none ↦ none | some token ↦ verify token ]

-- RequireToken
unfoldable pub require_token : Tokens → Bytes → Context → Result Refusal Context
unfolding verify_bearer
require_token t header c = elim (verify_bearer t.parse_task header) [
  | none ↦ err unauthorized
  | some claims ↦ ok (record c { agent_claims = some claims })
]

-- OptionalToken
unfoldable pub optional_token : Tokens → Bytes → Context → Context
unfolding verify_bearer
optional_token t header c = elim (verify_bearer t.parse_task header) [
  | none ↦ c
  | some claims ↦ record c { agent_claims = some claims }
]

-- RequireUserToken
unfoldable pub require_user_token : Tokens → Bytes → Context → Result Refusal Context
unfolding verify_bearer verify_user
require_user_token t header c = elim (verify_bearer (verify_user t) header) [
  | none ↦ err unauthorized
  | some claims ↦ ok (record c { user_claims = some claims })
]

-- `optionalUserToken` of internal/registry/handler/agent.go
unfoldable pub optional_user_token : Tokens → Bytes → Context → Context
unfolding verify_bearer verify_user
optional_user_token t header c = elim (verify_bearer (verify_user t) header) [
  | none ↦ c
  | some claims ↦ record c { user_claims = some claims }
]

-- RequireAdmin
unfoldable pub require_admin : Tokens → Bytes → Context → Result Refusal Context
unfolding verify_bearer verify_user
require_admin t header c = elim (verify_bearer (verify_user t) header) [
  | none ↦ err unauthorized
  | some claims ↦
      if not (text_eq claims.role (codes "admin"))
      then err forbidden
      else ok (record c { user_claims = some claims })
]

-- HasScope
unfoldable pub has_scope : Option TaskTokenClaims → Bytes → Bool
unfolding text_eq
has_scope none scope = false
has_scope (some claims) scope = some_of (λ s. text_eq s scope) claims.scopes
