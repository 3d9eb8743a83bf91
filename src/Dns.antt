-- ===== src/Dns.antt =====
-- internal/dns/dns.go, internal/registry/repository/dns_challenge.go and
-- internal/registry/service/dns_challenge.go: DNS-01 challenges. What the DNS answers at the time of a
-- call is a field of the service.
pub mod Sound
pub mod Verified
mod Tests
use nexus_agent_protocol.Prelude.{
  ℕ, suc, ◌+◌, Bool, true, false, ◌&&◌, not, Option, none, some, List, [], ◌∷◌, ◌++◌, Bytes, codes,
  if◌then◌else◌, ◌==◌, ltb, leb, is_empty, text_eq, some_of, first, keep, length, Result, ok, err,
}
use nexus_agent_protocol.Action.{Action, pure, fail, continue, ◌>>=◌, ◌>>◌, tried}
use nexus_agent_protocol.World.{Env}
use nexus_agent_protocol.Repository.Order.{sort, shuffle}

-- model.DNSChallenge, as it is stored
pub record Challenge : Type 0 where
  pub id : ℕ
  pub domain : Bytes
  pub token : Bytes
  pub txt_record : Bytes
  pub verified : Bool
  pub created_at : ℕ
  pub expires_at : ℕ

pub data DnsError : Type 0 where
  domain_empty token_failed db_error not_found expired verification_failed : DnsError

-- The table and the number of calls.
pub record Challenges : Type 0 where
  pub rows : List Challenge
  pub calls : ℕ

-- DNSChallengeService; times are in seconds. `none` is an error.
pub record DnsService : Type 0 where
  pub env : Env
  pub generate_token : ℕ → Option Bytes
  pub lookup_txt : ℕ → Bytes → Option (List Bytes)

abbrev pub D : Type 0 → Type 0
D X = Action Challenges DnsError X

abbrev pub tick : Challenges → Challenges
tick w = record w { calls = suc w.calls }

abbrev pub found_or : {X : Type 0} → DnsError → Option X → D X
found_or e none = fail e
found_or e (some x) = pure x

-- strings.TrimSuffix of one dot
unfoldable pub trim_dot : Bytes → Bytes
trim_dot [] = []
trim_dot (c ∷ []) = if c == b'.' then [] else c ∷ []
trim_dot (c ∷ d ∷ s) = c ∷ trim_dot (d ∷ s)

-- TXTHost
unfoldable pub txt_host : Bytes → Bytes
txt_host domain = codes "_nexus-agent-challenge." ++ trim_dot domain

abbrev pub has_id : ℕ → Challenge → Bool
has_id id c = c.id == id

-- the TXT record of a token
unfoldable pub record_of : Bytes → Bytes
record_of token = codes "nexus-agent-challenge=" ++ token

-- the loop of `Verify` over the records that the DNS holds
unfoldable pub publishes : Challenge → Option (List Bytes) → Bool
publishes c none = false
publishes c (some txts) = some_of (λ t. text_eq t c.txt_record) txts

-- `DELETE ... WHERE expires_at < now() AND verified = false`
abbrev pub is_stale : ℕ → Challenge → Bool
is_stale now c = ltb c.expires_at now && not c.verified

-- the UPDATE of the row of an id, which is the primary key
unfoldable pub mark : ℕ → List Challenge → List Challenge
mark id [] = []
mark id (c ∷ l) = if c.id == id then record c { verified = true } ∷ l else c ∷ mark id l

unfoldable pub add_row : Challenge → D Challenge
add_row c w = (ok c, record w { rows = w.rows ++ c ∷ [] })

module _ (s : DnsService) where
  -- one call of the database
  unfoldable pub call : {X : Type 0} → D X → D X
  call m w = if s.env.fault w.calls then (err db_error, tick w) else m (tick w)

  -- Create of the repository
  unfoldable pub insert : Challenge → D Challenge
  insert c w = call (if some_of (has_id c.id) w.rows then fail db_error else add_row c) w

  -- GetByID of the repository
  unfoldable pub get_by_id : ℕ → D Challenge
  get_by_id id = call (λ w. found_or not_found (first (has_id id) w.rows) w)

  -- MarkVerified of the repository
  unfoldable pub mark_verified : ℕ → D (Unit {0})
  mark_verified id = call (λ w.
      if some_of (has_id id) w.rows
      then (ok tt, record w { rows = mark id w.rows })
      else (err not_found, w))

  -- FindVerifiedByDomain of the repository, newest first
  unfoldable pub find_verified_by_domain : Bytes → D Challenge
  find_verified_by_domain domain = call (λ w.
      found_or not_found
        (first (λ c. true)
          (sort (λ a b. leb b.created_at a.created_at)
            (shuffle (s.env.order w.calls)
              (keep (λ c. text_eq c.domain domain && c.verified) w.rows))))
        w)

  -- NewChallenge and what `StartChallenge` makes of it
  unfoldable pub new_challenge : Bytes → D Challenge
  new_challenge domain w =
      found_or token_failed
        (elim (s.generate_token w.calls) [
          | none ↦ none
          | some token ↦ some (record {
            id = s.env.new_uuid w.calls;
            domain = domain;
            token = token;
            txt_record = record_of token;
            verified = false;
            created_at = s.env.now w.calls;
            expires_at = s.env.now w.calls + 900;
          })
        ])
        w

  -- StartChallenge
  unfoldable pub start_challenge : Bytes → D Challenge
  start_challenge domain =
      if is_empty domain then fail domain_empty else (do c ← new_challenge domain; insert c)

  -- GetChallenge
  unfoldable pub get_challenge : ℕ → D Challenge
  get_challenge id = get_by_id id

  -- Verify of a challenge; each of its errors is an `ErrVerificationFailed` of the service
  unfoldable pub verify : Challenge → D (Unit {0})
  verify c w =
      (if ltb c.expires_at (s.env.now w.calls)
          then fail verification_failed
          else if publishes c (s.lookup_txt w.calls (txt_host c.domain))
          then pure tt
          else fail verification_failed)
        w

  -- `if time.Now().After(ch.ExpiresAt)`
  unfoldable pub check_expiry : Challenge → D (Unit {0})
  check_expiry c w = (if ltb c.expires_at (s.env.now w.calls) then fail expired else pure tt) w

  -- VerifyChallenge
  unfoldable pub verify_challenge : ℕ → D Challenge
  verify_challenge id = do
    c ← get_by_id id
    if c.verified
        then pure c
        else (do check_expiry c; verify c; mark_verified id; pure (record c { verified = true }))

  -- the result without `ErrChallengeNotFound`
  abbrev is_found : Result DnsError Challenge → D Bool
  is_found (ok c) = pure true
  is_found (err not_found) = pure false
  is_found (err e) = fail e

  -- IsDomainVerified
  unfoldable pub is_domain_verified : Bytes → D Bool
  is_domain_verified domain = tried (find_verified_by_domain domain) >>= is_found

  -- DeleteExpired
  unfoldable pub delete_expired : D ℕ
  delete_expired = call (λ w.
      let now = s.env.now w.calls in
      (
        ok (length (keep (is_stale now) w.rows)),
        record w { rows = keep (λ c. not (is_stale now c)) w.rows },
      ))

-- the calls of the service that may write, and a sequence of them
pub data DnsOp : Type 0 where
  starting : Bytes → DnsOp
  verifying : ℕ → DnsOp
  pruning : DnsOp

unfoldable pub perform : DnsService → DnsOp → Challenges → Challenges
perform s (starting domain) w = (start_challenge s domain w).1
perform s (verifying id) w = (verify_challenge s id w).1
perform s pruning w = (delete_expired s w).1

unfoldable pub run : DnsService → List DnsOp → Challenges → Challenges
run s [] w = w
run s (o ∷ ops) w = run s ops (perform s o w)
