-- ===== src/Federation.antt =====
-- internal/federation/model.go, repository.go and service.go: the registry of registries.
pub mod Resolver
pub mod Members
pub mod Discovery
mod Tests
use nexus_agent_protocol.Prelude.{
  ℕ, suc, ◌+◌, Bool, true, false, ◌&&◌, ◌||◌, not, Option, none, some, List, [], ◌∷◌, ◌++◌, Bytes,
  codes, if◌then◌else◌, ◌==◌, ltb, leb, is_empty, text_eq, some_of, first, keep, Result, ok, err,
}
use nexus_agent_protocol.Action.{Action, pure, fail, continue, ◌>>=◌, ◌>>◌, tried}
use nexus_agent_protocol.World.{Env}
use nexus_agent_protocol.Repository.Order.{sort, page, shuffle}

pub data RegistryStatus : Type 0 where
  pending active suspended : RegistryStatus

abbrev pub is_active : RegistryStatus → Bool
is_active active = true
is_active _ = false

abbrev pub same_status : RegistryStatus → RegistryStatus → Bool
same_status pending pending = true
same_status active active = true
same_status suspended suspended = true
same_status _ _ = false

pub record RegisteredRegistry : Type 0 where
  pub id : ℕ
  pub trust_root : Bytes
  pub endpoint_url : Bytes
  pub intermediate_ca : Bytes
  pub max_path_len : ℕ
  pub status : RegistryStatus
  pub registered_at : ℕ
  pub updated_at : ℕ

pub data FedError : Type 0 where
  trust_root_required endpoint_required db_error not_found : FedError
  no_issuer not_active issue_failed : FedError
  path_len_negative path_len_too_big : FedError

-- The table `registered_registries` and the number of calls.
pub record Registries : Type 0 where
  pub rows : List RegisteredRegistry
  pub calls : ℕ

-- the certificate that `IssueIntermediateCert` returns
pub record IssuedCa : Type 0 where
  pub cert_pem : Bytes
  pub key_pem : Bytes
  pub serial : Bytes
  pub not_after : ℕ

-- the issuer: the trust root, the time that the certificate holds in seconds, and its path length
pub record CaIssuer : Type 0 where
  pub issue : Bytes → ℕ → ℕ → Option IssuedCa
  pub ca_pem : Bytes

-- FederationService; `none` is the nil of the issuer
pub record FederationService : Type 0 where
  pub env : Env
  pub issuer : Option CaIssuer

-- IssueCAResponse
pub record IssueCaResponse : Type 0 where
  pub trust_root : Bytes
  pub issued : IssuedCa
  pub root_ca_pem : Bytes
  pub max_path_len : ℕ

abbrev pub response_of : CaIssuer → Bytes → RegisteredRegistry → IssuedCa → IssueCaResponse
response_of issuer trust_root r issued = record {
  trust_root = trust_root;
  issued = issued;
  root_ca_pem = issuer.ca_pem;
  max_path_len = r.max_path_len;
}

-- MaxAllowedPathLen
abbrev pub max_allowed_path_len : ℕ
max_allowed_path_len = 2

-- `5*365*24*time.Hour` in seconds
abbrev pub five_years : ℕ
five_years = 157680000

abbrev pub F : Type 0 → Type 0
F X = Action Registries FedError X

abbrev pub tick : Registries → Registries
tick w = record w { calls = suc w.calls }

abbrev pub found_or : {X : Type 0} → FedError → Option X → F X
found_or e none = fail e
found_or e (some x) = pure x

abbrev pub has_id : ℕ → RegisteredRegistry → Bool
has_id id r = r.id == id

abbrev pub has_root : Bytes → RegisteredRegistry → Bool
has_root root r = text_eq r.trust_root root

-- an UPDATE of the row of an id
unfoldable pub change :
    ℕ
    → (RegisteredRegistry → RegisteredRegistry)
    → List RegisteredRegistry
    → List RegisteredRegistry
change id f [] = []
change id f (r ∷ l) = (if r.id == id then f r else r) ∷ change id f l

unfoldable pub add_row : RegisteredRegistry → F RegisteredRegistry
add_row r w = (ok r, record w { rows = w.rows ++ r ∷ [] })

unfoldable pub write_row : ℕ → (RegisteredRegistry → RegisteredRegistry) → F (Unit {0})
write_row id f w = (ok tt, record w { rows = change id f w.rows })

module _ (s : FederationService) where
  -- one call of the database
  unfoldable pub call : {X : Type 0} → F X → F X
  call m w = if s.env.fault w.calls then (err db_error, tick w) else m (tick w)

  -- Create: the trust root is unique
  unfoldable pub create : Bytes → Bytes → F RegisteredRegistry
  create trust_root endpoint_url w =
      call
        (if some_of (has_root trust_root) w.rows || some_of (has_id (s.env.new_uuid w.calls)) w.rows
          then fail db_error
          else add_row (record {
            id = s.env.new_uuid w.calls;
            trust_root = trust_root;
            endpoint_url = endpoint_url;
            intermediate_ca = [];
            max_path_len = 0;
            status = pending;
            registered_at = s.env.now w.calls;
            updated_at = s.env.now w.calls;
          }))
        w

  -- GetByTrustRoot
  unfoldable pub get_by_trust_root : Bytes → F RegisteredRegistry
  get_by_trust_root root = call (λ w. found_or not_found (first (has_root root) w.rows) w)

  -- GetByID
  unfoldable pub get_by_id : ℕ → F RegisteredRegistry
  get_by_id id = call (λ w. found_or not_found (first (has_id id) w.rows) w)

  -- List; `none` is the empty status, and a limit that is not positive is 0
  unfoldable pub list : Option RegistryStatus → ℕ → ℕ → F (List RegisteredRegistry)
  list status limit offset = call (λ w. (
    ok (
        page limit offset (
          sort (λ a b. leb b.registered_at a.registered_at)
            (shuffle (s.env.order w.calls)
              (keep (λ r. elim status [ none ↦ true | some t ↦ same_status r.status t ]) w.rows)))),
    w,
  ))

  -- UpdateStatus, SetIntermediateCA and UpdateMaxPathLen: an UPDATE by the id
  unfoldable pub update_row : ℕ → (ℕ → RegisteredRegistry → RegisteredRegistry) → F (Unit {0})
  update_row id f w =
      call
        (if some_of (has_id id) w.rows
          then write_row id (f (s.env.now w.calls))
          else fail not_found)
        w

  unfoldable pub update_status : ℕ → RegistryStatus → F (Unit {0})
  update_status id status = update_row id (λ now r. record r { status = status; updated_at = now })

  unfoldable pub set_intermediate_ca : ℕ → Bytes → F (Unit {0})
  set_intermediate_ca id pem =
      update_row id (λ now r. record r { intermediate_ca = pem; updated_at = now })

  -- UpdateMaxPathLen of the repository
  unfoldable pub write_max_path_len : ℕ → ℕ → F (Unit {0})
  write_max_path_len id n = update_row id (λ now r. record r { max_path_len = n; updated_at = now })

  -- Register
  unfoldable pub register : Bytes → Bytes → F RegisteredRegistry
  register trust_root endpoint_url =
      if is_empty trust_root
      then fail trust_root_required
      else if is_empty endpoint_url
      then fail endpoint_required
      else create trust_root endpoint_url

  -- Approve
  unfoldable pub approve : ℕ → F RegisteredRegistry
  approve id = update_status id active >> get_by_id id

  -- Suspend
  unfoldable pub suspend : ℕ → F RegisteredRegistry
  suspend id = update_status id suspended >> get_by_id id

  -- the certificate of an active registry; a failure to store it is logged only
  unfoldable pub issue_for : CaIssuer → Bytes → RegisteredRegistry → F IssueCaResponse
  issue_for issuer trust_root r = do
    issued ← found_or issue_failed (issuer.issue trust_root five_years r.max_path_len)
    tried (set_intermediate_ca r.id issued.cert_pem)
    pure (response_of issuer trust_root r issued)

  unfoldable pub issue_with : Option CaIssuer → Bytes → F IssueCaResponse
  issue_with none trust_root = fail no_issuer
  issue_with (some issuer) trust_root = do
    r ← get_by_trust_root trust_root
    if is_active r.status then issue_for issuer trust_root r else fail not_active

  -- IssueIntermediateCA
  unfoldable pub issue_intermediate_ca : Bytes → F IssueCaResponse
  issue_intermediate_ca trust_root = issue_with s.issuer trust_root

  -- UpdateMaxPathLen: is the number negative, and its size
  unfoldable pub update_max_path_len : ℕ → Bool → ℕ → F (Unit {0})
  update_max_path_len id negative n =
      if negative
      then fail path_len_negative
      else if ltb max_allowed_path_len n
      then fail path_len_too_big
      else write_max_path_len id n

-- the calls of the service that may write, and a sequence of them
pub data FedOp : Type 0 where
  registering : Bytes → Bytes → FedOp
  approving suspending : ℕ → FedOp
  issuing : Bytes → FedOp
  delegating : ℕ → Bool → ℕ → FedOp

unfoldable pub perform : FederationService → FedOp → Registries → Registries
perform s (registering root url) w = (register s root url w).1
perform s (approving id) w = (approve s id w).1
perform s (suspending id) w = (suspend s id w).1
perform s (issuing root) w = (issue_intermediate_ca s root w).1
perform s (delegating id negative n) w = (update_max_path_len s id negative n w).1

unfoldable pub run : FederationService → List FedOp → Registries → Registries
run s [] w = w
run s (o ∷ ops) w = run s ops (perform s o w)
