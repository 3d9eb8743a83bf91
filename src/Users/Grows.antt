-- ===== src/Users/Grows.antt =====
-- What a call may do to the accounts: users are kept under their id, address and name, a verified
-- address stays verified, and a used token stays used.
use nexus_agent_protocol.Prelude.{
  ℕ, ◌≡◌, refl, ◌∙◌, ap, Bool, true, false, Bool-cases, inl, inr, some, List, [], ◌∷◌, ◌++◌, Bytes,
  arith, if◌then◌else◌, is_some, first, ◌==◌,
}
use nexus_agent_protocol.Users.{User, TokenType, TokenRow, Accounts, has_id, is_token, change}

pub record IsKept (u v : User) : Type 0 where
  pub email : v.email ≡ u.email
  pub username : v.username ≡ u.username
  pub verified : u.email_verified ≡ true → v.email_verified ≡ true

abbrev pub KeepsUsers : List User → List User → Type 0
KeepsUsers us vs =
    (id : ℕ) (u : User)
    → first (has_id id) us ≡ some u
    → (v : User) × (first (has_id id) vs ≡ some v) × IsKept u v

abbrev pub KeepsTokens : List TokenRow → List TokenRow → Type 0
KeepsTokens rs ss =
    (token : Bytes) (type : TokenType) (r : TokenRow)
    → first (is_token token type) rs ≡ some r
    → (s : TokenRow) × (first (is_token token type) ss ≡ some s)
      × (is_some r.used_at ≡ true → is_some s.used_at ≡ true)

pub record Grows (w v : Accounts) : Type 0 where
  pub users : KeepsUsers w.users v.users
  pub tokens : KeepsTokens w.tokens v.tokens

pub IsKept-refl : (u : User) → IsKept u u
IsKept-refl u = record { email = refl; username = refl; verified = λ h. h }

IsKept-trans : {u v x : User} → IsKept u v → IsKept v x → IsKept u x
IsKept-trans h k = record {
  email = k.email ∙ h.email;
  username = k.username ∙ h.username;
  verified = λ t. k.verified (h.verified t);
}

pub KeepsUsers-refl : (us : List User) → KeepsUsers us us
KeepsUsers-refl us id u q = (u, q, IsKept-refl u)

pub KeepsTokens-refl : (rs : List TokenRow) → KeepsTokens rs rs
KeepsTokens-refl rs token type r q = (r, q, λ h. h)

pub Grows-refl : (w : Accounts) → Grows w w
Grows-refl w = record { users = KeepsUsers-refl w.users; tokens = KeepsTokens-refl w.tokens }

pub Grows-trans : {w v x : Accounts} → Grows w v → Grows v x → Grows w x
Grows-trans h k = record {
  users = λ id u q.
      let (v, qv, hv) = h.users id u q in
      let (x, qx, kx) = k.users id v qv in (x, qx, IsKept-trans hv kx);
  tokens = λ token type r q.
      let (s, qs, hs) = h.tokens token type r q in
      let (t, qt, kt) = k.tokens token type s qs in (t, qt, λ used. kt (hs used));
}

module _ {X : Type 0} (p : X → Bool) where
  first-append : (l m : List X) (x : X) → first p l ≡ some x → first p (l ++ m) ≡ some x
  first-append [] m x q = absurd (ground (arith, q))
  first-append (y ∷ l) m x q = elim (Bool-cases (p y)) [
    | inl t ↦ ground (arith, q, t)
    | inr n ↦ rw n (first-append l m x (ground (arith, q, n)))
  ]

  pub first-change :
      (q : X → Bool) (f : X → X)
      → ((x : X) → p (f x) ≡ p x)
      → (l : List X) (x : X) → first p l ≡ some x
      → first p (change q f l) ≡ some (if q x then f x else x)
  unfolding change
  first-change q f h [] x e = absurd (ground (arith, e))
  first-change q f h (y ∷ l) x e = elim (Bool-cases (p y)) [
    | inl t ↦ ground (arith, e, t, h y)
    | inr n ↦ ground (arith, n, h y, first-change q f h l x (ground (arith, e, n)))
  ]

pub KeepsUsers-append : (us vs : List User) → KeepsUsers us (us ++ vs)
KeepsUsers-append us vs id u q = (u, first-append (has_id id) us vs u q, IsKept-refl u)

pub KeepsTokens-append : (rs ss : List TokenRow) → KeepsTokens rs (rs ++ ss)
KeepsTokens-append rs ss token type r q = (r, first-append (is_token token type) rs ss r q, λ h. h)

-- an UPDATE that leaves the keys and a verified address
pub KeepsUsers-change :
    (p : User → Bool) (f : User → User)
    → ((u : User) → (f u).id ≡ u.id)
    → ((u : User) → IsKept u (f u))
    → (us : List User) → KeepsUsers us (change p f us)
KeepsUsers-change p f hid hf us id u q = (
  if p u then f u else u,
  first-change (has_id id) p f (λ x. ap (λ n. n == id) (hid x)) us u q,
  kept_if (p u) u,
)
  where
    kept_if : (b : Bool) (u : User) → IsKept u (if b then f u else u)
    kept_if true u = hf u
    kept_if false u = IsKept-refl u

pub KeepsTokens-change :
    (p : TokenRow → Bool) (now : ℕ) (rs : List TokenRow)
    → KeepsTokens rs (change p (λ r. record r { used_at = some now }) rs)
KeepsTokens-change p now rs token type r q = (
  if p r then record r { used_at = some now } else r,
  first-change (is_token token type) p (λ x. record x { used_at = some now }) (λ x. refl) rs r q,
  used_if (p r) r,
)
  where
    used_if :
        (b : Bool) (r : TokenRow)
        → is_some r.used_at ≡ true
        → is_some (if b then record r { used_at = some now } else r).used_at ≡ true
    used_if true r h = refl
    used_if false r h = h
