-- ===== src/Ledger/Chain.antt =====
-- What `Verify` checks, and that `Append` keeps it.
use nexus_agent_protocol.Prelude.{
  ℕ, zero, suc, ◌+◌, ◌≡◌, ◌≢◌, ◌↔◌, refl, some, List, [], ◌∷◌, ◌++◌, arith, Bytes, text_eq_iff,
  text_eq_sound, length, length-append, get_elem?, last, ok,
}
use nexus_agent_protocol.Ledger.{
  Hashing, Entry, genesis_hash, hash_entry, hash_input, hash_prefix, make_entry, append,
  verify_rest, verify, get, entry_count, root,
}

-- A hash chain, read by positions: the first entry has the well-known hash, and each other entry
-- names the hash of the entry before it and has the hash of its own fields.
pub record IsChain (h : Hashing) (l : List Entry) : Type 0 where
  pub genesis : (g : Entry) → get_elem? l 0 ≡ some g → g.hash ≡ genesis_hash
  pub links :
      (i : ℕ) (p e : Entry)
      → get_elem? l i ≡ some p
      → get_elem? l (suc i) ≡ some e
      → (e.prev_hash ≡ p.hash) × (e.hash ≡ hash_entry h e)

module _ (h : Hashing) where
  abbrev pub Linked : Entry → List Entry → Type 0
  Linked prev [] = Unit
  Linked prev (e ∷ es) = (e.prev_hash ≡ prev.hash) × (e.hash ≡ hash_entry h e) × Linked e es

  pub verify_rest-Linked :
      (prev : Entry) (es : List Entry) → verify_rest h prev es ≡ ok tt → Linked prev es
  unfolding verify_rest
  verify_rest-Linked prev [] k = tt
  verify_rest-Linked prev (e ∷ es) k = ground (
    arith,
    text_eq_sound e.prev_hash prev.hash,
    text_eq_sound e.hash (hash_entry h e),
    verify_rest-Linked e es,
  )

  Linked-verify_rest :
      (prev : Entry) (es : List Entry) → Linked prev es → verify_rest h prev es ≡ ok tt
  unfolding verify_rest
  Linked-verify_rest prev [] k = refl
  Linked-verify_rest prev (e ∷ es) (named, hashed, rest) = ground (
    arith,
    text_eq_iff e.prev_hash prev.hash,
    text_eq_iff e.hash (hash_entry h e),
    Linked-verify_rest e es rest,
  )

  links_of_Linked :
      (prev : Entry) (es : List Entry)
      → Linked prev es
      → (i : ℕ) (p e : Entry) → get_elem? (prev ∷ es) i ≡ some p
      → get_elem? es i ≡ some e
      → (e.prev_hash ≡ p.hash) × (e.hash ≡ hash_entry h e)
  links_of_Linked prev [] k i p e hp he = cc
  links_of_Linked prev (f ∷ es) (named, hashed, rest) zero p e hp he = ground arith
  links_of_Linked prev (f ∷ es) (named, hashed, rest) (suc i) p e hp he =
      links_of_Linked f es rest i p e hp he

  Linked-of_links :
      (prev : Entry) (es : List Entry)
      → ((i : ℕ) (p e : Entry)
          → get_elem? (prev ∷ es) i ≡ some p
          → get_elem? es i ≡ some e
          → (e.prev_hash ≡ p.hash) × (e.hash ≡ hash_entry h e))
      → Linked prev es
  Linked-of_links prev [] k = tt
  Linked-of_links prev (e ∷ es) k =
      let (named, hashed) = k 0 prev e refl refl in
      (named, hashed, Linked-of_links e es (λ i. k (suc i)))

  pub genesis_checked :
      (g : Entry) (es : List Entry)
      → verify h (g ∷ es) ≡ ok tt
      → (g.hash ≡ genesis_hash) × (verify_rest h g es ≡ ok tt)
  unfolding verify
  genesis_checked g es k = ground (arith, text_eq_sound g.hash genesis_hash)

  verify-IsChain : (l : List Entry) → verify h l ≡ ok tt → IsChain h l
  verify-IsChain [] k = record { genesis = λ g e. cc; links = λ i p e hp he. cc }
  verify-IsChain (g ∷ es) k =
      let (first, rest) = genesis_checked g es k in
      record {
        genesis = λ f e. ground arith;
        links = links_of_Linked g es (verify_rest-Linked g es rest);
      }

  IsChain-verify : (l : List Entry) → IsChain h l → verify h l ≡ ok tt
  unfolding verify
  IsChain-verify [] c = refl
  IsChain-verify (g ∷ es) c = ground (
    arith,
    text_eq_iff g.hash genesis_hash,
    c.genesis g refl,
    Linked-verify_rest g es (Linked-of_links g es c.links),
  )

-- `Verify` accepts a ledger exactly when it is a hash chain: the first entry has the genesis hash,
-- and each later entry has its own hash and names the hash in front of it.
pub verify_iff : (h : Hashing) (l : List Entry) → (verify h l ≡ ok tt) ↔ IsChain h l
verify_iff h l = (verify-IsChain h l, IsChain-verify h l)

module _ (h : Hashing) where
  pub make_entry-hash :
      (i now : ℕ) (u a o p prev : Bytes)
      → (make_entry h i now u a o p prev).hash ≡ hash_entry h (make_entry h i now u a o p prev)
  unfolding make_entry hash_entry hash_input hash_prefix
  make_entry-hash i now u a o p prev = refl

  pub make_entry-prev_hash :
      (i now : ℕ) (u a o p prev : Bytes) → (make_entry h i now u a o p prev).prev_hash ≡ prev
  unfolding make_entry
  make_entry-prev_hash i now u a o p prev = refl

  Linked-snoc :
      (prev : Entry) (es : List Entry) (p e : Entry)
      → Linked h prev es
      → last (prev ∷ es) ≡ some p
      → e.prev_hash ≡ p.hash
      → e.hash ≡ hash_entry h e
      → Linked h prev (es ++ e ∷ [])
  Linked-snoc prev [] p e k hl named hashed = (ground arith, hashed, tt)
  Linked-snoc prev (f ∷ es) p e (n, m, k) hl named hashed =
      (n, m, Linked-snoc f es p e k hl named hashed)

  pub verify-snoc :
      (l : List Entry) (p e : Entry)
      → verify h l ≡ ok tt
      → last l ≡ some p
      → e.prev_hash ≡ p.hash
      → e.hash ≡ hash_entry h e
      → verify h (l ++ e ∷ []) ≡ ok tt
  verify-snoc [] p e k hl named hashed = cc
  verify-snoc (g ∷ es) p e k hl named hashed =
      let (first, rest) = genesis_checked h g es k in
      unfold verify in
      ground (
        arith,
        text_eq_iff g.hash genesis_hash,
        Linked-verify_rest h g (es ++ e ∷ [])
            (Linked-snoc g es p e (verify_rest-Linked h g es rest) hl named hashed),
      )

  pub last-snoc : (l : List Entry) (e : Entry) → last (l ++ e ∷ []) ≡ some e
  last-snoc [] e = refl
  last-snoc (x ∷ []) e = refl
  last-snoc (x ∷ y ∷ l) e = last-snoc (y ∷ l) e

  pub get_elem?-snoc : (l : List Entry) (e : Entry) → get_elem? (l ++ e ∷ []) (length l) ≡ some e
  get_elem?-snoc [] e = refl
  get_elem?-snoc (x ∷ l) e = get_elem?-snoc l e

  get_elem?-append :
      (l m : List Entry) (i : ℕ) {e : Entry}
      → get_elem? l i ≡ some e
      → get_elem? (l ++ m) i ≡ some e
  get_elem?-append [] m i k = cc
  get_elem?-append (x ∷ l) m zero k = k
  get_elem?-append (x ∷ l) m (suc i) k = get_elem?-append l m i k

-- What a successful `Append` leaves behind.
pub record IsAppended (h : Hashing) (l : List Entry) (e : Entry) (l' : List Entry) : Type 0 where
  pub intact : verify h l' ≡ ok tt
  pub len_lem : entry_count l' ≡ entry_count l + 1
  pub get_lem : get l' (entry_count l) ≡ ok e
  pub root_lem : root l' ≡ e.hash
  pub prev_root : e.prev_hash ≡ root l
  pub kept : l' ≡ l ++ e ∷ []

module _ (h : Hashing) (l : List Entry) (p e : Entry) where
  appended :
      verify h l ≡ ok tt
      → last l ≡ some p
      → e.prev_hash ≡ p.hash
      → e.hash ≡ hash_entry h e
      → IsAppended h l e (l ++ e ∷ [])
  unfolding entry_count get root
  appended k hl named hashed = record {
    intact = verify-snoc h l p e k hl named hashed;
    len_lem = omega (arith, length-append {0} l (e ∷ []));
    get_lem = ground (arith, get_elem?-snoc h l e);
    root_lem = ground (arith, last-snoc h l e);
    prev_root = ground arith;
    kept = refl;
  }

pub some-last : (l : List Entry) → l ≢ [] → (p : Entry) × (last l ≡ some p)
some-last [] ne = absurd (ne refl)
some-last (x ∷ []) ne = (x, refl)
some-last (x ∷ y ∷ l) ne = some-last (y ∷ l) (λ q. cc)

-- On a ledger that verifies and has an entry, `Append` of a payload that marshals returns an entry;
-- the ledger after it is the old one with the new entry behind it, verifies, is one entry longer,
-- returns the new entry at the end, and has it as its root, chained to the old root.
pub append_lem :
    (h : Hashing) (now : ℕ) (u a o payload : Bytes) (l : List Entry)
    → verify h l ≡ ok tt
    → l ≢ []
    → (e : Entry) × (l' : List Entry) × (append h now u a o (some payload) l ≡ (ok e, l'))
      × IsAppended h l e l'
unfolding append
append_lem h now u a o payload l k ne =
    let (p, hl) = some-last l ne in
    let e = make_entry h (length l) now u a o payload p.hash in
    (
      e,
      l ++ e ∷ [],
      rw (hl, append),
      appended h l p e k hl (make_entry-prev_hash h (length l) now u a o payload p.hash)
          (make_entry-hash h (length l) now u a o payload p.hash),
    )
