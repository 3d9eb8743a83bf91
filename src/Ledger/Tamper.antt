-- ===== src/Ledger/Tamper.antt =====
-- Two verified ledgers with one root: what the root pins, and what it leaves open.
use mathlib.Core.Path.{subst}
use nexus_agent_protocol.Prelude.{
  ℕ, ◌≡◌, ◌≢◌, ◌⊎◌, inl, inr, refl, sym, ◌∙◌, ap, drop, Bool-cases, List, [], ◌∷◌, ◌++◌,
  append_assoc, arith, Bytes, text_eq, text_eq_iff, text_eq_sound, length, Lacks, ok,
}
use nexus_agent_protocol.Ledger.{
  Hashing, IsHex, Entry, genesis_hash, hash_entry, hash_input, hash_prefix, verify, root,
}
use nexus_agent_protocol.Ledger.Decimal.{decimal}
use nexus_agent_protocol.Ledger.Chain.{Linked, verify_rest-Linked, genesis_checked}

-- Two texts with one digest.
abbrev pub Collision : Hashing → Type 0
Collision h = (x : Bytes) × (y : Bytes) × (x ≢ y) × (h.sha256_hex x ≡ h.sha256_hex y)

-- Entries that are hashed from one text, position by position.
abbrev pub SameInputs : Hashing → List Entry → List Entry → Type 0
SameInputs h [] [] = Unit
SameInputs h (e ∷ es) (f ∷ fs) = (hash_input h e ≡ hash_input h f) × SameInputs h es fs
SameInputs h _ _ = ⊥

-- The text behind the last bar is determined.
Lacks-bar : (x s : Bytes) (c : ℕ) → Lacks c (x ++ c ∷ s) → ⊥
Lacks-bar [] s c h = h.0 refl
Lacks-bar (b ∷ x) s c h = Lacks-bar x s c h.1

last_field : (c : ℕ) (x y p q : Bytes) → Lacks c p → Lacks c q → x ++ c ∷ p ≡ y ++ c ∷ q → p ≡ q
last_field c [] [] p q hp hq e = cc
last_field c [] (b ∷ y) p q hp hq e = absurd (Lacks-bar y q c (subst (Lacks c) (cc) hp))
last_field c (a ∷ x) [] p q hp hq e = absurd (Lacks-bar x p c (subst (Lacks c) (cc) hq))
last_field c (a ∷ x) (b ∷ y) p q hp hq e = last_field c x y p q hp hq (cc)

module _ (h : Hashing) (hex : IsHex h) where
  same_prev :
      (e f : Entry)
      → Lacks b'|' e.prev_hash
      → Lacks b'|' f.prev_hash
      → hash_input h e ≡ hash_input h f
      → e.prev_hash ≡ f.prev_hash
  unfolding hash_input
  same_prev e f he hf q = last_field b'|' (hash_prefix h e) (hash_prefix h f) _ _ he hf q

  inputs_or_Collision :
      (e f : Entry)
      → hash_entry h e ≡ hash_entry h f
      → (hash_input h e ≡ hash_input h f) ⊎ Collision h
  unfolding hash_entry
  inputs_or_Collision e f q = elim (Bool-cases (text_eq (hash_input h e) (hash_input h f))) [
    | inl same ↦ inl (text_eq_sound _ _ same)
    | inr differ ↦ inr (
      hash_input h e,
      hash_input h f,
      (λ s. ground (arith, text_eq_iff (hash_input h e) (hash_input h f))),
      q,
    )
  ]

  -- the hash of the last entry
  abbrev tip : Entry → List Entry → Bytes
  tip p [] = p.hash
  tip p (e ∷ es) = tip e es

  tips :
      (p q : Entry) (es fs : List Entry)
      → length es ≡ length fs
      → Lacks b'|' p.hash
      → Lacks b'|' q.hash
      → Linked h p es
      → Linked h q fs
      → tip p es ≡ tip q fs
      → ((p.hash ≡ q.hash) × SameInputs h es fs) ⊎ Collision h
  tips p q [] [] n hp hq k l t = inl (t, tt)
  tips p q [] (f ∷ fs) n hp hq k l t = absurd (omega arith)
  tips p q (e ∷ es) [] n hp hq k l t = absurd (omega arith)
  tips p q (e ∷ es) (f ∷ fs) n hp hq (ek, eh, k) (fk, fh, l) t =
      elim (tips e f es fs (omega arith) (rw eh (bare e)) (rw fh (bare f)) k l t) [
        | inr c ↦ inr c
        | inl (same, rest) ↦ elim (inputs_or_Collision e f (sym eh ∙ same ∙ fh)) [
          | inr c ↦ inr c
          | inl inputs ↦
              inl (sym ek ∙ same_prev e f (rw ek hp) (rw fk hq) inputs ∙ fk, (inputs, rest))
        ]
      ]
    where
      bare : (x : Entry) → Lacks b'|' (hash_entry h x)
      bare x = unfold hash_entry in hex (hash_input h x)

  root-tip : (p : Entry) (es : List Entry) → root (p ∷ es) ≡ tip p es
  unfolding root
  root-tip p [] = refl
  root-tip p (e ∷ es) = root-tip e es

  genesis_bare : (g : Entry) → g.hash ≡ genesis_hash → Lacks b'|' g.hash
  genesis_bare g e = rw e (omega arith)

-- If two ledgers of one length verify and have one root, then their entries behind the genesis
-- entry are hashed from the same texts, position by position, or two different texts with the same
-- digest are at hand. It is assumed that a digest is printed without a `|`.
pub root_pins_inputs :
    (h : Hashing)
    → IsHex h
    → (l m : List Entry) → length l ≡ length m
    → verify h l ≡ ok tt
    → verify h m ≡ ok tt
    → root l ≡ root m
    → SameInputs h (drop 1 l) (drop 1 m) ⊎ Collision h
root_pins_inputs h hex [] [] n k j r = inl tt
root_pins_inputs h hex [] (f ∷ fs) n k j r = absurd (omega arith)
root_pins_inputs h hex (e ∷ es) [] n k j r = absurd (omega arith)
root_pins_inputs h hex (e ∷ es) (f ∷ fs) n k j r =
    let (ek, el) = genesis_checked h e es k in
    let (fk, fl) = genesis_checked h f fs j in
    elim (tips h hex e f es fs (omega arith) (genesis_bare h hex e ek) (genesis_bare h hex f fk)
      (verify_rest-Linked h e es el) (verify_rest-Linked h f fs fl)
      (sym (root-tip h hex e es) ∙ r ∙ root-tip h hex f fs)) [
        | inl same ↦ inl same.1
        | inr c ↦ inr c
      ]

shift_bar : (a b c r : Bytes) (d : ℕ) → (a ++ d ∷ b) ++ (d ∷ c ++ r) ≡ a ++ (d ∷ (b ++ d ∷ c) ++ r)
shift_bar a b c r d = simp append_assoc

hash_input_ambiguous :
    (h : Hashing) (e : Entry) (a b c : Bytes)
    → hash_input h (record e { agent_uri = a ++ b'|' ∷ b; action = c })
      ≡ hash_input h (record e { agent_uri = a; action = b ++ b'|' ∷ c })
unfolding hash_input hash_prefix
hash_input_ambiguous h e a b c =
    ap
      (λ x.
        (decimal e.index ++ (b'|' ∷ h.format_time e.timestamp ++ (b'|' ∷ x))) ++ b'|' ∷ e.prev_hash)
      (shift_bar a b c (b'|' ∷ e.actor ++ (b'|' ∷ e.data_hash)) b'|')

-- The fields are joined by bars and not escaped: whatever the texts `a`, `b`, `c`, an entry whose URI
-- is `a|b` and whose action is `c` has the hash of the entry whose URI is `a` and whose action is
-- `b|c`, so the hash does not tell the two apart.
pub hash_entry_ambiguous :
    (h : Hashing) (e : Entry) (a b c : Bytes)
    → hash_entry h (record e { agent_uri = a ++ b'|' ∷ b; action = c })
      ≡ hash_entry h (record e { agent_uri = a; action = b ++ b'|' ∷ c })
unfolding hash_entry
hash_entry_ambiguous h e a b c = ap h.sha256_hex (hash_input_ambiguous h e a b c)
