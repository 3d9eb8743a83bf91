-- ===== src/Repository/Order.antt =====
-- `ORDER BY ... LIMIT ... OFFSET ...`. Rows with equal keys are returned in the order in which the
-- database reads them, which may be any: `shuffle` takes it from a list of places.
use nexus_agent_protocol.Prelude.{
  ℕ, zero, suc, ◌≡◌, refl, ap, ◌∙◌, ◌-◌, ltb, Bool, true, false, Bool-cases, inl, inr, List, [],
  ◌∷◌, arith, ◌==◌, if◌then◌else◌, length, take, drop, keep, All, All-take,
}

module _ {A : Type 0} where
  -- the row goes to a place, or to the end
  unfoldable pub insert_at : ℕ → A → List A → List A
  insert_at zero a l = a ∷ l
  insert_at (suc n) a [] = a ∷ []
  insert_at (suc n) a (b ∷ l) = b ∷ insert_at n a l

  -- the rows in the order that the places give
  unfoldable pub shuffle : (ℕ → ℕ) → List A → List A
  unfolding insert_at
  shuffle order [] = []
  shuffle order (a ∷ l) = insert_at (order (length l)) a (shuffle order l)

module _ {A : Type 0} (before : A → A → Bool) where
  -- the row goes in front of the first that it comes before
  unfoldable pub insert : A → List A → List A
  insert a [] = a ∷ []
  insert a (b ∷ l) = let rest = insert a l in if before a b then a ∷ b ∷ l else b ∷ rest

  unfoldable pub sort : List A → List A
  unfolding insert
  sort [] = []
  sort (a ∷ l) = insert a (sort l)

  -- no later row comes strictly in front of an earlier one
  abbrev pub IsSorted : List A → Type 0
  IsSorted [] = Unit
  IsSorted (a ∷ l) = All (λ b. before a b ≡ true) l × IsSorted l

module _ {A : Type 0} where
  -- `LIMIT $4 OFFSET $5`, with the default of the callers
  unfoldable pub page : ℕ → ℕ → List A → List A
  page limit offset l = take (if limit == 0 then 50 else limit) (drop offset l)

  abbrev pub count : (A → Bool) → List A → ℕ
  count q l = length (keep q l)

  All-insert :
      (P : A → Type 0) (before : A → A → Bool) (a : A) (l : List A)
      → P a
      → All P l
      → All P (insert before a l)
  unfolding insert
  All-insert P before a [] pa h = (pa, tt)
  All-insert P before a (b ∷ l) pa h = elim (Bool-cases (before a b)) [
    | inl t ↦ rw t (pa, h)
    | inr n ↦ rw n (h.0, All-insert P before a l pa h.1)
  ]

  pub All-sort :
      (P : A → Type 0) (before : A → A → Bool) (l : List A) → All P l → All P (sort before l)
  unfolding sort
  All-sort P before [] h = tt
  All-sort P before (a ∷ l) h = All-insert P before a (sort before l) h.0 (All-sort P before l h.1)

  All-insert_at :
      (P : A → Type 0) (n : ℕ) (a : A) (l : List A) → P a → All P l → All P (insert_at n a l)
  unfolding insert_at
  All-insert_at P zero a l pa h = (pa, h)
  All-insert_at P (suc n) a [] pa h = (pa, tt)
  All-insert_at P (suc n) a (b ∷ l) pa h = (h.0, All-insert_at P n a l pa h.1)

  pub All-shuffle :
      (P : A → Type 0) (order : ℕ → ℕ) (l : List A) → All P l → All P (shuffle order l)
  unfolding shuffle
  All-shuffle P order [] h = tt
  All-shuffle P order (a ∷ l) h =
      All-insert_at P (order (length l)) a _ h.0 (All-shuffle P order l h.1)

  length-insert_at : (n : ℕ) (a : A) (l : List A) → length (insert_at n a l) ≡ suc (length l)
  unfolding insert_at
  length-insert_at zero a l = refl
  length-insert_at (suc n) a [] = refl
  length-insert_at (suc n) a (b ∷ l) = ap suc (length-insert_at n a l)

  pub length-shuffle : (order : ℕ → ℕ) (l : List A) → length (shuffle order l) ≡ length l
  unfolding shuffle
  length-shuffle order [] = refl
  length-shuffle order (a ∷ l) =
      length-insert_at (order (length l)) a _ ∙ ap suc (length-shuffle order l)

  pub All-keep : (p : A → Bool) (l : List A) → All (λ a. p a ≡ true) (keep p l)
  All-keep p [] = tt
  All-keep p (a ∷ l) = elim (Bool-cases (p a)) [
    | inl t ↦ rw t (t, All-keep p l)
    | inr n ↦ rw n (All-keep p l)
  ]

-- A comparison in which one of two rows is first, and that chains.
pub record IsOrder {A : Type 0} (before : A → A → Bool) : Type 0 where
  pub total : (a b : A) → before a b ≡ false → before b a ≡ true
  pub chains : (a b c : A) → before a b ≡ true → before b c ≡ true → before a c ≡ true

module _ {A : Type 0} {before : A → A → Bool} (o : IsOrder before) where
  weaken :
      (a b : A) (l : List A)
      → before a b ≡ true
      → All (λ c. before b c ≡ true) l
      → All (λ c. before a c ≡ true) l
  weaken a b [] t h = tt
  weaken a b (c ∷ l) t h = (o.chains a b c t h.0, weaken a b l t h.1)

  insert-IsSorted : (a : A) (l : List A) → IsSorted before l → IsSorted before (insert before a l)
  unfolding insert
  insert-IsSorted a [] h = (tt, tt)
  insert-IsSorted a (b ∷ l) h = elim (Bool-cases (before a b)) [
    | inl t ↦ rw t ((t, weaken a b l t h.0), h)
    | inr n ↦ rw n (
      All-insert (λ c. before b c ≡ true) before a l (o.total a b n) h.0,
      insert-IsSorted a l h.1,
    )
  ]

  pub sort-IsSorted : (l : List A) → IsSorted before (sort before l)
  unfolding sort
  sort-IsSorted [] = tt
  sort-IsSorted (a ∷ l) = insert-IsSorted a (sort before l) (sort-IsSorted l)

  drop-IsSorted : (n : ℕ) (l : List A) → IsSorted before l → IsSorted before (drop n l)
  drop-IsSorted zero l h = h
  drop-IsSorted (suc n) [] h = tt
  drop-IsSorted (suc n) (a ∷ l) h = drop-IsSorted n l h.1

  take-IsSorted : (n : ℕ) (l : List A) → IsSorted before l → IsSorted before (take n l)
  take-IsSorted zero l h = tt
  take-IsSorted (suc n) [] h = tt
  take-IsSorted (suc n) (a ∷ l) h = (All-take _ n l h.0, take-IsSorted n l h.1)

  pub page-IsSorted :
      (limit offset : ℕ) (l : List A) → IsSorted before l → IsSorted before (page limit offset l)
  unfolding page
  page-IsSorted limit offset l h = take-IsSorted _ _ (drop-IsSorted offset l h)

module _ {A : Type 0} where
  length-insert :
      (before : A → A → Bool) (a : A) (l : List A) → length (insert before a l) ≡ suc (length l)
  unfolding insert
  length-insert before a [] = refl
  length-insert before a (b ∷ l) = ground (arith, length-insert before a l)

  pub length-sort : (before : A → A → Bool) (l : List A) → length (sort before l) ≡ length l
  unfolding sort
  length-sort before [] = refl
  length-sort before (a ∷ l) =
      length-insert before a (sort before l) ∙ ap suc (length-sort before l)

  pub length-drop : (n : ℕ) (l : List A) → length (drop n l) ≡ length l - n
  length-drop zero l = omega arith
  length-drop (suc n) [] = omega arith
  length-drop (suc n) (a ∷ l) = length-drop n l ∙ omega arith

  pub length-take :
      (n : ℕ) (l : List A) → length (take n l) ≡ (if ltb (length l) n then length l else n)
  length-take zero l = ground arith
  length-take (suc n) [] = ground arith
  length-take (suc n) (a ∷ l) = ground (arith, length-take n l)
