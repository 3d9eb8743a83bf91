-- ===== src/Repository/Search/Laws.antt =====
-- What a search returns.
use nexus_agent_protocol.Prelude.{
  ℕ, ◌-◌, ◌<◌, ◌≤◌, ◌≡◌, ◌⊎◌, inl, inr, refl, ap, ◌∙◌, Bool, true, false, Bool-cases, ◌&&◌, ◌||◌,
  not, List, [], ◌∷◌, ◌++◌, arith, Bytes, codes, ltb, ◌==◌, if◌then◌else◌, is_empty, text_eq,
  has_prefix, length, keep, drop, IsIn, All, All-take, All-drop, ok,
}
use nexus_agent_protocol.Model.Agent.{Agent, RegistrationType, domain, is_domain, is_active}
use nexus_agent_protocol.World.{World, Env, tick}
use nexus_agent_protocol.Repository.{query}
use nexus_agent_protocol.Repository.Like.Laws.{is_plain, like-children}
use nexus_agent_protocol.Repository.Order.{
  sort, shuffle, page, count, IsSorted, IsOrder, All-shuffle, All-sort, length-sort, length-shuffle,
  length-take, length-drop, sort-IsSorted, page-IsSorted,
}
use nexus_agent_protocol.Repository.Search.{
  newest, rank, by_rank, select, query_rows, in_category, in_search, search_by_capability,
}

by_rank-IsOrder : IsOrder by_rank
unfolding by_rank newest
by_rank-IsOrder = record { total = λ a b h. ground arith; chains = λ a b c h k. ground arith }

-- The tiers of a search: agents of a domain with a certificate, others with a certificate, agents of
-- a domain without one, the rest.
abbrev place : Bool → RegistrationType → ℕ
place true domain = 1
place true _ = 2
place false domain = 3
place false _ = 4

abbrev place_of : Agent → ℕ
place_of a = place (not (is_empty a.cert_serial)) a.registration_type

-- in front: of a better tier, or of the same tier and not older
abbrev IsBefore : Agent → Agent → Type 0
IsBefore a b =
    (place_of a < place_of b) ⊎ ((place_of a ≡ place_of b) × (b.created_at ≤ a.created_at))

abbrev pub IsRanked : List Agent → Type 0
IsRanked [] = Unit
IsRanked (a ∷ l) = All (IsBefore a) l × IsRanked l

-- An active agent of the organisation, where one is given, with a capability that is the category or
-- begins with the category and a `>`.
abbrev pub is_wanted : Bytes → Bytes → Agent → Bool
is_wanted cap org a =
    (text_eq a.capability_node cap || has_prefix a.capability_node (cap ++ codes ">"))
    && is_active a.status
    && (is_empty org || text_eq a.trust_root org)

-- the smaller of two numbers
abbrev pub shorter : ℕ → ℕ → ℕ
shorter n m = if ltb m n then m else n

rank_place : (a : Agent) → rank a ≡ place_of a
unfolding rank
rank_place a = go (not (is_empty a.cert_serial)) a.registration_type
  where
    go :
        (c : Bool) (t : RegistrationType)
        → (if c && is_domain t then 1 else if c then 2 else if is_domain t then 3 else 4)
          ≡ place c t
    go true domain = refl
    go false domain = refl
    go c t = refl

by_rank-IsBefore : (a b : Agent) → by_rank a b ≡ true → IsBefore a b
unfolding by_rank newest
by_rank-IsBefore a b h = elim (Bool-cases (ltb (rank a) (rank b))) [
  | inl t ↦ inl (ground (arith, t, rank_place a, rank_place b))
  | inr n ↦ inr (ground (arith, h, n, rank_place a, rank_place b), ground (arith, h, n))
]

IsSorted-IsRanked : (l : List Agent) → IsSorted by_rank l → IsRanked l
IsSorted-IsRanked [] h = tt
IsSorted-IsRanked (a ∷ l) h = (ahead l h.0, IsSorted-IsRanked l h.1)
  where
    ahead : (k : List Agent) → All (λ b. by_rank a b ≡ true) k → All (IsBefore a) k
    ahead [] q = tt
    ahead (b ∷ k) q = (by_rank-IsBefore a b q.0, ahead k q.1)

-- the rows that a test keeps are rows, and pass it
keep-IsIn :
    (p q : Agent → Bool) (all rows : List Agent)
    → ((a : Agent) → p a ≡ q a)
    → ((a : Agent) → IsIn a rows → IsIn a all)
    → All (λ a. IsIn a all × (q a ≡ true)) (keep p rows)
keep-IsIn p q all [] same into = tt
keep-IsIn p q all (x ∷ rows) same into = elim (Bool-cases (p x)) [
  | inl t ↦ rw t (
    (into x (inl refl), ground (arith, same x, t)),
    keep-IsIn p q all rows same (λ a m. into a (inr m)),
  )
  | inr n ↦ rw n (keep-IsIn p q all rows same (λ a m. into a (inr m)))
]

count-same :
    (p q : Agent → Bool) (rows : List Agent)
    → ((a : Agent) → p a ≡ q a)
    → count p rows ≡ count q rows
count-same p q [] same = refl
count-same p q (x ∷ rows) same = ground (arith, same x, count-same p q rows same)

in_search-is_wanted :
    (cap org : Bytes)
    → is_plain cap ≡ true
    → (a : Agent) → in_search cap org a ≡ is_wanted cap org a
unfolding in_search in_category
in_search-is_wanted cap org plain a = ground (arith, like-children cap a.capability_node plain)

module _ (order : ℕ → ℕ) (before : Agent → Agent → Bool) (p : Agent → Bool) where
  select-All :
      (P : Agent → Type 0) (limit offset : ℕ) (rows : List Agent)
      → All P (keep p rows)
      → All P (select order before p limit offset rows)
  unfolding select page
  select-All P limit offset rows h =
      All-take _ _ _
        (All-drop _ offset _ (All-sort _ before _ (All-shuffle P order (keep p rows) h)))

  select-IsSorted :
      IsOrder before
      → (limit offset : ℕ) (rows : List Agent)
      → IsSorted before (select order before p limit offset rows)
  unfolding select
  select-IsSorted o limit offset rows =
      page-IsSorted o limit offset _ (sort-IsSorted o (shuffle order (keep p rows)))

  length-select :
      (limit offset : ℕ) (rows : List Agent)
      → length (select order before p limit offset rows)
        ≡ shorter (if limit == 0 then 50 else limit) (count p rows - offset)
  unfolding select page
  length-select limit offset rows =
      let read = shuffle order (keep p rows) in
      let left : length (drop offset (sort before read)) ≡ count p rows - offset =
        length-drop offset (sort before read)
        ∙ ap (λ n. n - offset) (length-sort before read ∙ length-shuffle order (keep p rows)) in
      length-take (if limit == 0 then 50 else limit) (drop offset (sort before read))
      ∙ ap (shorter (if limit == 0 then 50 else limit)) left

-- A search by a category without the wildcards of LIKE, over a database that answers and may read
-- rows in any order: it returns stored agents that are active, of the category or below it and of the
-- organisation, where one is given; those of a better tier first and within a tier none behind an older
-- one; and as many as there are behind the offset, up to the limit, or 50 without one. Nothing is
-- written.
pub search_by_capability_lem :
    (env : Env) (cap org : Bytes) (limit offset : ℕ) (w : World)
    → env.fault w.calls ≡ false
    → is_plain cap ≡ true
    → (found : List Agent) × (search_by_capability env cap org limit offset w ≡ (ok found, tick w))
      × All (λ a. IsIn a w.agents × (is_wanted cap org a ≡ true)) found
      × IsRanked found
      × (length found
          ≡ shorter
              (if limit == 0 then 50 else limit)
              (count (is_wanted cap org) w.agents - offset))
unfolding search_by_capability query_rows query
search_by_capability_lem env cap org limit offset w h plain =
    let order = env.order w.calls in
    let wanted = in_search cap org in
    let same = in_search-is_wanted cap org plain in
    (
      select order by_rank wanted limit offset w.agents,
      rw h refl,
      select-All order by_rank wanted _ limit offset w.agents
          (keep-IsIn wanted (is_wanted cap org) w.agents w.agents same (λ a m. m)),
      IsSorted-IsRanked _
          (select-IsSorted order by_rank wanted by_rank-IsOrder limit offset w.agents),
      length-select order by_rank wanted limit offset w.agents
          ∙ ap (λ n. shorter (if limit == 0 then 50 else limit) (n - offset))
              (count-same wanted (is_wanted cap org) w.agents same),
    )
