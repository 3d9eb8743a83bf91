-- ===== src/Handler/Paging.antt =====
-- How many agents a listing answers with.
use nexus_agent_protocol.Prelude.{
  ℕ, ◌≤◌, ◌<◌, ◌≡◌, refl, Bool, true, false, not, List, arith, if◌then◌else◌, length,
  length-take-le, keep, drop, is_empty, trim_space, Bytes, ok,
}
use nexus_agent_protocol.Model.Agent.{Agent}
use nexus_agent_protocol.World.{World, M, tick}
use nexus_agent_protocol.Repository.{query}
use nexus_agent_protocol.Repository.Order.{page, sort, shuffle}
use nexus_agent_protocol.Repository.Search.{select, query_rows, list}
use nexus_agent_protocol.Repository.Discovery.{
  search_by_skill, search_by_tool, search, list_active_by_username,
}
use nexus_agent_protocol.Handler.{agents_body, Server, or_answer}
use nexus_agent_protocol.Handler.Queries.{ListQuery, limit_of, offset_of, list_query, list_agents}

-- the action finds at most so many agents, where the database answers
record IsBounded (h : Server) (limit : ℕ) (m : M (List Agent)) : Type 0 where
  bounded :
      (w : World)
      → h.service.env.fault w.calls ≡ false
      → (agents : List Agent) × (m w ≡ (ok agents, tick w)) × (length agents ≤ limit)

module _ (h : Server) where
  limit_of_bounds : (t : Bytes) → (0 < limit_of h t) × (limit_of h t ≤ 200)
  unfolding limit_of
  limit_of_bounds t = ground arith

  page_fits : (limit offset : ℕ) (l : List Agent) → 0 < limit → length (page limit offset l) ≤ limit
  unfolding page
  page_fits limit offset l hl = ground (arith, length-take-le limit (drop offset l))

  select-IsBounded :
      (before : Agent → Agent → Bool) (p : Agent → Bool) (limit offset : ℕ)
      → 0 < limit
      → IsBounded h limit (query_rows h.service.env before p limit offset)
  unfolding query query_rows select
  select-IsBounded before p limit offset hl = record {
    bounded = λ w q. (
      select (h.service.env.order w.calls) before p limit offset w.agents,
      rw q refl,
      page_fits limit offset (sort before (shuffle (h.service.env.order w.calls) (keep p w.agents)))
          hl,
    );
  }

  IsBounded-if :
      (b : Bool) {m n : M (List Agent)} {limit : ℕ}
      → IsBounded h limit m
      → IsBounded h limit n
      → IsBounded h limit (if b then m else n)
  IsBounded-if true hm hn = hm
  IsBounded-if false hm hn = hn

  list_query-IsBounded :
      (p : ListQuery) (limit offset : ℕ)
      → 0 < limit
      → IsBounded h limit (list_query h p limit offset)
  unfolding list_query search_by_skill search_by_tool search list_active_by_username list
  list_query-IsBounded p limit offset hl =
      IsBounded-if (not (is_empty (trim_space p.skill))) (select-IsBounded _ _ limit offset hl) (
        IsBounded-if (not (is_empty (trim_space p.tool))) (select-IsBounded _ _ limit offset hl) (
          IsBounded-if (not (is_empty (trim_space p.username)))
            (select-IsBounded _ _ limit offset hl)
            (IsBounded-if (not (is_empty (trim_space p.q))) (select-IsBounded _ _ limit offset hl)
              (select-IsBounded _ _ limit offset hl))))

  -- Whatever the query parameters are, a listing over a database that answers is a 200 with at most
  -- 200 agents, and nothing is written.
  pub list_agents_bounds :
      (p : ListQuery) (w : World)
      → h.service.env.fault w.calls ≡ false
      → (agents : List Agent) × (list_agents h p w
          ≡ (ok (record { code = 200; body = agents_body agents }), tick w))
        × (length agents ≤ 200)
  unfolding list_agents or_answer
  list_agents_bounds p w q =
      let (pos, small) = limit_of_bounds p.limit in
      let (agents, run, few) =
        (list_query-IsBounded p (limit_of h p.limit) (offset_of h p.offset) pos).bounded w q in
      (agents, rw run refl, omega (arith, few, small))
