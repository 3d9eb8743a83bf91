-- ===== src/Dns/Tests.antt =====
-- Challenges run at concrete calls, and the theorem on them there.
use nexus_agent_protocol.Prelude.{
  ◌+◌, ◌≡◌, refl, true, false, some, List, [], ◌∷◌, codes, text_eq, ok,
}
use nexus_agent_protocol.World.{Env}
use nexus_agent_protocol.Repository.Order.{sort, insert, shuffle, insert_at}
use nexus_agent_protocol.Dns
use nexus_agent_protocol.Dns.{
  DnsService, DnsOp, starting, verifying, pruning, found_or, trim_dot, txt_host, record_of,
  publishes, mark, add_row, call, get_by_id, mark_verified, find_verified_by_domain, new_challenge,
  start_challenge, verify, check_expiry, verify_challenge, is_domain_verified, delete_expired,
  perform, run,
}
use nexus_agent_protocol.Dns.Verified.{IsProved, no_challenges, domain_verified-IsProved}

abbrev clock : Env
clock = record {
  fault = λ n. false;
  now = λ n. n;
  new_uuid = λ n. n + 100;
  has_user = λ n user. true;
  order = λ n i. 0;
}

-- every host publishes the record of the token `t`
abbrev toy_dns : DnsService
toy_dns = record {
  env = clock;
  generate_token = λ n. some (codes "t");
  lookup_txt = λ n host. some (codes "other" ∷ codes "nexus-agent-challenge=t" ∷ []);
}

abbrev ops : List DnsOp
ops = starting (codes "acme.com") ∷ verifying 100 ∷ pruning ∷ []

verified :
    (is_domain_verified toy_dns (codes "acme.com") (run toy_dns ops (no_challenges toy_dns 0))).0
    ≡ ok true
unfolding run perform start_challenge new_challenge Dns.insert add_row call verify_challenge
    get_by_id check_expiry verify publishes record_of text_eq mark_verified mark delete_expired
    is_domain_verified find_verified_by_domain sort insert shuffle insert_at
verified = refl

domain_verified-IsProved_example :
    IsProved toy_dns (codes "acme.com") (run toy_dns ops (no_challenges toy_dns 0))
domain_verified-IsProved_example =
    domain_verified-IsProved toy_dns ops 0 (codes "acme.com") verified
