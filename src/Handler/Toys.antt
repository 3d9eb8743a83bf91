-- ===== src/Handler/Toys.antt =====
-- A server of internal/registry/handler/agent.go with toy collaborators, for the tests.
use nexus_agent_protocol.Prelude.{true, false, none, some, [], codes}
use nexus_agent_protocol.Service.Toys.{toy_service}
use nexus_agent_protocol.Handler.{Server}

-- Both issuers are configured, and every path names the agent 7 and every text is a URI of `acme.com`.
abbrev pub toy_server : Server
toy_server = record {
  service = toy_service;
  tokens = true;
  user_tokens = true;
  parse_uuid = λ text. (true, 7);
  has_scorer = false;
  error_string = λ e. [];
  owner = λ u. none;
  atoi = λ text. (false, 1000);
  url_parse = λ text. some (record {
    scheme = codes "agent";
    host = codes "acme.com";
    path = codes "/finance/billing/agent_1";
  });
  user_named = λ name u. false;
  sql_lower = λ text. text;
}
