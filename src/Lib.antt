-- ===== src/Lib.antt =====
-- NexusAgentProtocol: the registry of AI agents, its agent lifecycle and its trust ledger.
--
-- An agent is registered under a URI, agent://{org}/{category}/{skill}/{agent_id}. The agent service
-- (internal/registry/service/agent.go) validates a request, stores the agent through the repository
-- (internal/registry/repository/agent.go), appends an entry to the trust ledger
-- (internal/trustledger) and hands an event to the webhooks. Clients read the agents by id, by the
-- parts of the URI (pkg/uri) or by capability. A scorer (internal/threat) judges registrations.
--
-- Files
--   Prelude, Prelude/*      lists over native numbers, byte strings as Go's `strings` has them, results
--   Model/Agent             internal/registry/model/agent.go: the agent, the requests, `URI` and
--                           `ComputeTrustTier` (the tier is computed, not stored)
--   Model/Capability        internal/registry/model/capabilities.go: `ValidateCapabilityNode` and others
--   Uri                     pkg/uri/uri.go: `Parse` and `String`; Uri/Sound and Uri/RoundTrip
--   Ledger                  internal/trustledger/entry.go and memory.go; Ledger/Chain and Ledger/Tamper
--   Ledger/Postgres         internal/trustledger/postgres.go: `Append` as a transaction with faults, and
--                           `Verify`; this is the ledger of the agent service. Ledger/Refinement and
--                           Ledger/Stored are about it
--   Action                  actions over a state, which the services share; Action/Preserves the rules for
--                           a property of the state that an action preserves
--   World                   the state that the services share, and actions over it; World/Effects and
--                           World/Keeps have the rules to reason about an action by its parts
--   Repository              internal/registry/repository/agent.go: writes and single reads;
--                           Repository/Search the lists, Repository/Like and Repository/Order SQL's LIKE
--                           and ORDER BY
--   Service                 internal/registry/service/agent.go: Service/Register, Service/Lifecycle,
--                           Service/Activate, Service/Cards; Service/Operations the requests as data;
--                           Service/Verdict and Service/Transitions have the reference tables, the
--                           other files are named for what they are about: Atomic, Histories, Rows,
--                           Permanence, Healthy, Activation, Drafts, Registration, Acceptance,
--                           Resolution and Audit
--   Threat                  internal/threat: the rules and the score
--   Identity                internal/identity/mtls.go and usertoken.go: the claims of a request's tokens and
--                           the middlewares that check them
--   Handler                 internal/registry/handler/agent.go over the service: Handler/Agents the
--                           requests that write, Handler/Requests the same as data, Handler/Queries those
--                           that read; Handler/Authorization, Atomic, Paging and Batch are about them
--   Users                   internal/users: the tables and the repository; Users/Names and Users/Service
--                           the service, Users/Operations its calls as data; Users/Grows, Growth,
--                           Histories and Tokens are about them
--   Dns                     internal/dns and the challenges of internal/registry/repository and service
--   Federation              internal/federation: repository and service; Federation/Resolver the client and
--                           the discovery, with the route that the client asks
--   Health                  internal/health/checker.go over the world of the agent service
--   Cache                   internal/resolver/cache.go: the resolver's cache with its expiry
--   Resolver                internal/resolver/resolver.go: the resolution through the cache;
--                           Resolver/Fetched and Origin say where its answers come from
--
-- A method of the service is an action: a function from the world (the rows of `agents`, the ledger,
-- the events, the number of calls made) to a result and the world after it. The environment says by
-- the number of the call whether a database call fails, what the clock shows and which UUID is drawn;
-- every statement holds for each environment unless it names one. A statement of the database is one
-- step. Strings are lists of bytes; times and UUIDs are natural numbers; the metadata is an
-- association list. Loops are structural but for two that run on fuel: the printing of a number n has
-- n + 1 steps, more than its digits, and the loop over user names has the 9998 suffixes 2 to 9999, which
-- are all that the code tries.
--
-- The users, the challenges, the federation and the resolver have a state of their own. A handler is an
-- action whose error is the answer that an early return writes. Goroutines run in an order that the
-- scheduler chooses, an argument: those of a batch by their database calls, those of the health checker
-- and of the resolver one after the other.
--
-- Parameters stand for code outside the repository's files: SHA-256 and time formatting (Hashing),
-- encoding/json and base32 (Codec), url.Parse, uuid.Parse, strconv.Atoi, time.Parse, the random source,
-- bcrypt, the JWT parser, the DNS, HTTP requests, the sender of e-mails, and the collaborators of the
-- agent service that are set by options (issuer, verifiers, remote resolver). The threat scorer's
-- confidences are in tenths. Rows with equal sort keys are returned in any order, which the environment
-- chooses by places to which the rows go; so does it choose which users `agents.owner_user_id` may name.
-- What TIMESTAMPTZ keeps of a time of the ledger is a function of the service, `ledger_column`.
-- E-mail addresses and DNS records are ASCII, and the texts of a request are such as a column of type
-- TEXT takes: UTF-8 without the character 0. But for the ledger, whose hashes depend on it, times are
-- stored as they are: what a column cuts off them is left out.
--
-- Not modelled: the other HTTP handlers, the delivery of webhooks, abuse reports, certificates and the
-- signing of tokens, the commands, the client library, and generated code. The ledger's failure is
-- logged by the service and forgotten; a log is no part of the world. Concurrent requests are sequences
-- of requests.
mod Prelude
mod Action
pub mod Model
pub mod Uri
pub mod Ledger
pub mod World
pub mod Repository
pub mod Service
pub mod Threat
pub mod Identity
pub mod Handler
pub mod Users
pub mod Dns
pub mod Federation
pub mod Health
pub mod Cache
pub mod Resolver
