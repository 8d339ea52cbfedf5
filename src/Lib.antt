-- ===== src/Lib.antt =====
-- Verification of my-token, a service that collects the token usage of coding agents. A collector
-- on each machine reads transcripts and posts usage events; the server stores them and gives the
-- console totals, windows and breakdowns.
--
-- The parts and how they interact:
-- - internal/domain/usage: Usage. Usage/Pricing is pricing.go, Usage/Event has the types of repo.go,
--   service.go and summary.go with the grouping of events, Usage/Summary is Aggregate, Usage/Window
--   and Usage/Calendar are ParseWindow and WindowBounds over an arithmetic calendar, Usage/Repo is
--   repo.go with the statements that it runs, and Usage/Service is service.go over the interface
--   Repository, which the tables of Usage/Repo fill.
-- - internal/collector: Collector. Collector/Pricing is its own copy of the prices,
--   Collector/Transcript is transcript.go, Collector/TouchedPaths is touchedpaths.go,
--   Collector/Paths is path.go, Collector/Store is pathstore.go, Collector/Scan is scan.go,
--   Collector/Sent is state.go, Collector/Sessions is scanSessionPaths and Collector/Run is Run of
--   collector.go, which composes all of these. Collector/Config is config.go.
-- - internal/identity: Identity. Identity/Repo is repo.go with its statements on the users and
--   api_keys tables, and Identity/Service is service.go: bearer tokens, the resolution of actors by
--   API key or JWT, and the issuing and rotation of keys.
-- - internal/transport/bff: Bff. Bff/Session is session.go, Bff/Oauth is oauth.go with the cookies of
--   middleware.go, Bff/Login is login_handler.go and callback_handler.go, Bff/Gate is
--   json_middleware.go, Bff/Keys is keys_handler.go, users_handler.go and me_handler.go, and
--   Bff/Console is usage_handler.go over the usage service.
-- - internal/transport/publicapi: PublicApi. PublicApi/Middleware is middleware.go, PublicApi/Usage is
--   usage_handler.go over the usage service, and PublicApi/Keys is keys_handler.go and me_handler.go.
-- - cmd/server: Server takes the users and keys, and the usage tables, through any sequence of the
--   calls that write them.
-- - cmd/issue-key: IssueKey/KeyFile is keyfile.go and IssueKey/Command the two runs of main.go over the
--   identity service.
-- - internal/dbquery: DbQuery/Scan is the scanner of query files and DbQuery/Ownership the rule of
--   ownership over it, with the two tables as arguments.
-- - Http has the requests and responses of both transports; a handler is a function to a response,
--   and to the tables that follow where it writes. Base has strings as bytes, maps, lists, 64-bit
--   words, results and options.
--
-- Conventions. A Go string is the list of its bytes. An int64 is its bit pattern, and addition wraps
-- at 2^64. float64 is a parameter: a record of operations, so that rounding is kept, with laws only
-- where a theorem names them. time.Time is a number of nanoseconds since Go's zero time, in UTC. A Go
-- map is an association list in the order in which the keys came. The database, the file system, JSON,
-- the subprocess of git, hashing, HMAC, base64, package oauth2, the JWT verifier and the server that
-- a collector posts to are arguments: records of what
-- succeeds or functions on a state. A transaction that fails leaves its table as it was. Loops are structural recursions on
-- their lists, so that no fuel is needed.
--
-- Not modelled: generated code (internal/db, internal/api, internal/bffapi) but for the types that the
-- handlers read, the validators of requests by the OpenAPI documents, the wiring and the flags of cmd,
-- internal/platform, internal/identity/jwt.go, and log lines.
pub mod Base
pub mod Usage
pub mod Collector
pub mod Identity
pub mod Bff
pub mod DbQuery
pub mod Http
pub mod IssueKey
pub mod PublicApi
pub mod Server
