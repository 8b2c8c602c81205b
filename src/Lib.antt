-- ===== src/Lib.antt =====
-- oastrix: a service that hands out tokens and records every HTTP request and DNS query that carries
-- one of them. Paths below are from the root of the repository.
--
-- The parts, and how they interact. `runServer` (cmd/oastrix/server.go) opens the database, which
-- applies the migrations, makes an API key on the first start, builds the plugin pipeline and starts
-- the servers. The HTTP server and the DNS server find a token in the host, the path or the query
-- name, make a draft of an interaction and hand it to the pipeline. The pipeline runs its PreStore
-- hooks, stores the draft, runs its PostStore hooks, and lets the response hooks fill in the response
-- plan, which the server then sends. The storage plugin looks up the token in the database and writes
-- the rows; the default response plugin fills in the plan. The API server lets in requests with a
-- stored API key and manages the tokens of that key; the commands of the client send such requests.
-- The ACME manager gets certificates, for which a provider publishes TXT records that the DNS server
-- answers.
--
-- Which module models what:
--   Auth            internal/auth: GenerateAPIKey, ParseAPIKey, VerifyAPIKey, encodeBase62
--   Token           internal/token: Generate
--   Acme.TxtStore   internal/acme/txtstore.go: TXTStore with Add, Remove and Get
--   Acme.Provider   internal/acme/provider.go: AppendRecords, DeleteRecords
--   Acme.Manager    internal/acme/manager.go: NewManager, Manage, ManageIP, TLSConfig
--   Models, Events  internal/models, internal/events: rows, drafts, response plans
--   Db              internal/db: the tables, and the functions on API keys, tokens, interactions
--                   and attributes; the keys and cascades of internal/db/migrations. Db.Integrity
--                   says what the foreign keys promise of the tables
--   Db.PluginConfig internal/db/plugin_config.go: SetTokenPluginConfig and the like
--   Db.Migrations   internal/db/db.go: Open, applyMigrations, parseVersion
--   Plugins         internal/plugins: the hooks as records (Interfaces), Pipeline, and the two core
--                   plugins (Core.Storage, Core.DefaultResponse)
--   Server.Host     internal/server/http.go: ExtractToken, isValidHost
--   Server.Http     internal/server/http.go: ServeHTTP
--   Server.Qname    internal/server/dns.go: extractTokenFromQName
--   Server.Dns      internal/server/dns.go: handleDNS
--   Server.Api      internal/server/api.go: AuthMiddleware, the handlers, writeJSON, Handler
--   Server.Lifecycle  internal/server/lifecycle.go: ManagedServer
--   Server.DnsStart   internal/server/dns.go: Start and Shutdown
--   Client          internal/client/client.go: Client with its calls, parseError; in Client.Served
--                   and Client.Seen over the API server
--   Cmd.Server      cmd/oastrix/server.go: the pipeline and the servers that runServer sets up, and
--                   what a request or a query does to a server made so; in Challenges over the
--                   store that the provider publishes in
--   Cmd.Run         cmd/oastrix/server.go: runServer, whose steps Cmd.Run.Sequence puts together
--   Cmd.Client      cmd/oastrix/client.go, list.go, delete.go, generate.go, interactions.go
--   Cmd.Env         cmd/oastrix/root.go: getEnvInt, and the logger made before a command runs
--   Logging         internal/logging/logging.go: New, FromEnv
--   Prelude         texts, lists, integers and association lists; Failure: errors as values
--   Runtime         functions of the standard library whose values are passed on unread
--   Tests           concrete inputs
-- The laws of a module stand in its child modules.
--
-- State. A text is the list of its bytes. The database is a record of tables with the counters of
-- their IDs, and of what comes from outside: the clock, and which of the coming statements the
-- engine fails (`faults`). An operation takes the database and returns a result and the database, and
-- a statement is one atomic step. A hook takes an event and the state shared by the hooks, and returns
-- an error or none, the event and the state. A handler that returns early is a `Flow`. A panic on a
-- nil draft or plan is a value of its own. Where goroutines run beside the code that waits for them,
-- the steps of both are a relation on their joint state, and a run is any sequence of such steps;
-- the channel between them is a buffer for one error and a mark that it was closed. `runServer`
-- leaves a list of what it did: keys printed, listeners started and shut down.
--
-- Fuel. `base62_loop` divides a number by 62 until it is 0 and has the number itself as its fuel,
-- which is enough as each division makes a positive number smaller. All other loops recurse on a list.
--
-- Parameters. SHA-256, base64, the format of times, the JSON encoding of headers and of the client's
-- bodies, the parsing of IP addresses, the names of DNS types, what `rand.Read` delivers, certmagic
-- with its challenge handler, what a migration script does, the HTTP client, what the listeners
-- return and when, the loading of a certificate, and printing are arguments. The client's theorems on
-- the API take the server's handler, behind the multiplexer, for the HTTP client.
--
-- Limits. Case folding is that of ASCII. Rows of one time are listed in one of the orders that SQL
-- allows. The foreign keys are checked as the pragma of the connection says, which is a field of the
-- database. Not modelled: the sockets, what is logged and the fields of log entries, the declarations
-- of commands and flags, which cobra reads, certmagic's global loggers, and the plugins' `Init`,
-- which keeps a logger. They are input and output, or calls of other libraries. The interfaces for
-- plugins of the feature kind, which nothing implements, are left out too.
pub mod Prelude
pub mod Failure
pub mod Models
pub mod Events
pub mod Runtime
pub mod Auth
pub mod Token
pub mod Acme
pub mod Db
pub mod Plugins
pub mod Server
pub mod Client
pub mod Logging
pub mod Cmd
pub mod Tests
