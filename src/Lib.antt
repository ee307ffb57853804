-- ===== src/Lib.antt =====
-- A verification library for go-metrics: an agent that collects the metrics of its process and host
-- and posts them, and a server that checks, stores and shows them.
--
-- Parts of the program, and the files that model them:
--
-- * The data. `models.Metrics` of internal/models/metrics.go is the record of Models. A Go map is an
--   association list with one entry for a key (GoMap), and `range` over it visits the entries in an
--   order that is a parameter, any rearrangement of them. An int64 is its bit pattern, a
--   number below 2 ^ 64, and its addition wraps (`add64` of Common). A float64 is a type `F` that
--   nothing is known of. Strconv has `strconv.ParseInt` to base 10 and the `%d` of package fmt.
-- * The storage. Storage has the interface of internal/storage/storage.go as a record of operations
--   on a state, and Storage/Updates the laws that its clients rely on, an abstract specification in
--   which a storage is what GetGauge and GetCounter return. Storage/Mem is
--   internal/storage/memstorage.go, method by method. Its lock makes a method one step, so the
--   interleavings of requests are the orders of such steps. Storage/Mem/Laws, Storage/Mem/Batch and
--   Storage/Mem/Persistence have the proofs on single methods, batches and files.
-- * Storage/Db is internal/storage/database.go: its writing methods, with the transaction and the
--   retries of `UpdateBatch`; Storage/Db/Reads has those that read, Storage/Db/Migrations has
--   internal/storage/migrations.go and cmd/migrate/main.go. pgx and the server are parameters over a
--   world. Storage/Db/Table is the table of migrations/001_create_metrics_table.sql with the effects of
--   the two upserts of database.go, and Storage/Db/Specification says how a PostgreSQL that works
--   changes it. Delivery, Batch, Readings, Refinement, Single, ReadBack and Listing beside them have
--   the proofs.
-- * The handlers of internal/server/handlers.go, over any storage. Handlers has the hash checks
--   (`checkHash`, `checkJSONHash`, `verifyMetricHash`, `addHashToMetrics`), Handlers/Plain the
--   handlers of URLs, Handlers/Json those of one JSON metric, Handlers/Updates `UpdatesHandler`. A
--   handler maps a request and a state to a response and a state (Http). Hash is
--   internal/utils/hash.go with the HMAC as a parameter.
-- * The middleware of internal/middleware and its order in internal/server/router.go (Middleware).
--   Middleware/Delivery follows a message of the agent's sender through it, Middleware/State is about
--   the state behind it. Router has the routes of internal/server/router.go and the handler that chi
--   serves a request with; what chi finds is a parameter. Router/State and Router/Laws are about the
--   routes.
-- * Encryption. Crypto is the block loop of internal/crypto/utils.go over RSA as a parameter, and
--   Crypto/Keys the key files of internal/crypto and cmd/keygen/main.go.
-- * The agent, internal/app/agent.go: Agent has `NewMetric`, Agent/Collector the two collecting loops,
--   Agent/Sender `NewMetricsSender` and `SendMetricsBatch`. Agent/Pipeline has the goroutines of
--   `App.Run`, the collector, the sender and its pool as a step relation on the channels between them,
--   and Agent/Pipeline/Life the ticks, the Stop methods and whole runs; Agent/Pipeline/Order is about
--   the order of the batches. A batch is a value of any type there. Agent/Program is cmd/agent/main.go with
--   `NewMetricsCollector` and `NewApp`, up to the goroutines that `App.Run` starts. The process ends
--   where `Run` returns; a `select` may take any branch that is ready, and a timer may fire at any time
--   after its start.
-- * Retry is internal/utils/retry.go, over a world that the function, the clock and the context change;
--   Retry/Time measures that world by a clock.
-- * Config has internal/config/json.go and what the two configurations share, Config/Server is
--   internal/config/config.go and Config/Agent is internal/app/agent_config.go. Config/Sources,
--   Config/Durations and the Bounds beside the two have the proofs on their values.
-- * Manager is internal/server/storage_manager.go, and of cmd/server/main.go the choice of the storage
--   and the shutdown. Server is the rest of cmd/server/main.go: the storage and the key that it loads,
--   the requests that it serves while `periodicSave` saves, and its end. Server/InMemory and
--   Server/Lawful are about the two storages that it chooses from. Server/Delivery joins keygen, the
--   agent's sender and the routes.
-- * Logger is `WithLogging` of internal/logger/logger.go. Exitcheck is the analyzer of
--   cmd/staticlint/exitcheck.go over the part of a syntax tree that it looks at, and Staticlint the
--   choice of analyzers in cmd/staticlint/main.go.
-- * Tests has runs of the model and the theorems at concrete inputs.
--
-- Fuel and bounds. The loop of `Retry` counts its rounds down from MaxAttempts, as the code does. The
-- loops over encrypted blocks have the length of the data as fuel, and each round takes at least one
-- byte of a key that has room for a block; where the fuel runs out, the result is `none`.
-- `%d` prints at most 20 digits, and an int64 has at most 19. The three channels of the agent hold 100
-- batches, as they are made. All other loops are over lists.
--
-- Parameters, with what is assumed of them where a theorem needs it: HMAC-SHA256, RSA with the padding
-- of PKCS #1 v1.5, math/rand, encoding/json, encoding/base64, compress/gzip, html/template, the parsing
-- and printing of float64, time.ParseDuration, package flag, the file system, gopsutil, the HTTP client,
-- url.JoinPath, encoding/pem, crypto/x509, pgx and PostgreSQL, goose, net/http's ResponseWriter,
-- go/ast, and the analyzers of golang.org/x/tools and staticcheck.
--
-- Not modelled, since they are the work of libraries or of the system: the matching of paths by chi,
-- the sockets and the delivery of signals, the server of net/http/pprof, and the configuration of zap
-- (NewZapLogger). Bodies are read as a whole: what a decoder leaves unread is not told apart. In the
-- table, `created_at` is left out, and the program is its only writer. The texts of errors and log
-- lines are modelled only where the code looks at them.
pub mod Common
pub mod GoMap
pub mod Models
pub mod Strconv
pub mod Hash
pub mod Http
pub mod Storage
pub mod Handlers
pub mod Crypto
pub mod Middleware
pub mod Agent
pub mod Retry
pub mod Config
pub mod Manager
pub mod Exitcheck
pub mod Logger
pub mod Router
pub mod Server
pub mod Staticlint
mod Tests
