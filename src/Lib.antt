-- ===== src/Lib.antt =====
-- austro-os: the execution runtime, the creator pipeline, publications, tasks, access, configuration and the rate limiter.
--
-- austro-os runs AI employees for workspaces. An execution is admitted under an idempotency key and a capacity
-- (internal/execution/service.go), stored in PostgreSQL (infrastructure/postgres/executions.go), claimed under a lease and
-- published by a dispatcher (internal/execution/dispatcher.go), and run by a worker that heartbeats the lease and settles the
-- execution (internal/execution/worker.go). A content pipeline goes from research to script, review and publish, with a human
-- approval at the review (internal/orchestration, infrastructure/postgres/pipelines.go), and its commands draw on a budget
-- for each workspace (internal/security/throttle.go). A finished piece goes out as a publication, which a human approves first
-- (internal/publish, infrastructure/postgres/publications.go). Every request of the HTTP API passes the rules of internal/authz and
-- internal/rbac with the claims of its token; a session goes on by refresh tokens (internal/auth/auth.go).
--
-- Common: results, lists, text and integers. A Go string is the list of its bytes (Text); ids are numbers with 0 for
-- uuid.Nil; a time and a duration are a number of nanoseconds.
--
-- Execution.Types, Execution.Classify, Execution.Backoff: internal/execution/execution.go and retrypolicy.go. Go's error
-- values are a data type over which errors.Is and errors.As walk. The two functions of the retry policy work on the bit
-- patterns of an int64, with its wrap-around.
--
-- Execution.Store: the tables and one function for each transaction of infrastructure/postgres/executions.go, from the tables
-- and what the database supplies (NOW(), new ids) to the result and the tables. A failed transaction rolls back. The WHERE
-- clauses, the unique indexes, the CHECKs and the NOT NULL columns that decide what a transaction does are written out, those of
-- infrastructure/database/database.go included. Each transaction is one step, as its row locks and the advisory lock of the
-- admission make it; a reachable state is what any sequence of steps makes of empty tables. The deletion of a task,
-- which takes the task from its executions by a foreign key, is a step as well. Tables, Lease, Writes, Unfenced and Admission
-- hold the definitions, Reach the steps; Counts, Lockstep, Preserve, Requeue and Admit prove the invariant of the tables,
-- Evolve, Lifecycle and Fencing what a row may do, Capacity and Claiming the rest. A transaction that fails on the connection
-- changes nothing and is left out there.
--
-- Execution.Io, Execution.Dispatcher, Execution.Worker, Execution.Service: the processes. A process is a sequence of calls; at
-- each call the database may be out of reach, and before it other processes may have changed the tables in any way
-- (Surroundings). Io.Hoare has the rules for assertions about such runs. The loop of recoverStale runs on a number of rounds;
-- Dispatcher.Termination shows that one more than the running executions are enough when nobody else writes. In the worker the
-- heartbeat's goroutine is the number of its ticks in the course of the provider's call, and the provider, the JSON encoder and
-- the order of deadline and cancellation are parameters (Provider). The fingerprint of a request, SHA-256 of its JSON, is a
-- parameter of admission. Tickers, logging and process start are left out.
--
-- Orchestration: internal/orchestration/pipeline.go (Pipeline), infrastructure/postgres/pipelines.go (Store),
-- internal/orchestration/service.go (Service, Advance, Commands) and handler.go (Commands). The ports of the stages, the
-- publication port, the event sink and the failures of the store are parameters by the number of the call. World keeps the
-- rows, the events, the audit records and the pipelines that were handed to a publisher. Approval and its children are about
-- the human approval.
--
-- Task: internal/task/task.go (Lifecycle) and service.go over infrastructure/postgres/tasks.go (Service); Follows, Statuses and
-- Overwrites are about the status column, without and with other processes.
--
-- Task.Listing: internal/task/list.go and ListPage of service.go and infrastructure/postgres/tasks.go; the rows are a list in any
-- order, which the query selects from and sorts. Decimal is strconv, Cursors the round trip of a cursor, Order the sort, Pages and
-- Walk a client's way through the pages, on a number of pages that the length of the listing bounds. The text of a UUID is a
-- parameter.
--
-- Publishing: internal/publish/publish.go (Lifecycle), infrastructure/postgres/publications.go (Store), internal/publish/service.go
-- (Create, Service). The rows are a list; the platform's answers, the failures of the store and what other processes write before
-- each call of it are parameters (Surroundings). World keeps the publications that were handed to the publisher. Approval and its
-- children are about the human approval, Overwrites about decisions on an older read.
--
-- Access: internal/rbac/rbac.go (Roles, Declared, Implemented, Permissions) and internal/authz/authz.go (Authorizer), with the check
-- of a token's claims. The rules and the permissions are the tables of the source, and what is said of every rule is checked by
-- evaluation: Tables compares rules and permissions, RuleChecks and Isolation are about workspaces and decisions. Routes
-- (internal/api/routes.go) and Requests (RequireAuth of internal/api/middleware.go, BearerClaims and VerifyAccessToken of internal/auth/auth.go, isPublicEndpoint
-- and authzMiddleware of main.go) are the way of a request to its handler; the library that parses a signed token is a parameter.
-- Surface compares routes and rules, PublicPaths and Served say with which claims a request gets through.
--
-- Sessions: the in-memory store of refresh tokens (Table) and their rotation (Refresh) of internal/auth/auth.go. Each method of the
-- store holds its lock and is one step; between two calls other requests may change the table. The table is a list in the order in
-- which a loop over the map meets it. Signing, SHA-256 and the random ids are parameters. Records and Spent prove that a token stays
-- used up, Rotation and Reuse what a refresh leaves; Deletion, Candidates and Bound are about the size of the table.
--
-- Security.Throttle: internal/security/throttle.go, for keys of any type. A call is one step, as the mutex makes it.
--
-- Config: validateBackends and the role, the dispatch mode and the companions of internal/config/config.go (Settings, Roles,
-- Backends). The names that a check would report are a list; which texts time.ParseDuration takes is a parameter. Accepted,
-- Checks and Deployment are about the settings that pass.
--
-- Examples: the theorems at concrete inputs.
--
-- Not modelled: the handlers' JSON, the issue of access tokens, passwords and user records, the listings without bounds, the rest
-- of the configuration (the addresses, which net/url and the address parsers take apart, and the loading), the brokers, the
-- providers' and the platforms' clients, audit storage, the database's bootstrap and the web interface.
pub mod Common
pub mod Execution
pub mod Access
pub mod Sessions
pub mod Publishing
pub mod Security
pub mod Task
pub mod Orchestration
pub mod Config
mod Examples
