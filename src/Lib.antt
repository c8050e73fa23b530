-- ===== src/Lib.antt =====
-- Verification of the workflow service: tenants define workflows, graphs of nodes, and run them
-- synchronously, through a job queue, or across approvals by people.
--
-- The parts, and the files here that model them:
-- - Workflow: definitions and their validation (internal/workflow/service.go). Workflow/Egress is the
--   policy for targets of http_tool nodes (internal/platform/egress/policy.go), Workflow/Validate
--   follows `ValidateDefinition` loop by loop, Workflow/Service has the repository and the service.
-- - Tenant: internal/tenant/service.go, and in Tenant/Controls the rate limits and idempotency records
--   of internal/tenant/controls.go.
-- - Auth: API keys and `Authenticate` (internal/auth/service.go).
-- - Bootstrap: the API keys of the environment (internal/platform/config/bootstrap.go), and in
--   Bootstrap/Repositories the repositories made of them (internal/platform/bootstrap/repositories.go).
-- - Bootstrap/Config: the configuration (internal/platform/config/config.go).
-- - Health: the reports of internal/platform/health/service.go, served by Api/Health.
-- - Documents: documents, their chunks and the service (internal/documents/service.go).
-- - Audit: the events of a run (internal/audit/service.go).
-- - Executor: internal/executor. Executor/Graph is graph.go; Executor/Engine is the loop of engine.go,
--   with Executor/Nodes for the nodes of each type (nodes.go), Executor/Config for helpers.go,
--   Executor/Steps for single steps and Executor/Queue for the queue of node ids; Executor/Repository
--   is the in-memory repository of service.go; Executor/Service has `executeRun`, and below it Sync
--   (`ExecuteSync`), Async (async.go) and Resume (`ResumeApproval`); Executor/Triggers applies the
--   tenant controls; Executor/Jobs is the queue of jobs (internal/worker/memory_queue.go).
-- - Worker: internal/worker/service.go, which processes the jobs of the queue. Worker/Redis is the
--   queue in Redis (internal/worker/redis_queue.go): Reader is its buffered connection, Wire the
--   protocol on bytes, and Queue the operations.
-- - Api: the handlers of internal/api/server.go on decoded requests. Api/Server has the routes and the
--   authentication, Api/Errors the mapping of errors, Api/Trigger `handleExecuteWorkflow`, and
--   Api/Uploads, Api/Flows and Api/Runs the other handlers. Api/Access, Api/Shown and Api/Invariant are
--   about whole requests.
-- - Main: the server of cmd/api/main.go with its worker, and the states that it goes through.
-- - Base: what these share. Samples: data for the examples.
--
-- How state and effects are modelled. A service's state is a record that its operations take and
-- return: `System` has the repositories, the queue and the `World` of audit journal, ids and clock
-- readings. A method that holds a mutex is one step. An error is a constructor of the component's
-- error type, and so are messages and field paths of validation errors; the texts that are stored
-- in runs are written out. Ids and times come from `Sources`, arbitrary functions that are asked
-- the n-th time; a time is a number of nanoseconds, 0 the zero time. Tracing and logging are left
-- out.
--
-- Maps are association lists with one entry for each key. Where Go ranges over a map the order is
-- the one of insertion; of the results modelled, only the order of validation errors and the
-- value of a header that is configured in two spellings depend on it. A nil map is the empty map, and copying a map or slice is the identity, since a value is
-- never changed in place. A text is a sequence of code points; lowering and raising of case is
-- exact for comparisons with ASCII texts, which are the only ones made.
--
-- Parameters stand for code outside the repository: `url.Parse`, the classes of addresses, the
-- clients of the language model and of HTTP, and functions of the standard library, of which the
-- comments on `Platform`, `Env`, `Services` and `Environment` give the list. The retrieval of documents
-- is a field of `Env` too, which Executor/Nodes/Retrieval fills in; the other theorems hold for any of
-- them. The Redis server is a parameter too: what each read of the connection gives, of
-- which the 4096 bytes of `bufio.Reader` are buffered.
--
-- The loop of the engine runs on fuel, one more than the graph has nodes. This is enough since each
-- round that goes on executes a node of the graph that was not executed before. The loop
-- of `promoteDueJobs` takes its fuel as an argument; how often it runs depends on the
-- server and on other workers, so that no fuel is said to be enough. All other recursion is structural.
--
-- Not modelled: the matching of paths, the encoding of bodies and the logging of the HTTP API, the
-- deadlines of contexts and their waiting beyond the error of a full queue, the dialling of the health
-- checks, the stores of document contents, the Postgres repositories, the benchmark, the command of
-- the worker alone, and the shutdown of the server.
mod Base
pub mod Tenant
pub mod Workflow
pub mod Audit
pub mod Executor
pub mod Worker
pub mod Samples
pub mod Auth
pub mod Bootstrap
pub mod Documents
pub mod Api
pub mod Health
pub mod Main
