-- ===== src/Lib.antt =====
-- A model of agentic-delegator, a service that takes coding tasks over HTTP, runs each in a Docker
-- container with a GitHub token and the user's Anthropic key, and keeps the jobs in a database.
--
-- The parts, and the files that model them (paths are from the repository's root):
--   * Domain: the entities and sentinel errors of core/domain. A job moves between five states;
--     Domain/Job/Lifecycle says which sequences of method calls there are.
--   * Ports: the interfaces of core/usecase/ports as records of operations over a world. What their
--     comments promise is a contract (JobsContract, KeysContract, SecretsContract) that the use
--     cases rely on.
--   * Usecase: core/usecase, each Execute as a do block with the guards and early returns of the
--     source. Theorems on what one does to the jobs table stand in its Effect module, over any
--     repository that keeps the contract. Usecase/Concurrent is a system of goroutines over one
--     jobs table, whose steps are the repository's calls and the methods of a job; Sound and Kept
--     are about its interleavings, and Follows relates the runs of the use cases to its steps.
--   * Testutil: the in-memory adapters of core/testutil as implementations of the ports; World
--     wires the use cases over them.
--   * Adapter: core/adapter and the wrappers of cmd/agentic-delegator/main.go. Crypto and Secrets
--     encrypt what is stored; Keyhash and Resolver turn a bearer key into a user, and Sessions a
--     cookie; Docker builds the command line of a container, starts and supervises it; Ghapp takes
--     the webhooks and the installations of the GitHub App; Oauth signs users in; Idgen makes
--     identifiers; Webhook sends the completion webhook; Http holds the handlers, the pages and the
--     router, and Http/Router what requests are shown and what they do to the jobs.
--   * Adapter/Postgres: the repositories of core/adapter/postgres over a table with a key. Table is
--     what they ask of the database, and IsTable what SQL promises of it, errors included;
--     Table/Memory is a table that keeps the promises, and Table/World a table beside others.
--   * Cmd: cmd/agentic-delegator/main.go. Platform is what the program stands on: the tables, the
--     machine and the libraries; Serve wires all parts over it, up to the HTTP server; Startup looks
--     after the jobs of an earlier run; Migrate and Routes are the commands and the mounted routes.
--   * Config: core/config, the settings read from the environment, and the check before serving.
--   * Go: what is used of Go's standard library: maps, sorting by time, path/filepath, strings,
--     encoding/hex and base32, numbers in decimal.
--   * Prelude and Exec: shared names, lists and tests; results, and functions that act on a world.
--   * Tests: the theorems at concrete inputs.
--
-- How the code is read. A Go function that returns (T, error) and has effects is a function from a
-- world to a result and a world; what was written before an error stays written. Contexts are left
-- out. Strings and byte slices are texts; a time or a duration is a number of nanoseconds, and
-- Go's zero time is 0. A row is read back as it was written: the times that are stored are taken to
-- be whole microseconds, which TIMESTAMPTZ columns hold, and the JSON of an installation's repos to
-- be spelled as its JSONB column spells it, so that rounding and spelling anew are not modelled.
-- Go's int is an integer without bounds where it is compared with 0, and counts are natural
-- numbers: they count rows. A string type with named constants is an enumeration
-- with one more case for any other text. A Go map is the list of its values (Go/Map), whose loop
-- order is that of the list. A mutex makes each call of an in-memory adapter one step.
--
-- The theorems of the Effect modules take the calls of a use case as one sequence of steps: the
-- hypothesis `Quiet` says of the ports other than the table that their calls leave the table alone,
-- so that a container that reports while its start is being recorded is outside them. The modules of
-- Usecase/Concurrent and Http/Router/Served allow steps of other goroutines within those calls: a
-- world is seen as the jobs table and the copies of jobs that other goroutines hold, and the
-- hypothesis `Follows` says that from any system with that table, and with those copies among its
-- own, both go on by steps of the system. So a copy that was read before a call may be written
-- within it. Nothing runs within a call of the jobs repository itself (`SharedJobs`): it is one
-- step, since the database makes each statement atomic, and the use cases hold no transaction
-- between two of them. The Race modules show what a use case overwrites.
--
-- Bounds and fuel: only Go/Decimal recurs on fuel; it is one more than the number itself, which is
-- at least the number of its digits. The webhook's loop has its three attempts as a number that
-- goes down.
--
-- Not modelled: third-party code and the machine (AES-GCM, HMAC, bcrypt, strconv and JSON coding,
-- ghinstallation, random bytes, the docker command, the file system, HTTP clients), which are
-- parameters, with what is relied on as hypotheses; the SQL that a library builds and runs, which
-- is a table with its laws; the choice of a route and the templates, which belong to libraries or
-- are generated; the HTTP server, its timeouts and its shutdown; scripts and deployment.
pub mod Prelude
pub mod Exec
pub mod Domain
pub mod Ports
pub mod Go
pub mod Usecase
pub mod Testutil
pub mod Adapter
pub mod Config
pub mod Cmd
mod Tests
