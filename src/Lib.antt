-- ===== src/Lib.antt =====
-- A verification library of orderedjob, a queue that runs the jobs of each chain in order.
--
-- The program. A repository (repository.go) stores jobs; workers claim them under a lease with a
-- generation, run handlers, and report the outcome. The jobs of one chain carry sequences: a job may
-- run when the one before it is done, where a failed one counts as done if its ordering mode goes
-- on. The engine (engine.go) fills in requests, claims, runs handlers and settles their outcomes.
--
-- The files.
-- - Job.antt: job.go, and of repository.go and errors.go what the modelled methods use. Times are
--   nanoseconds, ids the number of a uuid; a payload is the text that json.Marshal gives.
-- - Lifecycle.antt, Lifecycle/Edges.antt: lifecycle/state.go, its table of transitions.
-- - Failure.antt: errors.go and errorsIsCancel of engine.go.
-- - RetryPolicy.antt: retry/policy.go.
-- - Memory/State, Enqueue, Claim, Lease, Admin, Bulk, Query, Listing: the methods of
--   repository/memory/repository.go, with the names of the source: Claim is `claim`, RecoverStale
--   is `recover_stale`. The struct `repo` is the record `Repo` of its two maps; a method is a
--   function of the repository, which the mutex makes one step. time.Now and uuid.New are
--   arguments.
-- - Memory/Evolves, Steps, Index, Resolve, Exclusive, Choice, Claims, Keys, Reach, Runs, Fencing,
--   Progress, Outcomes, Blocking, Recovery, Dlq, Counts, Batch, Listing/Window: their proofs. Runs
--   has the step relation of all methods that change state, and the runs from an empty repository.
-- - Engine.antt: Enqueue, EnqueueBatch and tryClaimAndExecute of engine.go and
--   InjectOTelTraceContext of observability.go, over the memory repository. Calls of metrics and of
--   the listener are a list of effects. Engine/Settling, Endings and Submitting are the proofs.
-- - Engine/Options.antt: New and its options, and lease/lease.go. Engine/Recovery.antt: a tick of
--   recoveryLoop, Schedule and EnqueueDelayed.
-- - Handlers.antt, Handlers/Cases.antt: handler.go.
-- - Sql.antt, Sql/Schema: the statements that the SQL repositories send, as functions on a table, and
--   the table of 001_initial.sql. Sql/Rows, Sorting, Counting are their lemmas; Sql/Order has the
--   invariant `IsLinked` of a table, Sql/Moving and Keeps show what keeps it, and Sql/Exclusive that
--   two running rows of a chain are one.
-- - Postgres/Lease, Claim, Enqueue, Admin, Dlq, Query: repository/postgres/repository.go. A method is a
--   function of the table. Postgres/Steps, Turns, Skips, Inserts, Runs, Fencing, Choice, Earliest, Stale,
--   Keys, Draining, Rounds are the proofs; Runs has the step relation.
-- - SqlServer/Lease, Enqueue, Admin, Dlq, Query: repository/sqlserver/repository.go, with what has the
--   same statement taken from Postgres. SqlServer/Steps, Inserts, Runs, Fencing are the proofs.
-- - Ui.antt, Ui/Auth, Token, Handlers: ui/ui.go and ui/auth.go, over a record `Repository` of the
--   methods that the dashboard calls. Ui/Passing, Access, Signing and Paging are the proofs; Paging fills the
--   record with the repository in memory.
-- - Rill.antt: rill_helpers.go; rill.ForEach is a parameter that runs the items in any order, each one
--   as a step. Rill/Slots, Validation and Parallel are the proofs.
-- - Webhook.antt, Webhook/Sending: webhook.go. A call of a dispatcher is the list of the requests that
--   it sends; encoding/json and net/http are parameters.
-- - Prelude.antt, Int64.antt, GoMap.antt: shared names; int64 with its wrap-around; Go's map as an
--   association list. Samples.antt has test data, Tests.antt and the files under Tests use it.
--
-- Choices. Go ranges over a map in any order: a theorem about a method holds for every order, since
-- it holds for every list of entries, and the step relation can rearrange the entries between
-- methods. A loop over a map is structural recursion on its entries or keys. Sequences, attempts
-- and generations are int64; counts of jobs are natural numbers. Durations are below 2^53
-- nanoseconds and not negative, where the float64 arithmetic of the backoff is exact; its random
-- part is a parameter. A batch is given with the ids and times that its requests would get.
-- `HasRoom` says that a chain has not used up int64.
--
-- Sorting with a `less` that is no strict order, in ListJobs and ListChains, is a parameter.
--
-- A transaction of a SQL repository runs alone: the locks leave no trace but the rows that SKIP LOCKED
-- and READPAST pass over, a parameter. A table is a list of rows in any order; the order of equal rows
-- under ORDER BY is that of the list. NOW() and time.Now are one argument, in nanoseconds; INT columns
-- have no bound, `sequence - 1` in a statement does not wrap round and does not fail, the normal form
-- of jsonb and the rounding of a lease of months to seconds are left out, and texts are compared by
-- their characters. The rounds of a worker are fuel: as many as rows are not completed are enough.
--
-- A request has the values that net/http, encoding/json, strconv and uuid read from it; the parameter
-- `status` is the text of a state or SCHEDULED. Bytes of tokens are texts.
--
-- Not modelled: ListJobs and ListChains of repository/sqlserver; the notifications of
-- repository/postgres; the goroutines, tickers and shutdown of engine.go; events.go; the pages,
-- files and event stream of ui/ui.go; logs and traces. Of the errors that a context or a database
-- raises only those of the modelled statements occur: a violated constraint and a negative LIMIT.
pub mod Prelude
pub mod Int64
pub mod GoMap
pub mod Lifecycle
pub mod Job
pub mod Memory
pub mod Failure
pub mod RetryPolicy
pub mod Handlers
pub mod Engine
pub mod Rill
pub mod Sql
pub mod Postgres
pub mod SqlServer
pub mod Webhook
pub mod Ui
pub mod Samples
pub mod Tests
