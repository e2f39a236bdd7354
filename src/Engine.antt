-- ===== src/Engine.antt =====
-- engine.go: the engine around the memory repository: how it fills in a request, and what it does
-- with a claimed job. Metrics, events and wake-ups are listed as effects; the logs are left out.
pub mod Settling
pub mod Endings
pub mod Submitting
pub mod Options
pub mod Recovery
use Prim.Native.String.{◌++◌}
use orderedjob.Prelude.{
  ℕ, String, Bool, true, false, ◌||◌, not, ite, Option, none, some, List, [], ◌∷◌, text_discrete,
  if◌then◌else◌, ◌+◌,
}
use orderedjob.Int64.{ℤ, lt64}
use orderedjob.GoMap.{GoMap, get, insert}
use orderedjob.Job.{
  Job, EnqueueRequest, Result, ok, err, RepoError, lease_conflict, job_type_required,
  chain_id_required, OrderingMode, no_mode, strict, skip_on_failure, dead_letter_and_continue,
  custom, is_empty,
}
use orderedjob.Failure.{
  Failure, text, panicked, retryable, non_retryable, is_non_retryable, errors_is_cancel,
}
use orderedjob.RetryPolicy.{Policy, should_retry, backoff}
use orderedjob.Memory.State.{Repo}
use orderedjob.Memory.Enqueue.{enqueue, enqueue_batch}
use orderedjob.Memory.Claim.{claim}
use orderedjob.Memory.Lease.{complete, fail, retry}
use orderedjob.Memory.Admin.{request_cancel, promote_next}

-- What `Handle` does: it returns, or panics with a value, given as the text of its `PanicError`.
pub data Outcome : Type 0 where
  returned : Option Failure → Outcome
  panics : String → Outcome

-- The fields of Engine that the modelled methods read.
pub record Engine : Type 0 where
  pub handlers : GoMap String (Job → Outcome)
  pub retry_policy : Policy
  pub ordering_mode : OrderingMode
  pub ordering_strategy : Option (EnqueueRequest → OrderingMode)
  pub panic_handler : Option (Job → String → Option Failure)
  pub retry_on_panic : Bool
  -- what a random part of a delay truncates to
  pub draw : ℕ → ℕ

-- Calls of the metrics and of the event listener, and wake-ups through `notifyCh`.
pub data Effect : Type 0 where
  inc_completed inc_failed inc_retry : String → Effect
  inc_panics : String → Effect
  inc_claim_conflicts inc_blocked_chain : Effect
  on_job_failed : Job → Option Failure → Effect
  on_chain_blocked : String → Job → Effect
  notify : String → Effect

abbrev pub or_mode : OrderingMode → OrderingMode → OrderingMode
or_mode no_mode m = m
or_mode m _ = m

abbrev pub strategy_mode : Option (EnqueueRequest → OrderingMode) → EnqueueRequest → OrderingMode
strategy_mode none req = no_mode
strategy_mode (some resolve) req = resolve req

-- The mode of a request, of the strategy, of the engine, or the strict one.
unfoldable pub resolve_mode : Engine → EnqueueRequest → OrderingMode
resolve_mode e req =
    or_mode req.ordering_mode
      (or_mode (strategy_mode e.ordering_strategy req) (or_mode e.ordering_mode strict))

abbrev pub or_context : Option String → String → String
or_context (some span) from_context = span
or_context none from_context = from_context

-- InjectOTelTraceContext: `span` is the trace id of a valid span of the context, and
-- `from_context` the one that WithTraceID left there, empty if none did.
unfoldable pub inject_trace : Option String → String → EnqueueRequest → EnqueueRequest
inject_trace span from_context req =
    if is_empty req.trace_id then record req { trace_id = or_context span from_context } else req

-- A request with its mode and its trace id filled in.
unfoldable pub prepare : Engine → Option String → String → EnqueueRequest → EnqueueRequest
prepare e span from_context req =
    inject_trace span from_context (record req { ordering_mode = resolve_mode e req })

-- Enqueue
unfoldable pub engine_enqueue :
    Engine → Repo → Option String → String → EnqueueRequest → ℕ → ℕ → Repo × Result Job
engine_enqueue e r span from_context req id now =
    if is_empty req.job_type
    then (r, err job_type_required)
    else if is_empty req.chain_id
    then (r, err chain_id_required)
    else enqueue r (prepare e span from_context req) id now

-- EnqueueBatch
abbrev pub prepare_all :
    Engine → Option String → String → List (EnqueueRequest × ℕ × ℕ) → List (EnqueueRequest × ℕ × ℕ)
prepare_all e span from_context [] = []
prepare_all e span from_context ((req, id, now) ∷ rest) =
    (prepare e span from_context req, id, now) ∷ prepare_all e span from_context rest

unfoldable pub engine_enqueue_batch :
    Engine
    → Repo
    → Option String
    → String
    → List (EnqueueRequest × ℕ × ℕ)
    → Repo × Result (List Job)
engine_enqueue_batch e r span from_context reqs =
    enqueue_batch r (prepare_all e span from_context reqs)

abbrev pub from_panic :
    Engine → Job → String → Option (Job → String → Option Failure) → Option Failure
from_panic e j t (some handle) = handle j t
from_panic e j t none =
    if e.retry_on_panic then retryable (some (panicked t)) else non_retryable (some (panicked t))

-- `execErr`, with the deferred recover
unfoldable pub exec_error : Engine → Job → Outcome → Option Failure
exec_error e j (returned f) = f
exec_error e j (panics t) = from_panic e j t e.panic_handler

abbrev pub panic_effects : Job → Outcome → List Effect → List Effect
panic_effects j (returned f) effects = effects
panic_effects j (panics t) effects = inc_panics j.job_type ∷ effects

-- What follows Complete.
abbrev pub completed_effects : Job → Result (Unit {0}) → List Effect
completed_effects j (ok _) = inc_completed j.job_type ∷ notify j.chain_id ∷ []
completed_effects j (err lease_conflict) = inc_claim_conflicts ∷ []
completed_effects j (err _) = []

-- The condition of a terminal failure.
unfoldable pub is_final : Engine → Job → Failure → Bool
is_final e j f =
    is_non_retryable (some f)
    || (not (lt64 j.attempt j.max_attempts) || not (should_retry e.retry_policy j.attempt))

abbrev pub goes_on : OrderingMode → Bool
goes_on skip_on_failure = true
goes_on dead_letter_and_continue = true
goes_on _ = false

abbrev pub blocked_effects : Job → OrderingMode → List Effect
blocked_effects j strict = inc_blocked_chain ∷ on_chain_blocked j.chain_id j ∷ []
blocked_effects j skip_on_failure = notify j.chain_id ∷ []
blocked_effects j dead_letter_and_continue = notify j.chain_id ∷ []
blocked_effects j _ = []

-- `mode` in the branch of a terminal failure
unfoldable pub failure_mode : Engine → Job → OrderingMode
failure_mode e j = or_mode j.ordering_mode (or_mode e.ordering_mode strict)

-- the branch of a terminal failure
unfoldable pub bury : Engine → Repo → Job → String → Failure → ℕ → Repo × List Effect
bury e r j worker f now =
    let r' = (fail r j.id worker j.lease_generation (text f) true now).0 in
    (
      if goes_on (failure_mode e j) then promote_next r' j.chain_id j.sequence now else r',
      inc_failed j.job_type ∷ on_job_failed j (some f) ∷ blocked_effects j (failure_mode e j),
    )

-- the branch of a retry
unfoldable pub put_back : Engine → Repo → Job → String → Failure → ℕ → Repo × List Effect
put_back e r j worker f now = (
  (retry r j.id worker j.lease_generation (text f) (now + backoff e.draw e.retry_policy j.attempt)
      now).0,
  inc_retry j.job_type ∷ [],
)

-- what a failed attempt leads to: a cancellation is requested first
unfoldable pub settle_failure : Engine → Repo → Job → String → Failure → ℕ → Repo × List Effect
settle_failure e r j worker f now =
    let r' = if errors_is_cancel (some f) then (request_cancel r j.id now).0 else r in
    if is_final e j f then bury e r' j worker f now else put_back e r' j worker f now

-- tryClaimAndExecute after the handler, on the state that it finds then
unfoldable pub settle : Engine → Repo → Job → String → Option Failure → ℕ → Repo × List Effect
settle e r j worker none now =
    let (r', result) = complete r j.id worker j.lease_generation now in
    (r', completed_effects j result)
settle e r j worker (some f) now = settle_failure e r j worker f now

-- MustGet failed: a terminal failure of the job
unfoldable pub no_handler : Repo → Job → String → ℕ → Repo × List Effect
no_handler r j worker now = (
  (fail r j.id worker j.lease_generation ("handler not found: " ++ j.job_type) true now).0,
  inc_failed j.job_type ∷ [],
)

abbrev pub run_with : Engine → Repo → Job → String → ℕ → Option (Job → Outcome) → Repo × List Effect
run_with e r j worker now none = no_handler r j worker now
run_with e r j worker now (some handle) =
    let (r', effects) = settle e r j worker (exec_error e j (handle j)) now in
    (r', panic_effects j (handle j) effects)

-- tryClaimAndExecute after the claim. While the handler runs, others use the repository: `r` is
-- the state at its end.
unfoldable pub execute : Engine → Repo → Job → String → ℕ → Repo × List Effect
execute e r j worker now = run_with e r j worker now (get text_discrete j.job_type e.handlers)
