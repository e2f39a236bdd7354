-- ===== src/Job.antt =====
-- job.go, repository.go and errors.go: the job, the requests, the filters and the errors of a
-- repository. Times are nanoseconds, ids are the 128 bits of a uuid as a number, and a payload is
-- the text that `json.Marshal` gives for it, empty where it gives no bytes.
use orderedjob.Prelude.{ℕ, String, Bool, true, false, Option, text_discrete, ite, ◌≡◌, refl}
use orderedjob.Int64.{ℤ}
use orderedjob.Lifecycle
use orderedjob.Lifecycle.{
  Status, unset, blocked, completed, failed, cancelled, expired, dead_lettered,
}

-- The ordering modes; `custom` is any other text, and `no_mode` the empty one.
pub data OrderingMode : Type 0 where
  no_mode strict skip_on_failure dead_letter_and_continue : OrderingMode
  custom : String → OrderingMode

pub record Job : Type 0 where
  pub id : ℕ
  pub chain_id : String
  pub sequence : ℤ
  pub job_type : String
  pub payload : String
  pub idempotency_key : String
  pub tenant_id : String
  pub ordering_mode : OrderingMode
  pub status : Status
  pub attempt : ℤ
  pub max_attempts : ℤ
  pub available_at : ℕ
  pub deadline_at : Option ℕ
  pub worker_id : String
  pub lease_until : Option ℕ
  pub lease_generation : ℤ
  pub last_error : String
  pub created_at : ℕ
  pub updated_at : ℕ
  pub started_at : Option ℕ
  pub completed_at : Option ℕ
  pub failed_at : Option ℕ
  pub trace_id : String

-- `payload` is the text that `json.Marshal` gives for the request's payload, empty where it has an
-- error; `is_marshalled` is whether it has none.
pub record EnqueueRequest : Type 0 where
  pub chain_id : String
  pub sequence : ℤ
  pub job_type : String
  pub payload : String
  pub is_marshalled : Bool
  pub idempotency_key : String
  pub tenant_id : String
  pub trace_id : String
  pub ordering_mode : OrderingMode
  pub max_attempts : ℤ
  pub deadline_at : Option ℕ
  pub available_at : Option ℕ

-- The `switch` of `Job.IsTerminal`, which spells the states out.
unfoldable pub status_is_terminal : Status → Bool
status_is_terminal completed = true
status_is_terminal failed = true
status_is_terminal cancelled = true
status_is_terminal expired = true
status_is_terminal dead_lettered = true
status_is_terminal _ = false

unfoldable pub is_terminal : Job → Bool
unfolding status_is_terminal
is_terminal j = status_is_terminal j.status

pub record JobFilter : Type 0 where
  pub chain_id : String
  pub status : Status
  pub job_type : String
  pub tenant_id : String
  pub trace_id : String
  pub search : String
  pub order_by : String
  pub order_dir : String
  pub offset : ℤ
  pub limit : ℤ
  pub scheduled_only : Bool

pub record ChainFilter : Type 0 where
  pub search : String
  pub order_by : String
  pub order_dir : String
  pub offset : ℤ
  pub limit : ℤ

pub record ChainSummary : Type 0 where
  pub chain_id : String
  pub total_jobs : ℕ
  pub max_sequence : ℤ
  pub pending_jobs : ℕ
  pub failed_jobs : ℕ
  pub latest_status : Status

pub record Stats : Type 0 where
  pub pending : ℕ
  pub blocked : ℕ
  pub processing : ℕ
  pub completed : ℕ
  pub retrying : ℕ
  pub failed : ℕ
  pub dead_lettered : ℕ
  pub cancel_requested : ℕ
  pub cancelled : ℕ
  pub scheduled : ℕ
  pub total : ℕ
  pub active_chains : ℕ

-- What a repository reports. The two gap errors wrap `ErrSequenceGap` with their texts, and
-- `invalid_request` has the index of a request of a batch. `database_error` is also the error of
-- json.Marshal in the SQL repositories.
pub data RepoError : Type 0 where
  not_found lease_conflict duplicate_chain_seq job_not_eligible database_error : RepoError
  chain_id_required job_type_required first_job_gap handler_not_found : RepoError
  missing_predecessor : ℤ → String → RepoError
  invalid_request : ℕ → RepoError → RepoError

pub data Result {ℓ} (A : Type ℓ) : Type ℓ where
  ok : A → Result A
  err : RepoError → Result A

-- `s == ""`
unfoldable pub is_empty : String → Bool
is_empty s = ite (text_discrete s "") true false

-- The two tests for a terminal state, the one on a job and the one on a state, agree on every job.
pub is_terminal_agrees : (j : Job) → is_terminal j ≡ Lifecycle.is_terminal j.status
unfolding is_terminal status_is_terminal Lifecycle.is_terminal
is_terminal_agrees j = on j.status
  where
    on : (s : Status) → status_is_terminal s ≡ Lifecycle.is_terminal s
    on unset = refl
    on blocked = refl
    on _ = refl
