-- ===== src/Ui.antt =====
-- ui/ui.go and ui/auth.go: the dashboard's server. A handler is a function of the request on the state
-- of the repository; what net/http, encoding/json and uuid read from a request are its fields.
pub mod Auth
pub mod Token
pub mod Handlers
pub mod Passing
pub mod Access
pub mod Paging
pub mod Signing
use orderedjob.Prelude.{ℕ, String, Bool, Option, List}
use orderedjob.Int64.{ℤ}
use orderedjob.Lifecycle.{Status}
use orderedjob.Job.{
  Job, EnqueueRequest, JobFilter, ChainFilter, ChainSummary, Stats, Result, RepoError,
}

pub data Method : Type 0 where
  get post other_method : Method

-- The parameter `status`: SCHEDULED, or the text of a state, empty for `unset`.
pub data StatusParam : Type 0 where
  all_scheduled : StatusParam
  in_state : Status → StatusParam

-- r.URL.Query(); the numbers are what `strconv.Atoi` gives, 0 where there is none.
pub record Query : Type 0 where
  pub chain_id : String
  pub status : StatusParam
  pub job_type : String
  pub tenant_id : String
  pub trace_id : String
  pub search : String
  pub order_by : String
  pub order_dir : String
  pub page : ℤ
  pub limit : ℤ
  pub scheduled_only : Bool
  pub token : String

-- What a decoder makes of the body, `none` where it fails: the payload of a replay (the empty text
-- where there is none), the time of a reschedule (`none` also for the zero time), a request for a
-- job, and the filter of a bulk method (empty where it fails).
pub record Body : Type 0 where
  pub payload : Option String
  pub available_at : Option ℕ
  pub job : Option EnqueueRequest
  pub filter : JobFilter

-- `parts` is the rest of the path behind `/api/jobs/`, split at `/`; `basic` is r.BasicAuth().
pub record Request : Type 0 where
  pub method : Method
  pub parts : List String
  pub query : Query
  pub body : Body
  pub basic : Option (String × String)
  pub authorization : String

pub data Reply : Type 0 where
  plain : String → Reply
  refused : String → Reply
  failed : RepoError → Reply
  type_names : List String → Reply
  of_stats : Stats → Reply
  of_job : Job → Reply
  of_jobs : List Job → ℕ → ℤ → ℤ → ℕ → Reply
  of_chains : List ChainSummary → ℕ → ℤ → ℤ → ℕ → Reply
  done : ℕ → String → Reply
  moved : ℕ → Job → Reply
  affected : ℕ → Reply

-- The code and the body of a response.
abbrev pub Response : Type 0
Response = ℕ × Reply

-- A handler; it answers `none` where it panics.
abbrev pub Handler : Type 0 → Type 0
Handler S = Request → S → S × Option Response

-- The methods of orderedjob.Repository that the dashboard calls, on a state `S`. A query answers
-- `none` where it panics.
pub record Repository (S : Type 0) : Type 0 where
  pub get_stats : S → Result Stats
  pub list_jobs : S → JobFilter → Option (Result (List Job × ℕ))
  pub list_chains : S → ChainFilter → Option (Result (List ChainSummary × ℕ))
  pub get_job : S → ℕ → Result Job
  pub enqueue : S → EnqueueRequest → S × Result Job
  pub replay_job : S → ℕ → S × Result (Unit {0})
  pub replay_job_with_payload : S → ℕ → String → S × Result (Unit {0})
  pub skip_job : S → ℕ → S × Result (Unit {0})
  pub request_cancel : S → ℕ → S × Result (Unit {0})
  pub reschedule_job : S → ℕ → ℕ → S × Result Job
  pub bulk_replay_dlq : S → JobFilter → S × Result ℕ
  pub bulk_skip_dlq : S → JobFilter → S × Result ℕ
  pub bulk_purge_dlq : S → JobFilter → S × Result ℕ
