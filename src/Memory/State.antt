-- ===== src/Memory/State.antt =====
-- repository/memory/repository.go: the repository's two maps, and how the methods read and write
-- them. The mutex makes each method one step.
use orderedjob.Prelude.{
  ℕ, String, ◌≡◌, refl, Bool, false, true, ◌&&◌, ◌||◌, ite, Option, none, some, [], ℕ_discrete,
  text_discrete,
}
use orderedjob.Int64.{ℤ, pos, ℤ_discrete}
use orderedjob.GoMap.{GoMap, get, insert, get-insert}
use orderedjob.Lifecycle.{unset, completed, failed, dead_lettered, same}
use orderedjob.Job.{
  Job, Result, ok, err, not_found, OrderingMode, no_mode, skip_on_failure, dead_letter_and_continue,
}

-- `chain` is the index from a chain and a sequence to the id.
pub record Repo : Type 0 where
  pub jobs : GoMap ℕ Job
  pub chain : GoMap String (GoMap ℤ ℕ)

unfoldable pub new : Repo
new = record { jobs = []; chain = [] }

-- r.jobs[id]
unfoldable pub find_job : Repo → ℕ → Option Job
find_job r id = get ℕ_discrete id r.jobs

abbrev pub find_in : Option (GoMap ℤ ℕ) → ℤ → Option ℕ
find_in none seq = none
find_in (some m) seq = get ℤ_discrete seq m

-- r.chain[chain][seq]
unfoldable pub find_seq : Repo → String → ℤ → Option ℕ
find_seq r chain seq = find_in (get text_discrete chain r.chain) seq

-- r.jobs[id] = j
unfoldable pub put_job : Repo → ℕ → Job → Repo
put_job r id j = record r { jobs = insert ℕ_discrete id j r.jobs }

-- orderedjob.Job{}, which a read of a missing key gives.
abbrev pub zero_job : Job
zero_job = record {
  id = 0;
  chain_id = "";
  sequence = pos 0;
  job_type = "";
  payload = "";
  idempotency_key = "";
  tenant_id = "";
  ordering_mode = no_mode;
  status = unset;
  attempt = pos 0;
  max_attempts = pos 0;
  available_at = 0;
  deadline_at = none;
  worker_id = "";
  lease_until = none;
  lease_generation = pos 0;
  last_error = "";
  created_at = 0;
  updated_at = 0;
  started_at = none;
  completed_at = none;
  failed_at = none;
  trace_id = "";
}

abbrev pub or_zero : Option Job → Job
or_zero none = zero_job
or_zero (some j) = j

abbrev pub continues : OrderingMode → Bool
continues skip_on_failure = true
continues dead_letter_and_continue = true
continues _ = false

-- `isPredFinished`: the job no longer holds back the next one of its chain.
unfoldable pub is_finished : Job → Bool
is_finished j =
    same j.status completed
    || ((same j.status failed || same j.status dead_lettered) && continues j.ordering_mode)

pub find_job-put :
    (r : Repo) (k id : ℕ) (j : Job)
    → find_job (put_job r k j) id ≡ ite (ℕ_discrete k id) (some j) (find_job r id)
unfolding find_job put_job
find_job-put r k id j = get-insert ℕ_discrete k id j r.jobs

pub find_seq-put :
    (r : Repo) (k : ℕ) (j : Job) (c : String) (s : ℤ)
    → find_seq (put_job r k j) c s ≡ find_seq r c s
unfolding find_seq put_job
find_seq-put r k j c s = refl

-- Get
unfoldable pub get_job : Repo → ℕ → Result Job
get_job r id = elim (find_job r id) [ none ↦ err not_found | some j ↦ ok j ]

abbrev pub job_at : Repo → Option ℕ → Result Job
job_at r none = err not_found
job_at r (some id) = ok (or_zero (find_job r id))

-- GetByChainSeq
unfoldable pub get_by_chain_seq : Repo → String → ℤ → Result Job
get_by_chain_seq r chain seq = job_at r (find_seq r chain seq)
