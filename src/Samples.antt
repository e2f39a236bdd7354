-- ===== src/Samples.antt =====
-- Test data: a chain of two jobs, and the states of the repository that running it goes through.
use orderedjob.Prelude.{
  ℕ, ◌≡◌, ◌≢◌, refl, subst, true, false, none, some, [], ◌∷◌, ℕ_discrete, text_discrete,
}
use mathlib.Core.List.{lookup}
use orderedjob.Int64.{pos, ℤ_discrete, max_mag, inc64, dec64, lt64}
use orderedjob.GoMap.{insert, range}
use orderedjob.Lifecycle.{Status-discrete, unset, pending, blocked, processing, failed}
use orderedjob.Job.{Job, EnqueueRequest, JobFilter, ok, no_mode, strict, skip_on_failure, is_empty}
use orderedjob.RetryPolicy.{default_policy}
use orderedjob.Memory.Bulk.{TextOps}
use orderedjob.Engine.{Engine}
use orderedjob.Memory.State.{Repo, new, find_job, find_seq, put_job, is_finished}
use orderedjob.Memory.Enqueue.{
  enqueue, enqueue_single, earlier, find_job_by_idempotency_key, get_max_sequence, greatest,
  validate_and_resolve_sequence, determine_initial_status, payload_bytes, make_job, add_job,
}
use orderedjob.Memory.Claim.{
  claim, choose, candidates, is_candidate, predecessor_finished, before, insert_sorted, sort_jobs,
  candidates_in, is_busy, start_job, next_free,
}
use orderedjob.Memory.Lease.{fail, fenced, holds_lease, failed_job}
use orderedjob.Memory.Reach.{IsSound, new-IsSound}
use orderedjob.Memory.Runs.{Reach, here, next, enqueues, claims, Reach-IsSound}

-- The order in which two mails of one customer go out.
abbrev pub first : EnqueueRequest
first = record {
  chain_id = "customer 7";
  sequence = pos 0;
  job_type = "mail";
  payload = "";
  is_marshalled = true;
  idempotency_key = "welcome";
  tenant_id = "";
  trace_id = "";
  ordering_mode = skip_on_failure;
  max_attempts = pos 0;
  deadline_at = none;
  available_at = none;
}

abbrev pub second : EnqueueRequest
second = record first { idempotency_key = "offer"; ordering_mode = no_mode; sequence = pos 2 }

abbrev pub job1 : Job
job1 = record {
  id = 1;
  chain_id = "customer 7";
  sequence = pos 1;
  job_type = "mail";
  payload = "{}";
  idempotency_key = "welcome";
  tenant_id = "";
  ordering_mode = skip_on_failure;
  status = pending;
  attempt = pos 0;
  max_attempts = pos 5;
  available_at = 10;
  deadline_at = none;
  worker_id = "";
  lease_until = none;
  lease_generation = pos 0;
  last_error = "";
  created_at = 10;
  updated_at = 10;
  started_at = none;
  completed_at = none;
  failed_at = none;
  trace_id = "";
}

abbrev pub job2 : Job
job2 = record job1 {
  id = 2;
  sequence = pos 2;
  idempotency_key = "offer";
  ordering_mode = strict;
  status = blocked;
  available_at = 11;
  created_at = 11;
  updated_at = 11;
}

abbrev pub running1 : Job
running1 = record job1 {
  status = processing;
  worker_id = "w";
  lease_generation = pos 1;
  lease_until = some 80;
  attempt = pos 1;
  started_at = some 20;
  updated_at = 20;
}

abbrev pub one_job : Repo
one_job = record { jobs = (1, job1) ∷ []; chain = ("customer 7", (pos 1, 1) ∷ []) ∷ [] }

abbrev pub two_jobs : Repo
two_jobs = record {
  jobs = (1, job1) ∷ (2, job2) ∷ [];
  chain = ("customer 7", (pos 1, 1) ∷ (pos 2, 2) ∷ []) ∷ [];
}

-- The worker `w` runs the first job.
abbrev pub running : Repo
running = record two_jobs { jobs = (1, running1) ∷ (2, job2) ∷ [] }

pub enqueue-first : enqueue new first 1 10 ≡ (one_job, ok job1)
unfolding enqueue enqueue_single earlier find_job_by_idempotency_key get_max_sequence greatest
    is_empty validate_and_resolve_sequence determine_initial_status payload_bytes make_job add_job
    new text_discrete ℕ_discrete ℤ_discrete lookup inc64 dec64 lt64 find_seq find_job is_finished
    range insert
enqueue-first = refl

pub enqueue-second : enqueue one_job second 2 11 ≡ (two_jobs, ok job2)
unfolding enqueue enqueue_single earlier find_job_by_idempotency_key get_max_sequence greatest
    is_empty validate_and_resolve_sequence determine_initial_status payload_bytes make_job add_job
    insert text_discrete ℕ_discrete ℤ_discrete lookup inc64 dec64 lt64 find_seq find_job is_finished
    Status-discrete range
enqueue-second = refl

pub claim_first : claim two_jobs "w" 60 20 ≡ (running, ok running1)
unfolding claim choose candidates is_candidate predecessor_finished before insert_sorted sort_jobs
    is_busy start_job put_job insert find_job find_seq is_finished next_free text_discrete
    ℕ_discrete ℤ_discrete lookup inc64 dec64 lt64 Status-discrete candidates_in range
claim_first = refl

-- The worker `w` reports that the first job failed for good.
abbrev pub dead1 : Job
dead1 = record running1 {
  status = failed;
  last_error = "no such address";
  updated_at = 30;
  failed_at = some 30;
  lease_until = none;
}

abbrev pub stopped : Repo
stopped = record two_jobs { jobs = (1, dead1) ∷ (2, job2) ∷ [] }

fail_first : fail running 1 "w" (pos 1) "no such address" true 30 ≡ (stopped, ok tt)
unfolding fail fenced holds_lease failed_job put_job insert find_job lookup text_discrete ℕ_discrete
    ℤ_discrete
fail_first = refl

new_room : get_max_sequence new first.chain_id ≢ pos max_mag
unfolding get_max_sequence greatest new lookup text_discrete
new_room = λ e. cc

one_room : get_max_sequence one_job second.chain_id ≢ pos max_mag
unfolding get_max_sequence greatest lookup text_discrete lt64
one_room = λ e. cc

new_empty : (id : ℕ) → find_job new id ≡ none
unfolding find_job new lookup
new_empty id = refl

no_second : find_job one_job 2 ≡ none
unfolding find_job lookup ℕ_discrete
no_second = refl

pub one_job-Reach : Reach new one_job
one_job-Reach =
    subst (λ x. Reach new x.0) enqueue-first
      (next here (enqueues first 1 10 (new_empty 1, new_room)))

pub two_jobs-Reach : Reach new two_jobs
two_jobs-Reach =
    subst (λ x. Reach new x.0) enqueue-second
      (next one_job-Reach (enqueues second 2 11 (no_second, one_room)))

pub running-Reach : Reach new running
running-Reach = subst (λ x. Reach new x.0) claim_first (next two_jobs-Reach (claims "w" 60 20))

pub two_jobs-IsSound : IsSound two_jobs
two_jobs-IsSound = Reach-IsSound two_jobs-Reach new-IsSound

pub running-IsSound : IsSound running
running-IsSound = Reach-IsSound running-Reach new-IsSound

pub one_job-IsSound : IsSound one_job
one_job-IsSound = Reach-IsSound one_job-Reach new-IsSound

-- Text operations that find every text.
abbrev pub all_texts : TextOps
all_texts = record { to_lower = λ t. t; contains = λ t s. true; show_id = λ i. "" }

abbrev pub no_filter : JobFilter
no_filter = record {
  chain_id = "";
  status = unset;
  job_type = "";
  tenant_id = "";
  trace_id = "";
  search = "";
  order_by = "";
  order_dir = "";
  offset = pos 0;
  limit = pos 0;
  scheduled_only = false;
}

-- An engine in the strict mode, without handlers.
abbrev pub strict_engine : Engine
strict_engine = record {
  handlers = [];
  retry_policy = default_policy;
  ordering_mode = strict;
  ordering_strategy = none;
  panic_handler = none;
  retry_on_panic = false;
  draw = λ d. d;
}
