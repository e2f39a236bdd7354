-- ===== src/Engine/Settling.antt =====
-- What tryClaimAndExecute of engine.go does to the repository when a handler ends.
use orderedjob.Prelude.{
  ℕ, ◌≤◌, String, ◌≡◌, ◌⊎◌, refl, sym, ◌∙◌, ap, subst, true, false, Option, none, some, arith, ite,
  ℕ_discrete, text_discrete, Bool-cases, inl, inr, if◌then◌else◌, ◌+◌,
}
use orderedjob.Int64.{inc64, lt64, InRange}
use orderedjob.GoMap.{get}
use orderedjob.Lifecycle.{processing, blocked}
use orderedjob.Job.{Job, skip_on_failure, dead_letter_and_continue}
use orderedjob.Failure.{Failure, is_non_retryable, text, errors_is_cancel}
use orderedjob.RetryPolicy.{backoff, should_retry}
use orderedjob.Memory.State.{Repo, find_job, find_seq, find_job-put}
use orderedjob.Memory.Lease.{fail, retry, fenced, holds_lease, retrying_job}
use orderedjob.Memory.Admin.{request_cancel, promote_next}
use orderedjob.Memory.Index.{IsIndexed}
use orderedjob.Memory.Exclusive.{IsExclusive}
use orderedjob.Memory.Progress.{IsOpened}
use orderedjob.Memory.Outcomes.{complete_opens_next, fail_opens_next}
use orderedjob.Memory.Runs.{Reach, here, next, completes, fails, retries, cancels, promotes}
use orderedjob.Engine.{
  Engine, Outcome, settle, settle_failure, bury, put_back, is_final, goes_on, failure_mode,
  exec_error, execute, run_with, no_handler,
}

bury-Reach :
    (e : Engine) (r s : Repo) (j : Job) (worker : String) (f : Failure) (now : ℕ)
    → Reach r s
    → Reach r (bury e s j worker f now).0
unfolding bury
bury-Reach e r s j worker f now p =
    let failing = next p (fails j.id worker j.lease_generation (text f) true now) in
    elim (Bool-cases (goes_on (failure_mode e j))) [
      | inl b ↦ rw b (next failing (promotes j.chain_id j.sequence now))
      | inr b ↦ rw b failing
    ]

settle_failure-Reach :
    (e : Engine) (r : Repo) (j : Job) (worker : String) (f : Failure) (now : ℕ)
    → Reach r (settle_failure e r j worker f now).0
unfolding settle_failure put_back
settle_failure-Reach e r j worker f now = elim (Bool-cases (errors_is_cancel (some f))) [
  | inl b ↦ rw b (after _ (next here (cancels j.id now)))
  | inr b ↦ rw b (after r here)
]
  where
    after :
        (s : Repo)
        → Reach r s
        → Reach r
            (if is_final e j f then bury e s j worker f now else put_back e s j worker f now).0
    after s p = elim (Bool-cases (is_final e j f)) [
      | inl b ↦ rw b (bury-Reach e r s j worker f now p)
      | inr b ↦ rw b (next p (retries j.id worker j.lease_generation (text f) _ now))
    ]

-- Whatever a handler does, the engine only takes steps of the repository after it: what holds
-- after every run holds with engines as well.
pub execute-Reach :
    (e : Engine) (r : Repo) (j : Job) (worker : String) (now : ℕ)
    → Reach r (execute e r j worker now).0
unfolding execute settle no_handler
execute-Reach e r j worker now = at (get text_discrete j.job_type e.handlers)
  where
    ended : (o : Option Failure) → Reach r (settle e r j worker o now).0
    ended none = next here (completes j.id worker j.lease_generation now)
    ended (some f) = settle_failure-Reach e r j worker f now

    at : (h : Option (Job → Outcome)) → Reach r (run_with e r j worker now h).0
    at none = next here (fails j.id worker j.lease_generation _ true now)
    at (some handle) = ended (exec_error e j (handle j))

-- An attempt that is not tried again: the error says so, or the attempts of the job or of the policy
-- are used up.
abbrev pub IsFinal : Engine → Job → Failure → Type 0
IsFinal e j f =
    (is_non_retryable (some f) ≡ true)
    ⊎ ((lt64 j.attempt j.max_attempts ≡ false)
        ⊎ (lt64 j.attempt e.retry_policy.max_attempts ≡ false))

IsFinal-is_final : (e : Engine) (j : Job) (f : Failure) → IsFinal e j f → is_final e j f ≡ true
unfolding is_final should_retry
IsFinal-is_final e j f (inl a) = ground arith
IsFinal-is_final e j f (inr (inl a)) = ground arith
IsFinal-is_final e j f (inr (inr a)) = ground arith

-- `copy` is what the claim gave the worker for the stored job `cur`, whose lease it still holds.
pub record IsCopy (copy cur : Job) (worker : String) : Type 0 where
  pub same_chain : cur.chain_id ≡ copy.chain_id
  pub same_sequence : cur.sequence ≡ copy.sequence
  pub same_mode : cur.ordering_mode ≡ copy.ordering_mode
  pub same_generation : cur.lease_generation ≡ copy.lease_generation
  pub same_worker : cur.worker_id ≡ worker

running-request_cancel :
    (r : Repo) (id now : ℕ) (j : Job)
    → find_job r id ≡ some j
    → j.status ≡ processing
    → (request_cancel r id now).0 ≡ r
unfolding request_cancel
running-request_cancel r id now j f p = rw f (ground arith)

module _ (e : Engine) (r : Repo) (copy cur : Job) (worker : String) (f : Failure) (now : ℕ)
    (found : find_job r copy.id ≡ some cur) (runs : cur.status ≡ processing)
    (holds : IsCopy copy cur worker) where
  still_there : (if errors_is_cancel (some f) then (request_cancel r copy.id now).0 else r) ≡ r
  still_there = ground (arith, running-request_cancel r copy.id now cur found runs)

  -- A worker that still holds the lease of a running job, and whose handler returned an error that
  -- is not final, leaves the job RETRYING, due after the backoff of its attempt, and writes no
  -- other job.
  pub retried_job :
      is_final e copy f ≡ false
      → (i : ℕ)
      → find_job (settle e r copy worker (some f) now).0 i
        ≡ ite
            (ℕ_discrete copy.id i)
            (some
              (retrying_job cur now (text f) (now + backoff e.draw e.retry_policy copy.attempt)))
            (find_job r i)
  unfolding settle settle_failure put_back retry fenced holds_lease
  retried_job final i =
      rw (still_there, final, found)
        (ground (
          arith,
          holds.same_worker,
          holds.same_generation,
          find_job-put r copy.id i
              (retrying_job cur now (text f) (now + backoff e.draw e.retry_policy copy.attempt)),
        ))

  pub final-settle :
      is_final e copy f ≡ true → settle e r copy worker (some f) now ≡ bury e r copy worker f now
  unfolding settle settle_failure
  final-settle final = rw (still_there, final) refl

  bury-promotes :
      (cur.ordering_mode ≡ skip_on_failure) ⊎ (cur.ordering_mode ≡ dead_letter_and_continue)
      → (bury e r copy worker f now).0
        ≡ promote_next
            (fail r copy.id worker copy.lease_generation (text f) true now).0
            cur.chain_id
            cur.sequence
            now
  unfolding bury failure_mode
  bury-promotes (inl m) = rw (sym holds.same_mode ∙ m, holds.same_chain, holds.same_sequence) refl
  bury-promotes (inr m) = rw (sym holds.same_mode ∙ m, holds.same_chain, holds.same_sequence) refl

  module _ (later next_id : ℕ) (k : Job) (ix : IsIndexed r) (x : IsExclusive r)
      (behind : find_seq r cur.chain_id (inc64 cur.sequence) ≡ some next_id)
      (found_next : find_job r next_id ≡ some k) (waits : k.status ≡ blocked)
      (range : InRange cur.sequence) (due : k.available_at ≤ later) where
    -- Over an indexed repository in which one job of a chain runs at most, the handler of a running
    -- job, whose mode goes on and whose sequence is an int64, fails for good while the worker holds
    -- the lease: the job that the engine leaves stored in the place of the BLOCKED one behind it is
    -- claimable, from the time on at which that one is due.
    pub final_failure_opens_next :
        IsFinal e copy f
        → (cur.ordering_mode ≡ skip_on_failure) ⊎ (cur.ordering_mode ≡ dead_letter_and_continue)
        → IsOpened (settle e r copy worker (some f) now).0 next_id k later
    final_failure_opens_next final mode =
        subst (λ s. IsOpened s next_id k later)
          (sym
            (ap (λ p. p.0) (final-settle (IsFinal-is_final e copy f final)) ∙ bury-promotes mode))
          (fail_opens_next r copy.id worker copy.lease_generation now cur found holds.same_worker
            holds.same_generation next_id k runs behind found_next waits later ix x range due
            (text f) mode)

-- Over an indexed repository in which one job of a chain runs at most, the handler of a running job,
-- whose sequence is an int64, succeeds while the worker holds the lease: the job that
-- the engine leaves stored in the place of the BLOCKED one behind it is claimable, from the time on at
-- which that one is due.
pub success_opens_next :
    (e : Engine) (r : Repo) (copy cur : Job) (worker : String) (now later next_id : ℕ) (k : Job)
    → find_job r copy.id ≡ some cur
    → cur.status ≡ processing
    → IsCopy copy cur worker
    → IsIndexed r
    → IsExclusive r
    → find_seq r cur.chain_id (inc64 cur.sequence) ≡ some next_id
    → find_job r next_id ≡ some k
    → k.status ≡ blocked
    → InRange cur.sequence
    → k.available_at ≤ later
    → IsOpened (settle e r copy worker none now).0 next_id k later
unfolding settle
success_opens_next e r copy cur worker now later next_id k found runs holds ix x behind found_next
      waits range due =
    complete_opens_next r copy.id worker copy.lease_generation now cur found holds.same_worker
      holds.same_generation next_id k runs behind found_next waits later ix x range due
