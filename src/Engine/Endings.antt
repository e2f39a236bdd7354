-- ===== src/Engine/Endings.antt =====
-- The state in which tryClaimAndExecute of engine.go leaves the job whose handler ended, in terms that do
-- not run the code.
use orderedjob.Prelude.{
  ℕ, String, ◌≡◌, ◌≢◌, ◌⊎◌, refl, ◌∙◌, ap, true, false, Option, none, some, arith, if_pos,
  ℕ_discrete, Bool-cases, inl, inr, ◌+◌,
}
use orderedjob.Int64.{lt64}
use orderedjob.Lifecycle.{processing, completed, failed, dead_lettered, retrying, blocked}
use orderedjob.Job.{Job, OrderingMode, dead_letter_and_continue}
use orderedjob.Failure.{Failure, text, is_non_retryable}
use orderedjob.RetryPolicy.{backoff, should_retry}
use orderedjob.Memory.State.{Repo, find_job, put_job, find_job-put}
use orderedjob.Memory.Lease.{completed_job, failed_job, retrying_job, buries, fail}
use orderedjob.Memory.Admin.{promote_next}
use orderedjob.Memory.Progress.{promote_after-leaves}
use orderedjob.Memory.Outcomes.{complete_lem, fail_lem}
use orderedjob.Engine.{Engine, settle, bury, is_final, goes_on, failure_mode}
use orderedjob.Engine.Settling.{IsCopy, IsFinal, retried_job, final-settle}

is_final-IsFinal : (e : Engine) (j : Job) (f : Failure) → is_final e j f ≡ true → IsFinal e j f
unfolding is_final should_retry
is_final-IsFinal e j f h = elim (Bool-cases (is_non_retryable (some f))) [
  | inl a ↦ inl a
  | inr a ↦ elim (Bool-cases (lt64 j.attempt j.max_attempts)) [
    | inl b ↦ inr (inr (ground arith))
    | inr b ↦ inr (inl b)
  ]
]

not-IsFinal : (e : Engine) (j : Job) (f : Failure) → is_final e j f ≡ false → ¬ IsFinal e j f
unfolding is_final should_retry
not-IsFinal e j f h (inl a) = absurd (ground arith)
not-IsFinal e j f h (inr (inl a)) = absurd (ground arith)
not-IsFinal e j f h (inr (inr a)) = absurd (ground arith)

-- How the job `q` stands after the attempt of which the worker has the copy `j`.
pub data IsSettled (e : Engine) (j : Job) (now : ℕ) (q : Job) : Option Failure → Type 0 where
  succeeded : q.status ≡ completed → q.completed_at ≡ some now → IsSettled e j now q none
  tried_again :
      {f : Failure}
      → ¬ IsFinal e j f
      → q.status ≡ retrying
      → q.available_at ≡ now + backoff e.draw e.retry_policy j.attempt
      → q.last_error ≡ text f
      → IsSettled e j now q (some f)
  buried :
      {f : Failure}
      → IsFinal e j f
      → q.ordering_mode ≡ dead_letter_and_continue
      → q.status ≡ dead_lettered
      → q.last_error ≡ text f
      → IsSettled e j now q (some f)
  failed_for_good :
      {f : Failure}
      → IsFinal e j f
      → q.ordering_mode ≢ dead_letter_and_continue
      → q.status ≡ failed
      → q.last_error ≡ text f
      → IsSettled e j now q (some f)

-- The job kept its place and its mode, and no worker holds it.
pub record IsReleased (cur q : Job) : Type 0 where
  pub same_chain : q.chain_id ≡ cur.chain_id
  pub same_sequence : q.sequence ≡ cur.sequence
  pub same_mode : q.ordering_mode ≡ cur.ordering_mode
  pub same_attempt : q.attempt ≡ cur.attempt
  pub no_lease : q.lease_until ≡ none

mode-cases :
    (m : OrderingMode)
    → ((buries m ≡ true) × (m ≡ dead_letter_and_continue))
      ⊎ ((buries m ≡ false) × (m ≢ dead_letter_and_continue))
mode-cases dead_letter_and_continue = inl (refl, refl)
mode-cases _ = inr (refl, λ e. cc)

failed-IsSettled :
    (e : Engine) (j cur : Job) (f : Failure) (now : ℕ)
    → IsFinal e j f
    → IsSettled e j now (failed_job cur now (text f) true) (some f)
unfolding failed_job
failed-IsSettled e j cur f now final = elim (mode-cases cur.ordering_mode) [
  | inl (b, m) ↦ buried final m (rw b refl) refl
  | inr (b, m) ↦ failed_for_good final m (rw b refl) refl
]

failed-stands :
    (cur : Job) (msg : String) (now : ℕ) → (failed_job cur now msg true).status ≢ blocked
unfolding failed_job
failed-stands cur msg now = ground arith

module _ (e : Engine) (r : Repo) (copy cur : Job) (worker : String) (now : ℕ)
    (found : find_job r copy.id ≡ some cur) (runs : cur.status ≡ processing)
    (holds : IsCopy copy cur worker) where
  stored : (q : Job) → find_job (put_job r copy.id q) copy.id ≡ some q
  stored q = find_job-put r copy.id copy.id q ∙ if_pos (ℕ_discrete copy.id copy.id) refl _ _

  bury-leaves :
      (f : Failure)
      → find_job (bury e r copy worker f now).0 copy.id ≡ some (failed_job cur now (text f) true)
  unfolding bury promote_next
  bury-leaves f = elim (Bool-cases (goes_on (failure_mode e copy))) [
    | inl b ↦ rw b (
        promote_after-leaves _ copy.chain_id copy.sequence now copy.id _ failed_there
          (failed-stands cur (text f) now))
    | inr b ↦ rw b failed_there
  ]
    where
      failed_there :
          find_job (fail r copy.id worker copy.lease_generation (text f) true now).0 copy.id
          ≡ some (failed_job cur now (text f) true)
      failed_there =
          ap (λ x. find_job x.0 copy.id)
            (fail_lem r copy.id worker copy.lease_generation now cur found holds.same_worker
              holds.same_generation (text f) true)
          ∙ stored (failed_job cur now (text f) true)

  -- A worker that still holds the lease of a running job settles it: the job keeps its place, mode
  -- and attempt, and is released. It is COMPLETED if the handler succeeded; RETRYING, due after the
  -- backoff of its attempt, if the error may be retried and both the job and the policy have attempts
  -- left; and else DEAD_LETTERED where its mode says so, and FAILED where it does not.
  pub settle-IsSettled :
      (o : Option Failure)
      → (q : Job) × (find_job (settle e r copy worker o now).0 copy.id ≡ some q)
        × IsReleased cur q
        × IsSettled e copy now q o
  unfolding settle completed_job retrying_job failed_job
  settle-IsSettled none = (
    completed_job cur now,
    ap (λ x. find_job x.0 copy.id)
          (complete_lem r copy.id worker copy.lease_generation now cur found holds.same_worker
            holds.same_generation)
        ∙ promote_after-leaves _ cur.chain_id cur.sequence now copy.id (completed_job cur now)
            (stored (completed_job cur now)) (λ h. cc),
    record {
      same_chain = refl;
      same_sequence = refl;
      same_mode = refl;
      same_attempt = refl;
      no_lease = refl;
    },
    succeeded refl refl,
  )
  settle-IsSettled (some f) = elim (Bool-cases (is_final e copy f)) [
    | inl b ↦ (
      failed_job cur now (text f) true,
      ap (λ x. find_job x.0 copy.id) (final-settle e r copy cur worker f now found runs holds b)
          ∙ bury-leaves f,
      record {
        same_chain = refl;
        same_sequence = refl;
        same_mode = refl;
        same_attempt = refl;
        no_lease = refl;
      },
      failed-IsSettled e copy cur f now (is_final-IsFinal e copy f b),
    )
    | inr b ↦ (
      retrying_job cur now (text f) (now + backoff e.draw e.retry_policy copy.attempt),
      retried_job e r copy cur worker f now found runs holds b copy.id
          ∙ if_pos (ℕ_discrete copy.id copy.id) refl _ _,
      record {
        same_chain = refl;
        same_sequence = refl;
        same_mode = refl;
        same_attempt = refl;
        no_lease = refl;
      },
      tried_again (not-IsFinal e copy f b) refl refl refl,
    )
  ]
