-- ===== src/Tests/Engines.antt =====
-- The theorems on the engine, its errors and its policy, at the states of Samples.antt.
use mathlib.Core.List.{lookup}
use orderedjob.Prelude.{
  ◌≡◌, ◌⊎◌, ◌≤◌, ◌/◌, inl, refl, false, some, ℕ_discrete, text_discrete, arith,
}
use orderedjob.Int64.{pos, inc64, lt64, InRange, ℤ_discrete}
use orderedjob.Job.{Job, EnqueueRequest, no_mode, strict}
use orderedjob.Failure.{plain, non_retryable_error, is_non_retryable, has_non_retryable}
use orderedjob.RetryPolicy.{
  jitter_full, default_policy, should_retry, backoff, capped, backoff_bounds,
}
use orderedjob.Memory.State.{find_job, find_seq}
use orderedjob.Memory.Progress.{IsOpened}
use orderedjob.Engine.{settle, is_final}
use orderedjob.Engine.Endings.{IsReleased, IsSettled, settle-IsSettled}
use orderedjob.Engine.Settling.{IsCopy, IsFinal, final_failure_opens_next}
use orderedjob.Samples.{strict_engine, first, job1, job2, running1, running, running-IsSound}

there_1 : find_job running 1 ≡ some running1
unfolding find_job lookup ℕ_discrete
there_1 = refl

there_2 : find_job running 2 ≡ some job2
unfolding find_job lookup ℕ_discrete
there_2 = refl

next_of_1 : find_seq running "customer 7" (inc64 (pos 1)) ≡ some 2
unfolding find_seq lookup text_discrete ℤ_discrete inc64 ℕ_discrete
next_of_1 = refl

in_range : InRange (pos 1)
in_range = ground arith

own-IsCopy : IsCopy running1 running1 "w"
own-IsCopy = record {
  same_chain = refl;
  same_sequence = refl;
  same_mode = refl;
  same_generation = refl;
  same_worker = refl;
}

not_final : is_final strict_engine running1 (plain "no route") ≡ false
unfolding is_final is_non_retryable has_non_retryable lt64 should_retry default_policy
not_final = refl

for_good : IsFinal strict_engine running1 (non_retryable_error (plain "no such address"))
unfolding is_non_retryable has_non_retryable
for_good = inl refl

settle-IsSettled_example :
    (q : Job) × (find_job
        (settle strict_engine running running1 "w" (some (plain "no route")) 40).0
        1
      ≡ some q)
    × IsReleased running1 q
    × IsSettled strict_engine running1 40 q (some (plain "no route"))
settle-IsSettled_example =
    settle-IsSettled strict_engine running running1 running1 "w" 40 there_1 refl own-IsCopy
      (some (plain "no route"))

final_failure_opens_next_example :
    IsOpened
      (settle strict_engine running running1 "w"
        (some (non_retryable_error (plain "no such address")))
        40).0
      2
      job2
      50
final_failure_opens_next_example =
    final_failure_opens_next strict_engine running running1 running1 "w"
      (non_retryable_error (plain "no such address")) 40 there_1 refl own-IsCopy 50 2 job2
      running-IsSound.indexed running-IsSound.exclusive next_of_1 there_2 refl in_range
      (omega arith) for_good (inl refl)

-- A request without a key and a mode, and the job that it makes under a span.
abbrev unkeyed : EnqueueRequest
unkeyed = record first { idempotency_key = ""; ordering_mode = no_mode }

abbrev unkeyed1 : Job
unkeyed1 = record job1 { idempotency_key = ""; ordering_mode = strict; trace_id = "4bf92f35" }

backoff_bounds_example :
    (backoff (λ d. d) default_policy (pos 4) ≤ default_policy.max_delay)
    × ((default_policy.jitter ≡ jitter_full)
        ⊎ (capped default_policy (pos 4) / 2 ≤ backoff (λ d. d) default_policy (pos 4)))
backoff_bounds_example = backoff_bounds (λ d. d) (λ d. omega arith) default_policy (pos 4)
