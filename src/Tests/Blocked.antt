-- ===== src/Tests/Blocked.antt =====
-- A chain that a failure blocks, beside a chain that runs on.
use mathlib.Core.List.{lookup}
use orderedjob.Prelude.{◌≡◌, ◌≢◌, refl, true, some, none, ℕ_discrete, text_discrete, arith}
use orderedjob.Int64.{pos, ℤ_discrete, inc64, dec64, lt64, InRange}
use orderedjob.GoMap.{insert, range}
use orderedjob.Lifecycle.{Status-discrete}
use orderedjob.Job.{Job, ok, strict}
use orderedjob.Memory.State.{Repo, find_job, find_seq, put_job, is_finished}
use orderedjob.Memory.Enqueue.{add_job}
use orderedjob.Memory.Claim.{
  claim, choose, candidates, candidates_in, is_candidate, predecessor_finished, before,
  insert_sorted, sort_jobs, is_busy, start_job, next_free,
}
use orderedjob.Memory.Lease.{fail, fenced, holds_lease, failed_job}
use orderedjob.Memory.Evolves.{put-kept}
use orderedjob.Memory.Index.{IsIndexed, kept-IsIndexed, add_job-IsIndexed}
use orderedjob.Memory.Blocking.{strict_not_claimed}
use orderedjob.Samples.{job1, job2, running1, running, running-IsSound}

-- The running job, in the strict mode, and a job of another customer.
abbrev strict1 : Job
strict1 = record running1 { ordering_mode = strict }

abbrev job3 : Job
job3 = record job1 { id = 3; chain_id = "customer 8"; idempotency_key = "" }

abbrev two_chains : Repo
two_chains = add_job (put_job running 1 strict1) job3

found_1 : find_job running 1 ≡ some running1
unfolding find_job lookup ℕ_discrete
found_1 = refl

no_3 : find_job (put_job running 1 strict1) 3 ≡ none
unfolding find_job put_job insert lookup ℕ_discrete
no_3 = refl

no_chain : find_seq (put_job running 1 strict1) "customer 8" (pos 1) ≡ none
unfolding find_seq put_job lookup text_discrete
no_chain = refl

two_chains-IsIndexed : IsIndexed two_chains
two_chains-IsIndexed =
    add_job-IsIndexed (put_job running 1 strict1) job3
      (kept-IsIndexed
        (put-kept running 1 running1 strict1 found_1
          (record { same_id = refl; same_chain = refl; same_sequence = refl; same_key = refl }))
        running-IsSound.indexed)
      no_3 no_chain

stored_1 : find_job two_chains 1 ≡ some strict1
unfolding find_job add_job put_job insert lookup ℕ_discrete
stored_1 = refl

stored_2 : find_job two_chains 2 ≡ some job2
unfolding find_job add_job put_job insert lookup ℕ_discrete
stored_2 = refl

behind_1 : find_seq two_chains "customer 7" (inc64 (pos 1)) ≡ some 2
unfolding find_seq add_job put_job insert lookup text_discrete ℤ_discrete inc64 ℕ_discrete
behind_1 = refl

two_is_not_one : inc64 (pos 1) ≢ pos 1
unfolding inc64
two_is_not_one = λ e. cc

first-InRange : InRange (pos 1)
first-InRange = ground arith

abbrev failed_state : Repo
failed_state = (fail two_chains 1 "w" (pos 1) "no such address" true 40).0

claims_3 :
    claim failed_state "v" 60 1000
    ≡ (put_job failed_state 3 (start_job job3 "v" 60 1000), ok (start_job job3 "v" 60 1000))
unfolding claim choose candidates candidates_in is_candidate predecessor_finished before
    insert_sorted sort_jobs is_busy start_job next_free fail fenced holds_lease failed_job add_job
    put_job insert find_job find_seq is_finished range lookup text_discrete ℕ_discrete ℤ_discrete
    Status-discrete inc64 dec64 lt64
claims_3 = refl

strict_not_claimed_example : (start_job job3 "v" 60 1000).id ≢ 2
strict_not_claimed_example =
    strict_not_claimed two_chains (put_job failed_state 3 (start_job job3 "v" 60 1000)) 1 "w"
      (pos 1) 40 strict1 job2 (start_job job3 "v" 60 1000) "no such address" 2 "v" 60 1000 stored_1
      refl refl two_chains-IsIndexed first-InRange two_is_not_one (λ e. cc) (λ e. cc) behind_1
      stored_2 claims_3
