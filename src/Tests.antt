-- ===== src/Tests.antt =====
-- The theorems at the states of Samples.antt.
mod Databases
mod Servers
mod Dashboards
mod Engines
mod Parts
mod Rills
mod Webhooks
mod Blocked
use mathlib.Core.List.{lookup}
use orderedjob.Prelude.{
  ℕ, ◌≡◌, ◌≢◌, ◌⊎◌, ◌≤◌, ◌↔◌, ◌+◌, inl, inr, refl, ap, true, false, none, some, [], ◌∷◌, ℕ_discrete,
  text_discrete, arith, length, ite,
}
use orderedjob.Int64.{pos, ℤ_discrete, inc64, lt64, InRange}
use orderedjob.GoMap.{insert, range}
use orderedjob.Lifecycle.{
  Status, Status-discrete, unset, pending, blocked, processing, failed, dead_lettered,
  is_valid_transition, is_terminal, timed_out, expired, can_be_claimed, retrying,
}
use orderedjob.Lifecycle.Edges.{
  tests_agree, ◌⟶◌, ◌⟶*◌, bury, is_valid_transition_iff, terminal_edges, can_be_claimed_iff,
  reaches_terminal,
}
use orderedjob.Job.{Job, JobFilter, ok, err, strict, not_found, lease_conflict}
use orderedjob.Memory.State.{new, find_job, find_seq, put_job}
use orderedjob.Memory.Enqueue.{
  enqueue, enqueue_batch, get_max_sequence, greatest, validate_and_resolve_sequence,
}
use orderedjob.Memory.Claim.{claim}
use orderedjob.Memory.Lease.{complete, fail, completed_job}
use orderedjob.Memory.Admin.{recover_stale, recover_over, is_stale, recovered_job, promote_next}
use orderedjob.Memory.Bulk.{
  TextOps, matches_dlq_filter, bulk_replay_dlq, bulk_skip_dlq, bulk_purge_dlq, count_dlq,
}
use orderedjob.Memory.Query.{get_stats}
use orderedjob.Memory.Evolves.{put-kept}
use orderedjob.Memory.Steps.{recover_stale-Evolves}
use orderedjob.Memory.Index.{IsIndexed, kept-IsIndexed}
use orderedjob.Memory.Resolve.{HasRoom, resolved_is_free}
use orderedjob.Memory.Claims.{Takes, IsClaimable, claim-Takes, claim_none_iff}
use orderedjob.Memory.Reach.{IsSound}
use orderedjob.Memory.Runs.{completes, Step-IsSound, run_one_per_chain, run_one_per_place}
use orderedjob.Memory.Fencing.{perform, completing, stale_lease_refused, claim_fences}
use orderedjob.Memory.Progress.{IsOpened}
use orderedjob.Memory.Outcomes.{
  complete_writes, complete_opens_next, fail_opens_next, strict_blocks,
}
use orderedjob.Memory.Recovery.{HasStaleLease, recover_stale_limit, recover_stale_all}
use orderedjob.Memory.Dlq.{IsClear, bulk_clears, bulk_empties}
use orderedjob.Memory.Counts.{by_state, get_stats_partition}
use orderedjob.Memory.Batch.{
  Answers, IsAtomic, enqueue-Answers, enqueue_again, enqueue_batch-IsAtomic,
}
use orderedjob.Samples.{
  all_texts, no_filter, first, second, job1, job2, running1, one_job, two_jobs, running, stopped,
  enqueue-second, claim_first, running-Reach, one_job-IsSound, two_jobs-IsSound, running-IsSound,
}

at_1 : find_job running 1 ≡ some running1
unfolding find_job lookup ℕ_discrete
at_1 = refl

at_2 : find_job running 2 ≡ some job2
unfolding find_job lookup ℕ_discrete
at_2 = refl

behind_1 : find_seq running "customer 7" (inc64 (pos 1)) ≡ some 2
unfolding find_seq lookup text_discrete ℤ_discrete inc64 ℕ_discrete
behind_1 = refl

claim-Takes_example : Takes two_jobs "w" 60 20 running running1
claim-Takes_example =
    claim-Takes two_jobs running "w" 60 20 running1 two_jobs-IsSound.indexed claim_first

claim_none_iff_example :
    (claim running "w" 60 20 ≡ (running, err not_found))
    ↔ ((id : ℕ) (k : Job) → find_job running id ≡ some k → ¬ IsClaimable running 20 k)
claim_none_iff_example = claim_none_iff running "w" 60 20 running-IsSound.indexed

run_one_per_chain_example : ◌≡◌ {A = ℕ} 1 1
run_one_per_chain_example =
    run_one_per_chain running 1 1 running1 running1 running-Reach at_1 at_1 refl refl refl

run_one_per_place_example : ◌≡◌ {A = ℕ} 2 2
run_one_per_place_example =
    run_one_per_place running 2 2 job2 job2 running-Reach at_2 at_2 refl refl

Step-IsSound_example : IsSound (complete running 1 "w" (pos 1) 40).0
Step-IsSound_example = Step-IsSound (completes 1 "w" (pos 1) 40) running-IsSound

job_before : find_job two_jobs 1 ≡ some job1
unfolding find_job lookup ℕ_discrete
job_before = refl

claim_fences_example :
    perform (recover_stale running 10 none 100).0 1 "w" (pos 0) (completing 110)
    ≡ ((recover_stale running 10 none 100).0, err lease_conflict)
claim_fences_example =
    claim_fences two_jobs running (recover_stale running 10 none 100).0 "w" 60 20 running1 job1 "w"
      (completing 110) two_jobs-IsSound.indexed claim_first job_before
      (recover_stale-Evolves running 10 none 100)

one-InRange : InRange (pos 1)
one-InRange = ground arith

complete_opens_next_example : IsOpened (complete running 1 "w" (pos 1) 40).0 2 job2 50
complete_opens_next_example =
    complete_opens_next running 1 "w" (pos 1) 40 running1 at_1 refl refl 2 job2 refl behind_1 at_2
      refl 50 running-IsSound.indexed running-IsSound.exclusive one-InRange (omega arith)

recovers_one : (recover_stale running 10 none 100).1 ≡ 1
unfolding recover_stale recover_over is_stale recovered_job find_job put_job insert lookup range
    ℕ_discrete Status-discrete inc64 lt64
recovers_one = refl

recover_stale_all_example : ¬ HasStaleLease (recover_stale running 10 none 100).0 1 100
recover_stale_all_example = recover_stale_all running 10 none 100 1 (rw recovers_one (omega arith))

bulk_clears_example :
    IsClear
      (matches_dlq_filter all_texts no_filter)
      (bulk_replay_dlq all_texts stopped no_filter 50).0
      1
    × IsClear
        (matches_dlq_filter all_texts no_filter)
        (bulk_skip_dlq all_texts stopped no_filter 50).0
        1
    × IsClear
        (matches_dlq_filter all_texts no_filter)
        (bulk_purge_dlq all_texts stopped no_filter).0
        1
bulk_clears_example = bulk_clears all_texts no_filter stopped 50 1

all_pending : (id : ℕ) (j : Job) → find_job one_job id ≡ some j → j.status ≡ pending
unfolding find_job lookup
all_pending id j e = ground arith

one_counted :
    (id : ℕ) (j : Job)
    → find_job one_job id ≡ some j
    → (j.status ≢ unset) × (j.status ≢ timed_out) × (j.status ≢ expired)
one_counted id j e = let p = all_pending id j e in (λ h. cc, λ h. cc, λ h. cc)

get_stats_partition_example :
    (by_state (get_stats one_job 50) ≡ (get_stats one_job 50).total)
    × ((get_stats one_job 50).total ≡ length one_job.jobs)
    × ((get_stats one_job 50).scheduled
        ≤ (get_stats one_job 50).pending + (get_stats one_job 50).retrying)
get_stats_partition_example = get_stats_partition one_job 50 one_counted

two_room : HasRoom two_jobs "customer 7"
unfolding get_max_sequence greatest lookup text_discrete lt64
two_room = λ e. cc

enqueue-Answers_example : Answers two_jobs first 3 (enqueue two_jobs first 3 12)
enqueue-Answers_example = enqueue-Answers two_jobs first 3 12 two_room

enqueue_again_example :
    enqueue (enqueue one_job second 2 11).0 second 9 99 ≡ ((enqueue one_job second 2 11).0, ok job2)
enqueue_again_example =
    enqueue_again one_job second second 2 11 9 99 job2 one_job-IsSound.unique (λ e. cc) refl
      (λ e. cc) (ap (λ x. x.1) enqueue-second)

enqueue_batch-IsAtomic_example :
    IsAtomic new
      ((first, 1, 10) ∷ (second, 2, 11) ∷ [])
      (enqueue_batch new ((first, 1, 10) ∷ (second, 2, 11) ∷ []))
enqueue_batch-IsAtomic_example = enqueue_batch-IsAtomic new ((first, 1, 10) ∷ (second, 2, 11) ∷ [])

tests_agree_example :
    ((is_terminal failed ≡ true)
      ↔ ((t : Status) → is_valid_transition failed t ≡ true → (t ≡ failed) ⊎ (t ≡ dead_lettered)))
    × ((can_be_claimed failed ≡ true)
        ↔ ((failed ≢ processing) × (is_valid_transition failed processing ≡ true)))
tests_agree_example = tests_agree failed (λ e. cc)
