-- ===== src/Tests/Databases.antt =====
-- The theorems on the SQL repositories, at small tables.
use orderedjob.Prelude.{
  ◌≡◌, ◌≤◌, refl, sym, subst, map, Bool, true, false, none, some, [], ◌∷◌, inl, ℕ_discrete,
  text_discrete, arith,
}
use orderedjob.Int64.{pos, ℤ_discrete, inc64, lt64}
use orderedjob.Lifecycle.{Status-discrete, pending, processing, failed}
use orderedjob.Job.{Job, ok, err, not_found, strict, no_mode, skip_on_failure, is_empty}
use orderedjob.Samples.{first}
use orderedjob.Sql.{
  with_tx, row_where, select_where, exists_where, update_where, count_where, limit, order_by,
  insert_ordered, max_of,
}
use orderedjob.Sql.Schema.{Row, has_id, at_place, insert_row, may_follow, is_done, scan_job}
use orderedjob.Sql.Order.{HasTurn, IsLinked, []-IsLinked}
use orderedjob.Postgres.Lease.{lease_end, lease_sec}
use orderedjob.Postgres.Claim.{claim, candidates, is_claimable, claimed_row}
use orderedjob.Postgres.Enqueue.{
  insert_payload, enqueue, find_existing, choose_sequence, resolve_sequence, max_sequence,
  first_status, new_row, scan_found,
}
use orderedjob.Postgres.Admin.{recover_stale, replay_job, is_stopped, replayed_row, update_stopped}
use orderedjob.Postgres.Runs.{
  Reach, here, next, enqueues, claims, Reach-IsLinked, rows_run_alone, run_by_turn,
}
use orderedjob.Postgres.Earliest.{TakesEarliest, claims_earliest}
use orderedjob.Postgres.Fencing.{IsFenced, RunsFor, completes, call, lease_call-IsFenced}
use orderedjob.Postgres.Stale.{IsStale, Counts, no_rows, counted, ClearsStale, recover_stale_clears}
use orderedjob.Postgres.Keys.{enqueue_finds_key}
use orderedjob.Postgres.Rounds.{served, served-bounded}
use orderedjob.Postgres.Draining.{drain, is_left, drain-stops}

-- The row that the first request makes, and the row while the worker `w` runs it.
abbrev row1 : Row
row1 = record {
  id = 1;
  chain_id = "customer 7";
  sequence = pos 1;
  job_type = "mail";
  payload = "{}";
  status = pending;
  attempt = pos 0;
  max_attempts = pos 5;
  available_at = 10;
  deadline_at = none;
  worker_id = none;
  lease_until = none;
  lease_generation = pos 0;
  started_at = none;
  completed_at = none;
  failed_at = none;
  idempotency_key = some "welcome";
  last_error = none;
  tenant_id = none;
  trace_id = none;
  ordering_mode = strict;
  created_at = 10;
  updated_at = 10;
}

abbrev running_row : Row
running_row = record row1 {
  status = processing;
  attempt = pos 1;
  worker_id = some "w";
  lease_until = some 60000000020;
  lease_generation = pos 1;
  started_at = some 20;
  updated_at = 20;
}

abbrev no_locks : Row → Bool
no_locks r = false

first_stored : (enqueue true [] first 1 10).0 ≡ row1 ∷ []
unfolding enqueue with_tx find_existing is_empty text_discrete row_where choose_sequence
    resolve_sequence ℤ_discrete ℕ_discrete insert_row insert_payload exists_where new_row
    max_sequence first_status max_of lt64 select_where
first_stored = refl

first_claimed : (claim no_locks (row1 ∷ []) "w" (pos 60000000000) 20).0 ≡ running_row ∷ []
unfolding claim with_tx candidates limit order_by select_where is_claimable Status-discrete
    may_follow ℤ_discrete ℕ_discrete insert_ordered row_where update_where has_id claimed_row inc64
    lease_end lease_sec text_discrete at_place is_done exists_where
first_claimed = refl

reached : Reach [] (running_row ∷ [])
reached = subst (Reach []) first_claimed (
    next (subst (Reach []) first_stored (next here (enqueues true first 1 10)))
      (claims no_locks "w" (pos 60000000000) 20))

stored-IsLinked : IsLinked (row1 ∷ [])
stored-IsLinked =
    Reach-IsLinked (subst (Reach []) first_stored (next here (enqueues true first 1 10)))
      []-IsLinked

rows_run_alone_example : running_row ≡ running_row
rows_run_alone_example =
    rows_run_alone (running_row ∷ []) running_row running_row reached (inl refl) (inl refl) refl
      refl refl

run_by_turn_example : HasTurn (running_row ∷ []) running_row
run_by_turn_example = run_by_turn (running_row ∷ []) running_row reached (inl refl) refl

claims_earliest_example : TakesEarliest no_locks (row1 ∷ []) "w" (pos 60000000000) 20
claims_earliest_example =
    claims_earliest no_locks (row1 ∷ []) "w" (pos 60000000000) 20 stored-IsLinked

lease_call-IsFenced_example :
    IsFenced
      (RunsFor 1 "w" (pos 1))
      (running_row ∷ [])
      (call completes (running_row ∷ []) 1 "w" (pos 1) 40)
lease_call-IsFenced_example = lease_call-IsFenced completes (running_row ∷ []) 1 "w" (pos 1) 40

one-IsStale : Counts (IsStale 70000000000) (running_row ∷ []) 1
one-IsStale = counted (refl, 60000000020, refl, omega arith) no_rows

recover_stale_clears_example :
    ClearsStale
      (running_row ∷ [])
      70000000000
      1
      (recover_stale no_locks (running_row ∷ []) (pos 10) none 70000000000)
recover_stale_clears_example =
    recover_stale_clears no_locks (running_row ∷ []) 1 10 none 70000000000 (λ a m h. refl)
      one-IsStale (omega arith)

first_answered :
    enqueue true [] first 1 10
    ≡ (row1 ∷ [], ok (record (scan_found row1) { ordering_mode = no_mode }))
unfolding enqueue with_tx find_existing is_empty text_discrete row_where choose_sequence
    resolve_sequence ℤ_discrete ℕ_discrete insert_row insert_payload exists_where new_row
    max_sequence first_status max_of lt64 select_where
first_answered = refl

key_asked : is_empty first.idempotency_key ≡ false
unfolding is_empty text_discrete
key_asked = refl

enqueue_finds_key_example :
    (k : Job) × (enqueue false (row1 ∷ []) (record first { sequence = pos 9 }) 2 30
      ≡ (row1 ∷ [], ok k))
    × (k.id ≡ 1)
    × (k.chain_id ≡ "customer 7")
    × (k.sequence ≡ pos 1)
unfolding scan_found scan_job
enqueue_finds_key_example =
    enqueue_finds_key true false [] (row1 ∷ []) first (record first { sequence = pos 9 }) 1 2 10 30
      (record (scan_found row1) { ordering_mode = no_mode }) key_asked refl first_answered

one_left : count_where is_left (row1 ∷ []) ≡ 1
unfolding count_where Status-discrete
one_left = refl

served-bounded_example :
    served "w" (pos 60000000000) ((no_locks, 5, 8) ∷ (no_locks, 20, 30) ∷ []) (row1 ∷ [])
    ≤ count_where is_left (row1 ∷ [])
served-bounded_example =
    served-bounded "w" (pos 60000000000) ((no_locks, 5, 8) ∷ (no_locks, 20, 30) ∷ []) (row1 ∷ [])
      stored-IsLinked

drain-stops_example :
    (claim no_locks
      (drain no_locks "w" (pos 60000000000) 20 1 (row1 ∷ []))
      "w"
      (pos 60000000000)
      20).1
    ≡ err not_found
drain-stops_example =
    drain-stops no_locks "w" (pos 60000000000) 20 1 (row1 ∷ []) stored-IsLinked
      (subst (λ n. n ≤ 1) (sym one_left) (omega arith))

-- A failed job that lets the chain go on, the job behind it while it runs, and what ReplayJob and a
-- Claim make of them: two running jobs of one chain.
abbrev failed_row1 : Row
failed_row1 = record running_row {
  status = failed;
  lease_until = none;
  ordering_mode = skip_on_failure;
}

abbrev running_row2 : Row
running_row2 = record running_row { id = 2; sequence = pos 2; worker_id = some "v" }

replay_runs_two :
    map
      (λ r. r.status)
      (claim no_locks (replay_job (failed_row1 ∷ running_row2 ∷ []) 1 50).0 "w" (pos 0) 60).0
    ≡ processing ∷ processing ∷ []
unfolding claim with_tx candidates limit order_by select_where replay_job update_stopped
    exists_where is_stopped has_id ℕ_discrete Status-discrete update_where is_claimable replayed_row
    may_follow inc64 ℤ_discrete claimed_row lease_end lease_sec text_discrete at_place is_done
    insert_ordered row_where
replay_runs_two = refl
