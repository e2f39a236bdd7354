-- ===== src/Tests/Servers.antt =====
-- The theorems on repository/sqlserver/repository.go, at small tables.
use orderedjob.Prelude.{
  ◌≡◌, refl, subst, Bool, false, none, some, [], ◌∷◌, In, inl, ℕ_discrete, text_discrete,
}
use orderedjob.Int64.{pos, ℤ_discrete, inc64, lt64}
use orderedjob.Lifecycle.{Status-discrete, processing}
use orderedjob.Job.{skip_on_failure, is_empty}
use orderedjob.Samples.{first}
use orderedjob.Sql.{
  with_tx, row_where, select_where, exists_where, update_where, limit, order_by, insert_ordered,
  max_of,
}
use orderedjob.Sql.Schema.{Row, has_id, at_place, insert_row, may_follow, is_done}
use orderedjob.Sql.Order.{HasTurn}
use orderedjob.Postgres.Lease.{lease_end, lease_sec}
use orderedjob.Postgres.Claim.{candidates, is_claimable, claimed_row}
use orderedjob.Postgres.Enqueue.{
  insert_payload, choose_sequence, resolve_sequence, max_sequence, determine_status, new_row,
  find_in_batch,
}
use orderedjob.Postgres.Fencing.{IsFenced, RunsFor, completes}
use orderedjob.SqlServer.Lease.{claim, confirm_cancel}
use orderedjob.SqlServer.Enqueue.{enqueue, find_existing, missing_part, enqueue_single}
use orderedjob.SqlServer.Runs.{Reach, here, next, enqueues, claims, rows_run_by_turn}
use orderedjob.SqlServer.Fencing.{call, MayConfirm, lease_calls-IsFenced}

-- The row of the first request while the worker `w` runs it.
abbrev running_row : Row
running_row = record {
  id = 1;
  chain_id = "customer 7";
  sequence = pos 1;
  job_type = "mail";
  payload = "{}";
  status = processing;
  attempt = pos 1;
  max_attempts = pos 5;
  available_at = 10;
  deadline_at = none;
  worker_id = some "w";
  lease_until = some 60000000020;
  lease_generation = pos 1;
  started_at = some 20;
  completed_at = none;
  failed_at = none;
  idempotency_key = some "welcome";
  last_error = none;
  tenant_id = none;
  trace_id = none;
  ordering_mode = skip_on_failure;
  created_at = 10;
  updated_at = 20;
}

abbrev no_locks : Row → Bool
no_locks r = false

claimed : (claim no_locks (enqueue false [] first 1 10).0 "w" (pos 0) 20).0 ≡ running_row ∷ []
unfolding enqueue with_tx find_existing is_empty text_discrete row_where choose_sequence
    resolve_sequence ℤ_discrete ℕ_discrete insert_row insert_payload exists_where new_row
    max_sequence determine_status max_of lt64 select_where missing_part enqueue_single claim
    candidates limit order_by is_claimable Status-discrete may_follow insert_ordered update_where
    has_id claimed_row inc64 lease_end lease_sec at_place is_done find_in_batch
claimed = refl

reached : Reach [] (running_row ∷ [])
reached =
    subst (Reach []) claimed
      (next (next here (enqueues false first 1 10)) (claims no_locks "w" (pos 0) 20))

rows_run_by_turn_example :
    HasTurn (running_row ∷ []) running_row
    × ((b : Row)
        → In b (running_row ∷ [])
        → b.status ≡ processing
        → "customer 7" ≡ b.chain_id
        → running_row ≡ b)
rows_run_by_turn_example = rows_run_by_turn (running_row ∷ []) running_row reached (inl refl) refl

lease_calls-IsFenced_example :
    IsFenced
      (RunsFor 1 "w" (pos 1))
      (running_row ∷ [])
      (call completes (running_row ∷ []) 1 "w" (pos 1) 40)
    × IsFenced
        (MayConfirm 1 "w" (pos 1))
        (running_row ∷ [])
        (confirm_cancel (running_row ∷ []) 1 "w" (pos 1) 40)
lease_calls-IsFenced_example = lease_calls-IsFenced completes (running_row ∷ []) 1 "w" (pos 1) 40
