-- ===== src/SqlServer/Admin.antt =====
-- repository/sqlserver/repository.go: RequestCancel, RecoverStale, ReplayJob, ReplayJobWithPayload,
-- SkipJob and RescheduleJob.
use orderedjob.Prelude.{
  ℕ, zero, suc, String, Bool, ◌&&◌, ◌||◌, not, ◌+◌, ◌==◌, Option, none, some, List, [], ◌∷◌,
  if◌then◌else◌,
}
use orderedjob.Int64.{ℤ, pos, negsuc, inc64, lt64}
use orderedjob.Lifecycle.{
  Status, pending, blocked, retrying, completed, failed, cancelled, dead_lettered, same,
}
use orderedjob.Job.{Job, Result, ok, err, not_found, is_empty}
use orderedjob.Sql.{select_where, row_where, update_where, count_where, limit, with_tx}
use orderedjob.Sql.Schema.{Row, Table, has_id}
use orderedjob.Postgres.Lease.{then_open_next}
use orderedjob.Postgres.Admin.{
  is_active, cancelling_row, is_stale, is_same_stale, is_stopped, can_move, moved_row, moved_job,
  moved_by,
}

-- An UPDATE that reports ErrNotFound when it reaches no row.
unfoldable pub update_found : (Row → Bool) → (Row → Row) → Table → Table × Result (Unit {0})
update_found test change t =
    (update_where test change t, if count_where test t == 0 then err not_found else ok tt)

-- RequestCancel
unfoldable pub request_cancel : Table → ℕ → ℕ → Table × Result (Unit {0})
request_cancel t id now = update_found (is_active id) (cancelling_row now) t

-- the limit of RecoverStale
unfoldable pub stale_limit : ℤ → ℕ
stale_limit (pos zero) = 100
stale_limit (pos (suc n)) = suc n
stale_limit (negsuc n) = 100

-- The rows of RecoverStale: any ones, in the order of the table. READPAST passes over locked ones.
unfoldable pub stale_rows : (Row → Bool) → ℕ → ℕ → Table → List Row
stale_rows locked max now t = limit max (select_where (λ r. is_stale now r && not (locked r)) t)

-- nextStatus and nextAvailable
unfoldable pub next_status : Option (ℤ → ℕ) → ℕ → Row → Status × ℕ
next_status none now s = (pending, now)
next_status (some policy) now s =
    if lt64 s.attempt s.max_attempts then (retrying, now + policy s.attempt) else (pending, now)

unfoldable pub recovered_row : Status → ℕ → ℕ → Row → Row
recovered_row status next now r = record r {
  status = status;
  available_at = next;
  worker_id = none;
  lease_until = none;
  lease_generation = inc64 r.lease_generation;
  updated_at = now;
}

-- the loop of RecoverStale, with the number of rows
unfoldable pub recover_over : Option (ℤ → ℕ) → ℕ → List Row → ℕ → Table → Table × ℕ
recover_over policy now [] n t = (t, n)
recover_over policy now (s ∷ ss) n t =
    let (status, next) = next_status policy now s in
    recover_over policy now ss (if count_where (is_same_stale s.id now) t == 0 then n else suc n)
      (update_where (is_same_stale s.id now) (recovered_row status next now) t)

-- RecoverStale
unfoldable pub recover_stale : (Row → Bool) → Table → ℤ → Option (ℤ → ℕ) → ℕ → Table × Result ℕ
recover_stale locked t max policy now =
    let (t', n) = recover_over policy now (stale_rows locked (stale_limit max) now t) 0 t in
    (t', ok n)

unfoldable pub replayed_row : ℕ → Row → Row
replayed_row now r = record r {
  status = pending;
  attempt = pos 0;
  available_at = now;
  updated_at = now;
}

-- ReplayJob
unfoldable pub replay_job : Table → ℕ → ℕ → Table × Result (Unit {0})
replay_job t id now = update_found (is_stopped id) (replayed_row now) t

-- ReplayJobWithPayload
unfoldable pub replay_job_with_payload : Table → ℕ → String → ℕ → Table × Result (Unit {0})
replay_job_with_payload t id payload now =
    update_found (is_stopped id)
      (λ r.
        if is_empty payload
        then replayed_row now r
        else record (replayed_row now r) { payload = payload })
      t

-- status IN ('FAILED', 'DEAD_LETTERED', 'CANCELLED', 'BLOCKED')
unfoldable pub can_skip : ℕ → Row → Bool
can_skip id r =
    has_id id r
    && (same r.status failed
        || (same r.status dead_lettered || (same r.status cancelled || same r.status blocked)))

unfoldable pub skipped_row : ℕ → Row → Row
skipped_row now r = record r { status = completed; updated_at = now }

-- SkipJob
unfoldable pub skip_job : Table → ℕ → ℕ → Table × Result (Unit {0})
skip_job t id now =
    with_tx (λ s. then_open_next id now (update_found (can_skip id) (skipped_row now) s)) t

-- RescheduleJob
unfoldable pub reschedule_job : Table → ℕ → ℕ → ℕ → Table × Result Job
reschedule_job t id at now =
    with_tx
      (λ s. (
        update_where (can_move id) (moved_row at now) s,
        moved_job s id (moved_by at now (row_where (can_move id) s)),
      ))
      t
