-- ===== src/Postgres/Admin.antt =====
-- repository/postgres/repository.go: RequestCancel, RecoverStale, ReplayJob, ReplayJobWithPayload,
-- SkipJob and RescheduleJob. The rows that other transactions hold are a parameter.
use orderedjob.Prelude.{
  ℕ, suc, String, Bool, false, ◌&&◌, ◌||◌, not, ◌+◌, ltb, Option, none, some, List, [], ◌∷◌,
  if◌then◌else◌,
}
use orderedjob.Int64.{ℤ, pos, negsuc, inc64}
use orderedjob.Lifecycle.{
  pending, blocked, processing, retrying, cancel_requested, failed, cancelled, dead_lettered, same,
}
use orderedjob.Job.{Job, Result, ok, err, not_found, job_not_eligible, database_error, is_empty}
use orderedjob.Sql.{select_where, exists_where, row_where, update_where, limit, order_by, with_tx}
use orderedjob.Sql.Schema.{Row, Table, scan_job, has_id}
use orderedjob.Postgres.Lease.{open_place, completed_row}

unfoldable pub is_active : ℕ → Row → Bool
is_active id r =
    has_id id r
    && (same r.status pending
        || (same r.status retrying || (same r.status blocked || same r.status processing)))

unfoldable pub cancelling_row : ℕ → Row → Row
cancelling_row now r = record r { status = cancel_requested; updated_at = now }

-- RequestCancel, which does not look at the number of rows
unfoldable pub request_cancel : Table → ℕ → ℕ → Table × Result (Unit {0})
request_cancel t id now = (update_where (is_active id) (cancelling_row now) t, ok tt)

-- lease_until < NOW()
abbrev pub is_over : Option ℕ → ℕ → Bool
is_over none now = false
is_over (some until) now = ltb until now

unfoldable pub is_stale : ℕ → Row → Bool
is_stale now r = same r.status processing && is_over r.lease_until now

abbrev pub until : Row → ℕ
until r = or_zero r.lease_until
  where
    or_zero : Option ℕ → ℕ
    or_zero none = 0
    or_zero (some u) = u

-- ORDER BY lease_until ASC
unfoldable pub ends_earlier : Row → Row → Bool
ends_earlier a b = ltb (until a) (until b)

unfoldable pub stale_rows : (Row → Bool) → ℕ → ℕ → Table → List Row
stale_rows locked max now t =
    limit max (order_by ends_earlier (select_where (λ r. is_stale now r && not (locked r)) t))

abbrev pub delay_of : Option (ℤ → ℕ) → ℤ → ℕ
delay_of none attempt = 1000000000
delay_of (some policy) attempt = policy attempt

unfoldable pub recovered_row : ℕ → ℕ → Row → Row
recovered_row next now r = record r {
  status = retrying;
  available_at = next;
  updated_at = now;
  last_error = some "stale lease recovered";
  lease_until = none;
}

-- id=$2 AND status='PROCESSING' AND lease_until < NOW()
unfoldable pub is_same_stale : ℕ → ℕ → Row → Bool
is_same_stale id now r = has_id id r && is_stale now r

-- the loop over the list of RecoverStale, with the number of rows
unfoldable pub recover_over : Option (ℤ → ℕ) → ℕ → List Row → ℕ → Table → Table × ℕ
recover_over policy now [] n t = (t, n)
recover_over policy now (s ∷ ss) n t =
    recover_over policy now ss (suc n) (
      update_where (is_same_stale s.id now) (recovered_row (now + delay_of policy s.attempt) now) t)

abbrev pub recover_rows : (Row → Bool) → Option (ℤ → ℕ) → ℕ → ℤ → Table → Table × Result ℕ
recover_rows locked policy now (negsuc _) t = (t, err database_error)
recover_rows locked policy now (pos max) t =
    let (t', n) = recover_over policy now (stale_rows locked max now t) 0 t in (t', ok n)

-- RecoverStale; a LIMIT below 0 is an error of the database.
unfoldable pub recover_stale : (Row → Bool) → Table → ℤ → Option (ℤ → ℕ) → ℕ → Table × Result ℕ
recover_stale locked t max policy now = with_tx (recover_rows locked policy now max) t

-- status IN ('FAILED', 'CANCELLED', 'DEAD_LETTERED')
unfoldable pub is_stopped : ℕ → Row → Bool
is_stopped id r =
    has_id id r
    && (same r.status failed || (same r.status cancelled || same r.status dead_lettered))

unfoldable pub replayed_row : ℕ → Row → Row
replayed_row now r = record r {
  status = pending;
  attempt = pos 0;
  last_error = none;
  available_at = now;
  updated_at = now;
  lease_until = none;
}

-- An UPDATE … RETURNING that reports ErrNotFound when it reaches no row.
unfoldable pub update_stopped : ℕ → (Row → Row) → Table → Table × Result (Unit {0})
update_stopped id change t = (
  update_where (is_stopped id) change t,
  if exists_where (is_stopped id) t then ok tt else err not_found,
)

-- ReplayJob
unfoldable pub replay_job : Table → ℕ → ℕ → Table × Result (Unit {0})
replay_job t id now = with_tx (update_stopped id (replayed_row now)) t

-- ReplayJobWithPayload
unfoldable pub replay_job_with_payload : Table → ℕ → String → ℕ → Table × Result (Unit {0})
replay_job_with_payload t id payload now =
    with_tx
      (update_stopped id (λ r.
        if is_empty payload
        then replayed_row now r
        else record (replayed_row now r) { payload = payload }))
      t

abbrev pub skip_row : ℕ → ℕ → Table → Option Row → Table × Result (Unit {0})
skip_row id now t none = (t, err not_found)
skip_row id now t (some r) = (
  open_place r.chain_id (inc64 r.sequence) now (update_where (is_stopped id) (completed_row now) t),
  ok tt,
)

-- SkipJob; the row that RETURNING gives has the place that it had.
unfoldable pub skip_job : Table → ℕ → ℕ → Table × Result (Unit {0})
skip_job t id now = with_tx (λ s. skip_row id now s (row_where (is_stopped id) s)) t

unfoldable pub can_move : ℕ → Row → Bool
can_move id r = has_id id r && (same r.status pending || same r.status retrying)

unfoldable pub moved_row : ℕ → ℕ → Row → Row
moved_row at now r = record r { available_at = at; updated_at = now }

abbrev pub moved_job : Table → ℕ → Option Row → Result Job
moved_job t id none = if exists_where (has_id id) t then err job_not_eligible else err not_found
moved_job t id (some r) = ok (scan_job r)

abbrev pub moved_by : ℕ → ℕ → Option Row → Option Row
moved_by at now none = none
moved_by at now (some r) = some (moved_row at now r)

-- RescheduleJob
unfoldable pub reschedule_job : Table → ℕ → ℕ → ℕ → Table × Result Job
reschedule_job t id at now =
    with_tx
      (λ s. (
        update_where (can_move id) (moved_row at now) s,
        moved_job s id (moved_by at now (row_where (can_move id) s)),
      ))
      t
