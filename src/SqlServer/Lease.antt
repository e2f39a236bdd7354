-- ===== src/SqlServer/Lease.antt =====
-- repository/sqlserver/repository.go: Claim and the methods of the worker that holds the lease. Unlike
-- on PostgreSQL, the lease stays on a row that is settled, and ConfirmCancel asks for a request.
use orderedjob.Prelude.{ℕ, String, Bool, ◌&&◌, some, if◌then◌else◌}
use orderedjob.Int64.{ℤ, inc64}
use orderedjob.Lifecycle.{
  Status, completed, failed, dead_lettered, retrying, cancelled, cancel_requested, same,
}
use orderedjob.Job.{Job, Result}
use orderedjob.Sql.{row_where, with_tx}
use orderedjob.Sql.Schema.{Row, Table, has_id}
use orderedjob.Postgres.Lease.{
  holds_lease, runs_for, update_leased, then_open_next, buries_row, extended_row, open_place,
}
use orderedjob.Postgres.Claim.{candidates, claim_first}

-- Claim: one statement. The rows that READPAST passes over are a parameter.
unfoldable pub claim : (Row → Bool) → Table → String → ℤ → ℕ → Table × Result Job
claim locked t worker lease now = claim_first worker lease now t (candidates locked t now)

unfoldable pub completed_row : ℕ → Row → Row
completed_row now r = record r { status = completed; completed_at = some now; updated_at = now }

-- Complete
unfoldable pub complete : Table → ℕ → String → ℤ → ℕ → Table × Result (Unit {0})
complete t id worker gen now =
    with_tx
      (λ s. then_open_next id now (update_leased (runs_for id worker gen) (completed_row now) s)) t

-- The state that Fail writes; its two statements are taken as one step.
unfoldable pub failure_status : Table → ℕ → Bool → Status
failure_status t id terminal =
    if terminal && buries_row (row_where (has_id id) t) then dead_lettered else failed

unfoldable pub failed_row : Status → String → ℕ → Row → Row
failed_row status msg now r = record r {
  status = status;
  failed_at = some now;
  last_error = some msg;
  updated_at = now;
}

-- Fail
unfoldable pub fail : Table → ℕ → String → ℤ → String → Bool → ℕ → Table × Result (Unit {0})
fail t id worker gen msg terminal now =
    update_leased (runs_for id worker gen) (failed_row (failure_status t id terminal) msg now) t

unfoldable pub retrying_row : String → ℕ → ℕ → Row → Row
retrying_row msg next now r = record r {
  status = retrying;
  available_at = next;
  last_error = some msg;
  updated_at = now;
}

-- Retry
unfoldable pub retry : Table → ℕ → String → ℤ → String → ℕ → ℕ → Table × Result (Unit {0})
retry t id worker gen msg next now =
    update_leased (runs_for id worker gen) (retrying_row msg next now) t

-- Heartbeat
unfoldable pub heartbeat : Table → ℕ → String → ℤ → ℤ → ℕ → Table × Result (Unit {0})
heartbeat t id worker gen lease now =
    update_leased (runs_for id worker gen) (extended_row lease now) t

unfoldable pub may_confirm : ℕ → String → ℤ → Row → Bool
may_confirm id worker gen r = holds_lease id worker gen r && same r.status cancel_requested

unfoldable pub cancelled_row : ℕ → Row → Row
cancelled_row now r = record r { status = cancelled; updated_at = now }

-- ConfirmCancel
unfoldable pub confirm_cancel : Table → ℕ → String → ℤ → ℕ → Table × Result (Unit {0})
confirm_cancel t id worker gen now = update_leased (may_confirm id worker gen) (cancelled_row now) t

-- PromoteNext
unfoldable pub promote_next : Table → String → ℤ → ℕ → Table
promote_next t chain seq now = open_place chain (inc64 seq) now t
