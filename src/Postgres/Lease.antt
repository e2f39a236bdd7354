-- ===== src/Postgres/Lease.antt =====
-- repository/postgres/repository.go: the methods of the worker that holds the lease (Complete, Fail,
-- Retry, Heartbeat, ConfirmCancel), and PromoteNext. NOW() is an argument.
use orderedjob.Prelude.{
  ℕ, String, Bool, false, true, ◌&&◌, ◌+◌, ◌*◌, ◌/◌, ◌==◌, Option, none, some, if◌then◌else◌,
}
use orderedjob.Int64.{ℤ, pos, negsuc, inc64}
use orderedjob.Lifecycle.{
  Status, processing, pending, blocked, completed, failed, dead_lettered, retrying, cancelled, same,
}
use orderedjob.Job.{
  OrderingMode, dead_letter_and_continue, Result, ok, err, lease_conflict, database_error,
}
use orderedjob.Sql.{is_int, null_or_text, row_where, update_where, count_where, with_tx}
use orderedjob.Sql.Schema.{Row, Table, has_id, at_place}

-- id=$1 AND worker_id=$2 AND lease_generation=$3
unfoldable pub holds_lease : ℕ → String → ℤ → Row → Bool
holds_lease id worker gen r =
    has_id id r && (null_or_text r.worker_id worker && is_int r.lease_generation gen)

-- … AND status='PROCESSING'
unfoldable pub runs_for : ℕ → String → ℤ → Row → Bool
runs_for id worker gen r = holds_lease id worker gen r && same r.status processing

-- An UPDATE that reports ErrLeaseConflict when it reaches no row.
unfoldable pub update_leased : (Row → Bool) → (Row → Row) → Table → Table × Result (Unit {0})
update_leased test change t =
    (update_where test change t, if count_where test t == 0 then err lease_conflict else ok tt)

unfoldable pub waits_at : String → ℤ → Row → Bool
waits_at chain seq r = at_place chain seq r && same r.status blocked

unfoldable pub opened_row : ℕ → Row → Row
opened_row now r = record r { status = pending; updated_at = now }

-- the UPDATE that makes a BLOCKED job PENDING
unfoldable pub open_place : String → ℤ → ℕ → Table → Table
open_place chain seq now t = update_where (waits_at chain seq) (opened_row now) t

unfoldable pub completed_row : ℕ → Row → Row
completed_row now r = record r {
  status = completed;
  completed_at = some now;
  updated_at = now;
  lease_until = none;
}

-- The rest of Complete: the place of the job, and the next one.
abbrev pub open_next : ℕ → Table → Option Row → Table × Result (Unit {0})
open_next now t none = (t, err database_error)
open_next now t (some r) = (open_place r.chain_id (inc64 r.sequence) now t, ok tt)

abbrev pub then_open_next : ℕ → ℕ → Table × Result (Unit {0}) → Table × Result (Unit {0})
then_open_next id now (t, err e) = (t, err e)
then_open_next id now (t, ok _) = open_next now t (row_where (has_id id) t)

-- Complete
unfoldable pub complete : Table → ℕ → String → ℤ → ℕ → Table × Result (Unit {0})
complete t id worker gen now =
    with_tx
      (λ s. then_open_next id now (update_leased (runs_for id worker gen) (completed_row now) s)) t

abbrev pub buries : OrderingMode → Bool
buries dead_letter_and_continue = true
buries _ = false

abbrev pub buries_row : Option Row → Bool
buries_row none = false
buries_row (some r) = buries r.ordering_mode

-- The state that Fail writes.
unfoldable pub failure_status : Table → ℕ → Bool → Status
failure_status t id terminal =
    if terminal && buries_row (row_where (has_id id) t) then dead_lettered else failed

unfoldable pub failed_row : Status → String → ℕ → Row → Row
failed_row status msg now r = record r {
  status = status;
  failed_at = some now;
  updated_at = now;
  last_error = some msg;
  lease_until = none;
}

-- Fail
unfoldable pub fail : Table → ℕ → String → ℤ → String → Bool → ℕ → Table × Result (Unit {0})
fail t id worker gen msg terminal now =
    with_tx
      (λ s.
        update_leased (runs_for id worker gen) (failed_row (failure_status s id terminal) msg now)
          s)
      t

unfoldable pub retrying_row : String → ℕ → ℕ → Row → Row
retrying_row msg next now r = record r {
  status = retrying;
  available_at = next;
  updated_at = now;
  last_error = some msg;
  lease_until = none;
}

-- Retry
unfoldable pub retry : Table → ℕ → String → ℤ → String → ℕ → ℕ → Table × Result (Unit {0})
retry t id worker gen msg next now =
    with_tx (update_leased (runs_for id worker gen) (retrying_row msg next now)) t

abbrev pub nanos_per_sec : ℕ
nanos_per_sec = 1000000000

-- The whole seconds of a lease, 60 where there is none.
unfoldable pub lease_sec : ℤ → ℕ
lease_sec (negsuc n) = 60
lease_sec (pos n) = let sec = n / nanos_per_sec in if sec == 0 then 60 else sec

-- NOW() + ($1 * INTERVAL '1 second')
unfoldable pub lease_end : ℤ → ℕ → ℕ
lease_end lease now = now + lease_sec lease * nanos_per_sec

unfoldable pub extended_row : ℤ → ℕ → Row → Row
extended_row lease now r = record r { lease_until = some (lease_end lease now); updated_at = now }

-- Heartbeat
unfoldable pub heartbeat : Table → ℕ → String → ℤ → ℤ → ℕ → Table × Result (Unit {0})
heartbeat t id worker gen lease now =
    update_leased (runs_for id worker gen) (extended_row lease now) t

-- ConfirmCancel
unfoldable pub confirm_cancel : Table → ℕ → String → ℤ → ℕ → Table × Result (Unit {0})
confirm_cancel t id worker gen now =
    update_leased (holds_lease id worker gen)
      (λ r. record r { status = cancelled; updated_at = now; lease_until = none }) t

-- PromoteNext
unfoldable pub promote_next : Table → String → ℤ → ℕ → Table
promote_next t chain seq now = open_place chain (inc64 seq) now t
