-- ===== src/SqlServer/Fencing.antt =====
-- What the calls of repository/sqlserver/repository.go with a test of the lease report.
use orderedjob.Prelude.{ℕ, String, ◌≡◌, refl, some, true, arith}
use orderedjob.Lifecycle.{cancel_requested}
use orderedjob.Int64.{ℤ}
use orderedjob.Job.{Result}
use orderedjob.Sql.Schema.{Row, Table, has_id}
use orderedjob.Postgres.Lease.{holds_lease, runs_for, extended_row}
use orderedjob.Postgres.Fencing.{
  IsTested, IsFenced, RunsFor, spelled_out, running-IsFenced, null_or_text-some, LeaseCall,
  completes, fails, retries, beats, update_leased-IsTested, then_open_next-IsTested,
}
use orderedjob.SqlServer.Lease.{
  completed_row, complete, failure_status, failed_row, fail, retrying_row, retry, heartbeat,
  may_confirm, cancelled_row, confirm_cancel,
}

unfoldable pub call : LeaseCall → Table → ℕ → String → ℤ → ℕ → Table × Result (Unit {0})
call completes t id worker gen now = complete t id worker gen now
call (fails msg terminal) t id worker gen now = fail t id worker gen msg terminal now
call (retries msg next) t id worker gen now = retry t id worker gen msg next now
call (beats lease) t id worker gen now = heartbeat t id worker gen lease now

call-IsTested :
    (c : LeaseCall) (t : Table) (id : ℕ) (worker : String) (gen : ℤ) (now : ℕ)
    → IsTested (runs_for id worker gen) t (call c t id worker gen now)
unfolding call complete completed_row fail retry heartbeat
call-IsTested completes t id worker gen now =
    then_open_next-IsTested id worker gen now (completed_row now) t (λ a. refl)
call-IsTested (fails msg terminal) t id worker gen now =
    update_leased-IsTested (runs_for id worker gen)
      (failed_row (failure_status t id terminal) msg now) t
call-IsTested (retries msg next) t id worker gen now =
    update_leased-IsTested (runs_for id worker gen) (retrying_row msg next now) t
call-IsTested (beats lease) t id worker gen now =
    update_leased-IsTested (runs_for id worker gen) (extended_row lease now) t

-- The row with the id was asked to stop, and the worker holds it in the generation.
abbrev pub MayConfirm : ℕ → String → ℤ → Row → Type 0
MayConfirm id worker gen r =
    (r.id ≡ id)
    × (r.worker_id ≡ some worker)
    × (r.lease_generation ≡ gen)
    × (r.status ≡ cancel_requested)

may_confirm-MayConfirm :
    (id : ℕ) (worker : String) (gen : ℤ) (r : Row)
    → may_confirm id worker gen r ≡ true
    → MayConfirm id worker gen r
unfolding may_confirm holds_lease has_id
may_confirm-MayConfirm id worker gen r h =
    (ground arith, null_or_text-some r.worker_id worker (ground arith), ground arith, ground arith)

MayConfirm-may_confirm :
    (id : ℕ) (worker : String) (gen : ℤ) (r : Row)
    → MayConfirm id worker gen r
    → may_confirm id worker gen r ≡ true
unfolding may_confirm holds_lease has_id
MayConfirm-may_confirm id worker gen r (a, b, c, d) = rw (a, b, c, d) (ground arith)

-- Complete, Fail, Retry and Heartbeat answer without an error exactly if a row with the id is
-- PROCESSING for the worker in the generation, and ConfirmCancel exactly if one with the id, the
-- worker and the generation is CANCEL_REQUESTED; with an error the table is as it was.
pub lease_calls-IsFenced :
    (c : LeaseCall) (t : Table) (id : ℕ) (worker : String) (gen : ℤ) (now : ℕ)
    → IsFenced (RunsFor id worker gen) t (call c t id worker gen now)
      × IsFenced (MayConfirm id worker gen) t (confirm_cancel t id worker gen now)
unfolding confirm_cancel
lease_calls-IsFenced c t id worker gen now = (
  running-IsFenced id worker gen t (call c t id worker gen now)
      (call-IsTested c t id worker gen now),
  spelled_out (may_confirm id worker gen) (MayConfirm id worker gen) t _
      (may_confirm-MayConfirm id worker gen) (MayConfirm-may_confirm id worker gen)
      (update_leased-IsTested (may_confirm id worker gen) (cancelled_row now) t),
)
