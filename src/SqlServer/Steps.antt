-- ===== src/SqlServer/Steps.antt =====
-- The methods of repository/sqlserver/repository.go keep the invariant of the table.
use orderedjob.Prelude.{
  ◌≡◌, ◌≢◌, inl, refl, ℕ, String, Bool, true, false, ◌||◌, Option, List, [], ◌∷◌, In, arith,
}
use orderedjob.Int64.{ℤ, inc64}
use orderedjob.Lifecycle.{
  Status, Status-discrete, blocked, processing, failed, dead_lettered, cancelled, cancel_requested,
  same,
}
use orderedjob.Sql.Schema.{Row, Table, has_id, is_done}
use orderedjob.Sql.Order.{IsLinked, Moves, has_started, has_begun}
use orderedjob.Sql.Keeps.{update-IsLinked, with_tx-keeps}
use orderedjob.Sql.Moving.{begun-Moves, waiting-Moves, running_begun, running_undone}
use orderedjob.Postgres.Lease.{holds_lease, runs_for, extended_row, update_leased}
use orderedjob.Postgres.Admin.{
  is_active, cancelling_row, is_stale, is_same_stale, can_move, moved_row,
}
use orderedjob.Postgres.Steps.{
  settled, update_leased-IsLinked, open_place-IsLinked, runs_for-running, then_open_next-IsLinked,
}
use orderedjob.Postgres.Turns.{claim_first-IsLinked, owned_some, active_undone}
use orderedjob.SqlServer.Lease.{
  claim, completed_row, complete, failure_status, failed_row, fail, retrying_row, retry, heartbeat,
  may_confirm, cancelled_row, confirm_cancel, promote_next,
}
use orderedjob.SqlServer.Admin.{
  update_found, request_cancel, stale_rows, stale_limit, recovered_row, recover_over, recover_stale,
  can_skip, skipped_row, skip_job, reschedule_job,
}

pub claim-IsLinked :
    (locked : Row → Bool) (t : Table) (worker : String) (lease : ℤ) (now : ℕ)
    → IsLinked t
    → IsLinked (claim locked t worker lease now).0
unfolding claim
claim-IsLinked locked t worker lease now l = claim_first-IsLinked locked t worker lease now l

pub complete-IsLinked :
    (t : Table) (id : ℕ) (worker : String) (gen : ℤ) (now : ℕ)
    → IsLinked t
    → IsLinked (complete t id worker gen now).0
unfolding complete completed_row is_done Status-discrete
complete-IsLinked t id worker gen now l = with_tx-keeps IsLinked _ t l (
    then_open_next-IsLinked id now (update_leased (runs_for id worker gen) (completed_row now) t) (
      update_leased-IsLinked _ _ t l λ a m h.
        begun-Moves t a _ refl refl refl refl refl
          (running_begun a (runs_for-running id worker gen a h)) (λ k. refl)))

pub fail-IsLinked :
    (t : Table) (id : ℕ) (worker : String) (gen : ℤ) (msg : String) (terminal : Bool) (now : ℕ)
    → IsLinked t
    → IsLinked (fail t id worker gen msg terminal now).0
unfolding fail failed_row
fail-IsLinked t id worker gen msg terminal now l =
    settled t id worker gen (failed_row (failure_status t id terminal) msg now) l (λ a. refl)
      (λ a. refl) (λ a. refl) (λ a. refl) (λ a. refl)

pub retry-IsLinked :
    (t : Table) (id : ℕ) (worker : String) (gen : ℤ) (msg : String) (next now : ℕ)
    → IsLinked t
    → IsLinked (retry t id worker gen msg next now).0
unfolding retry retrying_row
retry-IsLinked t id worker gen msg next now l =
    settled t id worker gen (retrying_row msg next now) l (λ a. refl) (λ a. refl) (λ a. refl)
      (λ a. refl) (λ a. refl)

pub heartbeat-IsLinked :
    (t : Table) (id : ℕ) (worker : String) (gen lease : ℤ) (now : ℕ)
    → IsLinked t
    → IsLinked (heartbeat t id worker gen lease now).0
unfolding heartbeat extended_row
heartbeat-IsLinked t id worker gen lease now l =
    settled t id worker gen (extended_row lease now) l (λ a. refl) (λ a. refl) (λ a. refl)
      (λ a. refl) (λ a. refl)

requested_undone : (a : Row) → a.status ≡ cancel_requested → is_done a ≡ false
unfolding is_done Status-discrete
requested_undone a e = rw e refl

pub confirm_cancel-IsLinked :
    (t : Table) (id : ℕ) (worker : String) (gen : ℤ) (now : ℕ)
    → IsLinked t
    → IsLinked (confirm_cancel t id worker gen now).0
unfolding confirm_cancel may_confirm holds_lease cancelled_row has_started
confirm_cancel-IsLinked t id worker gen now l = update_leased-IsLinked _ _ t l λ a m h. record {
  same_id = refl;
  same_chain = refl;
  same_place = refl;
  stays_done = λ k. absurd (ground (arith, requested_undone a (ground arith)));
  starts = λ k. inl k;
  dates = λ p. (λ k. p.1 (owned_some a.worker_id worker (ground arith)), p.1);
}

pub promote_next-IsLinked :
    (t : Table) (chain : String) (seq : ℤ) (now : ℕ)
    → IsLinked t
    → IsLinked (promote_next t chain seq now)
unfolding promote_next
promote_next-IsLinked t chain seq now l = open_place-IsLinked t chain (inc64 seq) now l

pub request_cancel-IsLinked :
    (t : Table) (id now : ℕ) → IsLinked t → IsLinked (request_cancel t id now).0
unfolding request_cancel update_found is_active cancelling_row has_begun
request_cancel-IsLinked t id now l =
    update-IsLinked _ _ t l
      λ a m h. waiting-Moves t a _ refl refl refl refl refl refl (active_undone a (ground arith))

-- A running row that gives its worker up.
recovered-Moves :
    (t : Table) (status : Status) (next now : ℕ) (a : Row)
    → a.status ≡ processing
    → Moves t a (recovered_row status next now a)
unfolding recovered_row has_started
recovered-Moves t status next now a e = record {
  same_id = refl;
  same_chain = refl;
  same_place = refl;
  stays_done = λ k. absurd (ground (arith, running_undone a e));
  starts = λ k. inl k;
  dates = λ p. (λ k. p.0 (running_begun a e), λ k. absurd (ground arith));
}

recover_over-IsLinked :
    (policy : Option (ℤ → ℕ)) (now : ℕ) (ss : List Row) (n : ℕ) (t : Table)
    → IsLinked t
    → IsLinked (recover_over policy now ss n t).0
unfolding recover_over is_same_stale is_stale
recover_over-IsLinked policy now [] n t l = l
recover_over-IsLinked policy now (s ∷ ss) n t l =
    recover_over-IsLinked policy now ss _ _
      (update-IsLinked _ _ t l λ a m h. recovered-Moves t _ _ now a (ground arith))

pub recover_stale-IsLinked :
    (locked : Row → Bool) (t : Table) (max : ℤ) (policy : Option (ℤ → ℕ)) (now : ℕ)
    → IsLinked t
    → IsLinked (recover_stale locked t max policy now).0
unfolding recover_stale
recover_stale-IsLinked locked t max policy now l =
    recover_over-IsLinked policy now (stale_rows locked (stale_limit max) now t) 0 t l

-- A row that is not BLOCKED has begun, if SkipJob takes it.
skippable_begun :
    (id : ℕ) (a : Row)
    → can_skip id a ≡ true
    → (a.id ≡ id → a.status ≢ blocked)
    → has_begun a.status ≡ true
unfolding can_skip has_id has_begun Status-discrete
skippable_begun id a h not_blocked = on a.status (ground arith) (not_blocked (ground arith))
  where
    on :
        (s : Status)
        → (same s failed || (same s dead_lettered || (same s cancelled || same s blocked))) ≡ true
        → s ≢ blocked
        → has_begun s ≡ true
    on failed h n = refl
    on dead_lettered h n = refl
    on cancelled h n = refl
    on blocked h n = absurd (n refl)
    on _ h n = ground arith

pub skip_job-IsLinked :
    (t : Table) (id now : ℕ)
    → ((a : Row) → In a t → a.id ≡ id → a.status ≢ blocked)
    → IsLinked t
    → IsLinked (skip_job t id now).0
unfolding skip_job update_found skipped_row is_done Status-discrete
skip_job-IsLinked t id now not_blocked l = with_tx-keeps IsLinked _ t l (
    then_open_next-IsLinked id now (update_found (can_skip id) (skipped_row now) t) (
      update-IsLinked _ _ t l λ a m h.
        begun-Moves t a _ refl refl refl refl refl (skippable_begun id a h (not_blocked a m))
          (λ k. refl)))

pub reschedule_job-IsLinked :
    (t : Table) (id at now : ℕ) → IsLinked t → IsLinked (reschedule_job t id at now).0
unfolding reschedule_job moved_row is_done has_started
reschedule_job-IsLinked t id at now l = with_tx-keeps IsLinked _ t l (
    update-IsLinked (can_move id) (moved_row at now) t l λ a m h. record {
      same_id = refl;
      same_chain = refl;
      same_place = refl;
      stays_done = λ k. k;
      starts = λ k. inl k;
      dates = λ p. p;
    })
