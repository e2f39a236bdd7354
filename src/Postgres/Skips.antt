-- ===== src/Postgres/Skips.antt =====
-- SkipJob, RescheduleJob and BulkSkipDLQ of repository/postgres/repository.go keep the invariant of the
-- table.
use orderedjob.Prelude.{◌≡◌, inl, refl, ℕ, true, ◌||◌, Option, none, some, List, [], ◌∷◌, arith}
use orderedjob.Int64.{inc64}
use orderedjob.Lifecycle.{Status, Status-discrete, failed, dead_lettered, cancelled, same}
use orderedjob.Job.{JobFilter}
use orderedjob.Sql.{row_where, select_where, update_where}
use orderedjob.Sql.Schema.{Row, Table, is_done}
use orderedjob.Sql.Order.{IsLinked, has_started, has_begun}
use orderedjob.Sql.Keeps.{update-IsLinked, with_tx-keeps}
use orderedjob.Sql.Moving.{begun-Moves, waiting-Moves, blocked_undone}
use orderedjob.Postgres.Lease.{completed_row, opened_row}
use orderedjob.Postgres.Admin.{is_stopped, skip_row, skip_job, can_move, moved_row, reschedule_job}
use orderedjob.Postgres.Dlq.{
  SqlText, is_dead, dlq_where, waits_behind, open_all, skip_rows, bulk_skip_dlq,
}
use orderedjob.Postgres.Steps.{open_place-IsLinked}

stopped_begun : (id : ℕ) (a : Row) → is_stopped id a ≡ true → has_begun a.status ≡ true
unfolding is_stopped has_begun Status-discrete
stopped_begun id a h = on a.status (ground arith)
  where
    on :
        (s : Status)
        → (same s failed || (same s cancelled || same s dead_lettered)) ≡ true
        → has_begun s ≡ true
    on failed h = refl
    on cancelled h = refl
    on dead_lettered h = refl
    on _ h = ground arith

pub skip_job-IsLinked : (t : Table) (id now : ℕ) → IsLinked t → IsLinked (skip_job t id now).0
unfolding skip_job completed_row is_done Status-discrete
skip_job-IsLinked t id now l = with_tx-keeps IsLinked _ t l (skipped (row_where (is_stopped id) t))
  where
    completed_all : IsLinked (update_where (is_stopped id) (completed_row now) t)
    completed_all =
        update-IsLinked _ _ t l
          λ a m h. begun-Moves t a _ refl refl refl refl refl (stopped_begun id a h) (λ k. refl)

    skipped : (r : Option Row) → IsLinked (skip_row id now t r).0
    skipped none = l
    skipped (some r) = open_place-IsLinked _ r.chain_id (inc64 r.sequence) now completed_all

pub reschedule_job-IsLinked :
    (t : Table) (id at now : ℕ) → IsLinked t → IsLinked (reschedule_job t id at now).0
unfolding reschedule_job moved_row is_done has_started
reschedule_job-IsLinked t id at now l = with_tx-keeps IsLinked _ t l (
    update-IsLinked (can_move id) (moved_row at now) t l λ a m h. record {
      same_id = refl;
      same_chain = refl;
      same_place = refl;
      stays_done = λ k. k;
      starts = λ k. inl k;
      dates = λ p. p;
    })

pub open_all-IsLinked :
    (now : ℕ) (rs : List Row) (t : Table) → IsLinked t → IsLinked (open_all now rs t)
unfolding open_all waits_behind opened_row has_begun
open_all-IsLinked now [] t l = l
open_all-IsLinked now (r ∷ rs) t l = open_all-IsLinked now rs _ (
    update-IsLinked _ _ t l
      λ a m h. waiting-Moves t a _ refl refl refl refl refl refl (blocked_undone a (ground arith)))

pub dead_begun :
    (ops : SqlText) (f : JobFilter) (a : Row) → dlq_where ops f a ≡ true → has_begun a.status ≡ true
unfolding dlq_where is_dead has_begun Status-discrete
dead_begun ops f a h = on a.status (ground arith)
  where
    on : (s : Status) → (same s failed || same s dead_lettered) ≡ true → has_begun s ≡ true
    on failed h = refl
    on dead_lettered h = refl
    on _ h = ground arith

pub bulk_skip_dlq-IsLinked :
    (ops : SqlText) (t : Table) (f : JobFilter) (now : ℕ)
    → IsLinked t
    → IsLinked (bulk_skip_dlq ops t f now).0
unfolding bulk_skip_dlq completed_row is_done Status-discrete
bulk_skip_dlq-IsLinked ops t f now l =
    with_tx-keeps IsLinked (λ s. skip_rows ops f now s (select_where (dlq_where ops f) s)) t l
      (skipped (select_where (dlq_where ops f) t))
  where
    completed_all : IsLinked (update_where (dlq_where ops f) (completed_row now) t)
    completed_all =
        update-IsLinked _ _ t l
          λ a m h. begun-Moves t a _ refl refl refl refl refl (dead_begun ops f a h) (λ k. refl)

    skipped : (rs : List Row) → IsLinked (skip_rows ops f now t rs).0
    skipped [] = l
    skipped (r ∷ rs) = open_all-IsLinked now (r ∷ rs) _ completed_all
