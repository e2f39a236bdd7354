-- ===== src/SqlServer/Inserts.antt =====
-- Enqueue, EnqueueBatch and BulkSkipDLQ of repository/sqlserver/repository.go keep the invariant of the
-- table.
use orderedjob.Prelude.{ℕ, refl, Bool, Option, none, some, List, [], ◌∷◌, ◌++◌, if◌then◌else◌}
use orderedjob.Int64.{ℤ}
use orderedjob.Lifecycle.{Status-discrete}
use orderedjob.Job.{Job, EnqueueRequest, JobFilter, RepoError, Result, ok, err, is_empty}
use orderedjob.Sql.{select_where, update_where}
use orderedjob.Sql.Schema.{Row, Table, is_done}
use orderedjob.Sql.Order.{IsLinked}
use orderedjob.Sql.Keeps.{update-IsLinked, with_tx-keeps}
use orderedjob.Sql.Moving.{begun-Moves}
use orderedjob.Postgres.Lease.{completed_row}
use orderedjob.Postgres.Dlq.{SqlText, dlq_where}
use orderedjob.Postgres.Enqueue.{choose_sequence, determine_status, find_in_batch, or_strict}
use orderedjob.Postgres.Skips.{open_all-IsLinked, dead_begun}
use orderedjob.Postgres.Inserts.{inserted-IsLinked, determine_status_waits}
use orderedjob.SqlServer.Enqueue.{
  find_existing, insert_in_tx, unless_in_batch, unless_existing, enqueue_single, missing_part,
  missing_in, enqueue_new, enqueue_valid, enqueue, enqueue_all, batch_valid, enqueue_batch,
}
use orderedjob.SqlServer.Dlq.{skip_rows, bulk_skip_dlq}

enqueue_single-IsLinked :
    (allow_gap : Bool) (t : Table) (req : EnqueueRequest) (id now : ℕ) (batch : List Job)
    → IsLinked t
    → IsLinked (enqueue_single allow_gap t req id now batch).0
unfolding enqueue_single
enqueue_single-IsLinked allow_gap t req id now batch l = on (find_existing t req.idempotency_key)
  where
    with_sequence : (seq : Result ℤ) → IsLinked (insert_in_tx t req id now batch seq).0
    with_sequence (err e) = l
    with_sequence (ok seq) =
        inserted-IsLinked t req id now seq (determine_status t req.chain_id seq batch)
          (or_strict req.ordering_mode) _ l (determine_status_waits t req.chain_id seq batch)

    unless : (o : Option Job) → IsLinked (unless_in_batch allow_gap t req id now batch o).0
    unless (some j) = l
    unless none = with_sequence (choose_sequence allow_gap t req)

    on : (o : Option Job) → IsLinked (unless_existing allow_gap t req id now batch o).0
    on (some existing) = l
    on none =
        unless
          (if is_empty req.idempotency_key then none else find_in_batch req.idempotency_key batch)

pub enqueue-IsLinked :
    (allow_gap : Bool) (t : Table) (req : EnqueueRequest) (id now : ℕ)
    → IsLinked t
    → IsLinked (enqueue allow_gap t req id now).0
unfolding enqueue
enqueue-IsLinked allow_gap t req id now l = checked (missing_part req)
  where
    on : (o : Option Job) → IsLinked (enqueue_new allow_gap req id now t o).0
    on (some existing) = l
    on none = enqueue_single-IsLinked allow_gap t req id now [] l

    checked : (o : Option RepoError) → IsLinked (enqueue_valid allow_gap t req id now o).0
    checked (some e) = l
    checked none =
        with_tx-keeps IsLinked
          (λ s. enqueue_new allow_gap req id now s (find_existing s req.idempotency_key)) t l
          (on (find_existing t req.idempotency_key))

enqueue_all-IsLinked :
    (allow_gap : Bool) (t : Table) (out : List Job) (reqs : List (EnqueueRequest × ℕ × ℕ))
    → IsLinked t
    → IsLinked (enqueue_all allow_gap t out reqs).0
unfolding enqueue_all
enqueue_all-IsLinked allow_gap t out [] l = l
enqueue_all-IsLinked allow_gap t out ((req, id, now) ∷ rest) l =
    on (enqueue_single allow_gap t req id now out)
      (enqueue_single-IsLinked allow_gap t req id now out l)
      (λ u js. enqueue_all-IsLinked allow_gap u js rest)
  where
    on :
        (c : Table × Result Job)
        → IsLinked c.0
        → ((u : Table) (js : List Job) → IsLinked u → IsLinked (enqueue_all allow_gap u js rest).0)
        → IsLinked
            (elim c.1 as (λ _. Table × Result (List Job)) [
              | err e ↦ (c.0, err e)
              | ok j ↦ enqueue_all allow_gap c.0 (out ++ j ∷ []) rest
            ]).0
    on (u, err e) k go = k
    on (u, ok j) k go = go u (out ++ j ∷ []) k

pub enqueue_batch-IsLinked :
    (allow_gap : Bool) (t : Table) (reqs : List (EnqueueRequest × ℕ × ℕ))
    → IsLinked t
    → IsLinked (enqueue_batch allow_gap t reqs).0
unfolding enqueue_batch
enqueue_batch-IsLinked allow_gap t reqs l = checked (missing_in 0 reqs)
  where
    checked : (o : Option RepoError) → IsLinked (batch_valid allow_gap t reqs o).0
    checked (some e) = l
    checked none =
        with_tx-keeps IsLinked (λ s. enqueue_all allow_gap s [] reqs) t l
          (enqueue_all-IsLinked allow_gap t [] reqs l)

pub bulk_skip_dlq-IsLinked :
    (ops : SqlText) (t : Table) (f : JobFilter) (now : ℕ)
    → IsLinked t
    → IsLinked (bulk_skip_dlq ops t f now).0
unfolding bulk_skip_dlq completed_row is_done Status-discrete
bulk_skip_dlq-IsLinked ops t f now l = skipped (select_where (dlq_where ops f) t)
  where
    completed_all : IsLinked (update_where (dlq_where ops f) (completed_row now) t)
    completed_all =
        update-IsLinked _ _ t l
          λ a m h. begun-Moves t a _ refl refl refl refl refl (dead_begun ops f a h) (λ k. refl)

    skipped : (rs : List Row) → IsLinked (skip_rows ops f now t rs).0
    skipped [] = l
    skipped (r ∷ rs) = open_all-IsLinked now (r ∷ rs) _ completed_all
