-- ===== src/SqlServer/Runs.antt =====
-- The methods of repository/sqlserver/repository.go as steps, and what holds after any run of them.
-- The methods that put a done job back, or delete one (ReplayJob, ReplayJobWithPayload,
-- BulkReplayDLQ, BulkPurgeDLQ), are not among the steps.
use orderedjob.Prelude.{ℕ, String, ◌≡◌, ◌≢◌, Bool, Option, List, [], In}
use orderedjob.Int64.{ℤ}
use orderedjob.Lifecycle.{processing, blocked}
use orderedjob.Job.{EnqueueRequest, JobFilter}
use orderedjob.Sql.Schema.{Row, Table}
use orderedjob.Sql.Order.{IsLinked, HasTurn, may_follow-HasTurn, []-IsLinked}
use orderedjob.Sql.Exclusive.{one_running, running-started}
use orderedjob.Postgres.Dlq.{SqlText}
use orderedjob.SqlServer.Lease.{
  claim, complete, fail, retry, heartbeat, confirm_cancel, promote_next,
}
use orderedjob.SqlServer.Enqueue.{enqueue, enqueue_batch}
use orderedjob.SqlServer.Admin.{request_cancel, recover_stale, skip_job, reschedule_job}
use orderedjob.SqlServer.Dlq.{bulk_skip_dlq}
use orderedjob.SqlServer.Steps.{
  claim-IsLinked, complete-IsLinked, fail-IsLinked, retry-IsLinked, heartbeat-IsLinked,
  confirm_cancel-IsLinked, promote_next-IsLinked, request_cancel-IsLinked, recover_stale-IsLinked,
  skip_job-IsLinked, reschedule_job-IsLinked,
}
use orderedjob.SqlServer.Inserts.{enqueue-IsLinked, enqueue_batch-IsLinked, bulk_skip_dlq-IsLinked}

-- One call of a method; SkipJob is called for a job that is not BLOCKED.
pub data Step (t : Table) : Table → Type 0 where
  enqueues :
      (allow_gap : Bool) (req : EnqueueRequest) (id now : ℕ)
      → Step t (enqueue allow_gap t req id now).0
  enqueues_batch :
      (allow_gap : Bool) (reqs : List (EnqueueRequest × ℕ × ℕ))
      → Step t (enqueue_batch allow_gap t reqs).0
  claims :
      (locked : Row → Bool) (worker : String) (lease : ℤ) (now : ℕ)
      → Step t (claim locked t worker lease now).0
  completes :
      (id : ℕ) (worker : String) (gen : ℤ) (now : ℕ) → Step t (complete t id worker gen now).0
  fails :
      (id : ℕ) (worker : String) (gen : ℤ) (msg : String) (terminal : Bool) (now : ℕ)
      → Step t (fail t id worker gen msg terminal now).0
  retries :
      (id : ℕ) (worker : String) (gen : ℤ) (msg : String) (next now : ℕ)
      → Step t (retry t id worker gen msg next now).0
  beats :
      (id : ℕ) (worker : String) (gen lease : ℤ) (now : ℕ)
      → Step t (heartbeat t id worker gen lease now).0
  confirms :
      (id : ℕ) (worker : String) (gen : ℤ) (now : ℕ) → Step t (confirm_cancel t id worker gen now).0
  cancels : (id now : ℕ) → Step t (request_cancel t id now).0
  recovers :
      (locked : Row → Bool) (max : ℤ) (policy : Option (ℤ → ℕ)) (now : ℕ)
      → Step t (recover_stale locked t max policy now).0
  promotes : (chain : String) (seq : ℤ) (now : ℕ) → Step t (promote_next t chain seq now)
  skips :
      (id now : ℕ)
      → ((a : Row) → In a t → a.id ≡ id → a.status ≢ blocked)
      → Step t (skip_job t id now).0
  reschedules : (id at now : ℕ) → Step t (reschedule_job t id at now).0
  bulk_skips : (ops : SqlText) (f : JobFilter) (now : ℕ) → Step t (bulk_skip_dlq ops t f now).0

pub data Reach (t : Table) : Table → Type 0 where
  here : Reach t t
  next : {s u : Table} → Reach t s → Step s u → Reach t u

-- Every step keeps a linked table linked.
pub Step-IsLinked : {t u : Table} → Step t u → IsLinked t → IsLinked u
Step-IsLinked {t} (enqueues gap req id now) l = enqueue-IsLinked gap t req id now l
Step-IsLinked {t} (enqueues_batch gap reqs) l = enqueue_batch-IsLinked gap t reqs l
Step-IsLinked {t} (claims locked w lease now) l = claim-IsLinked locked t w lease now l
Step-IsLinked {t} (completes id w g now) l = complete-IsLinked t id w g now l
Step-IsLinked {t} (fails id w g m final now) l = fail-IsLinked t id w g m final now l
Step-IsLinked {t} (retries id w g m n now) l = retry-IsLinked t id w g m n now l
Step-IsLinked {t} (beats id w g lease now) l = heartbeat-IsLinked t id w g lease now l
Step-IsLinked {t} (confirms id w g now) l = confirm_cancel-IsLinked t id w g now l
Step-IsLinked {t} (cancels id now) l = request_cancel-IsLinked t id now l
Step-IsLinked {t} (recovers locked max p now) l = recover_stale-IsLinked locked t max p now l
Step-IsLinked {t} (promotes c s now) l = promote_next-IsLinked t c s now l
Step-IsLinked {t} (skips id now free) l = skip_job-IsLinked t id now free l
Step-IsLinked {t} (reschedules id at now) l = reschedule_job-IsLinked t id at now l
Step-IsLinked {t} (bulk_skips ops f now) l = bulk_skip_dlq-IsLinked ops t f now l

pub Reach-IsLinked : {t u : Table} → Reach t u → IsLinked t → IsLinked u
Reach-IsLinked here l = l
Reach-IsLinked (next p st) l = Step-IsLinked st (Reach-IsLinked p l)

-- After any run on an empty table, without the methods that put a done job back or delete it, two
-- running rows of one chain are one row, and a running row is the first of its chain or has a
-- completed row before it, or one that failed in a mode that lets the chain go on; SkipJob is called
-- for a job that is not BLOCKED.
pub rows_run_by_turn :
    (t : Table) (a : Row)
    → Reach [] t
    → In a t
    → a.status ≡ processing
    → HasTurn t a × ((b : Row) → In b t → b.status ≡ processing → a.chain_id ≡ b.chain_id → a ≡ b)
rows_run_by_turn t a p m e =
    let l = Reach-IsLinked p []-IsLinked in
    (
      may_follow-HasTurn t a (l.behind a m (running-started t a l m e)),
      λ b n f. one_running t a b l m n e f,
    )
