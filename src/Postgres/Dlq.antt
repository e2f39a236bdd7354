-- ===== src/Postgres/Dlq.antt =====
-- repository/postgres/repository.go: the failed and dead-lettered jobs (buildDLQWhere, BulkReplayDLQ,
-- BulkSkipDLQ, BulkPurgeDLQ, CountDLQ). ILIKE and the texts of ids are parameters.
use orderedjob.Prelude.{
  ℕ, String, Bool, false, true, ◌&&◌, ◌||◌, Option, none, some, List, [], ◌∷◌, if◌then◌else◌,
}
use orderedjob.Int64.{ℤ, pos}
use orderedjob.Lifecycle.{pending, blocked, failed, dead_lettered, same}
use orderedjob.Job.{JobFilter, Result, ok, is_empty}
use orderedjob.Sql.{
  is_text, is_int, null_or_text, select_where, update_where, delete_where, count_where, with_tx,
}
use orderedjob.Sql.Schema.{Row, Table, prev}
use orderedjob.Postgres.Lease.{completed_row, opened_row}

-- What the database does with texts: `a ILIKE '%' || b || '%'`, `id::text`, and the order of its
-- collation.
pub record SqlText : Type 0 where
  pub ilike : String → String → Bool
  pub show_id : ℕ → String
  pub before : String → String → Bool

-- Where a condition on a column is only made for a text that is not empty.
unfoldable pub asks : String → String → Bool
asks wanted actual = if is_empty wanted then true else is_text actual wanted

unfoldable pub asks_null : String → Option String → Bool
asks_null wanted actual = if is_empty wanted then true else null_or_text actual wanted

abbrev pub null_ilike : SqlText → Option String → String → Bool
null_ilike ops none search = false
null_ilike ops (some a) search = ops.ilike a search

-- status IN ('FAILED', 'DEAD_LETTERED')
unfoldable pub is_dead : Row → Bool
is_dead r = same r.status failed || same r.status dead_lettered

unfoldable pub found_by : SqlText → String → Row → Bool
found_by ops search r =
    if is_empty search
    then true
    else ops.ilike (ops.show_id r.id) search
      || (null_ilike ops r.idempotency_key search
          || (null_ilike ops r.trace_id search || null_ilike ops r.last_error search))

-- buildDLQWhere
unfoldable pub dlq_where : SqlText → JobFilter → Row → Bool
dlq_where ops f r =
    is_dead r
    && (asks f.chain_id r.chain_id
        && (asks f.job_type r.job_type
            && (asks_null f.tenant_id r.tenant_id
                && (asks_null f.trace_id r.trace_id && found_by ops f.search r))))

unfoldable pub bulk_replayed_row : ℕ → Row → Row
bulk_replayed_row now r = record r {
  status = pending;
  attempt = pos 0;
  last_error = some "";
  available_at = now;
  updated_at = now;
  lease_until = none;
}

-- BulkReplayDLQ
unfoldable pub bulk_replay_dlq : SqlText → Table → JobFilter → ℕ → Table × Result ℕ
bulk_replay_dlq ops t f now =
    (update_where (dlq_where ops f) (bulk_replayed_row now) t, ok (count_where (dlq_where ops f) t))

-- chain_id=$1 AND sequence=$2+1 AND status='BLOCKED', where the sum does not wrap round
unfoldable pub waits_behind : String → ℤ → Row → Bool
waits_behind chain seq r =
    (is_text r.chain_id chain && is_int (prev r.sequence) seq) && same r.status blocked

-- the loop of BulkSkipDLQ over the places of the rows
unfoldable pub open_all : ℕ → List Row → Table → Table
open_all now [] t = t
open_all now (r ∷ rs) t =
    open_all now rs (update_where (waits_behind r.chain_id r.sequence) (opened_row now) t)

abbrev pub skip_rows : SqlText → JobFilter → ℕ → Table → List Row → Table × Result (Unit {0})
skip_rows ops f now t [] = (t, ok tt)
skip_rows ops f now t (r ∷ rs) =
    (open_all now (r ∷ rs) (update_where (dlq_where ops f) (completed_row now) t), ok tt)

-- BulkSkipDLQ, whose number is always 0
unfoldable pub bulk_skip_dlq : SqlText → Table → JobFilter → ℕ → Table × ℕ × Result (Unit {0})
bulk_skip_dlq ops t f now =
    let (t', e) = with_tx (λ s. skip_rows ops f now s (select_where (dlq_where ops f) s)) t in
    (t', 0, e)

-- BulkPurgeDLQ
unfoldable pub bulk_purge_dlq : SqlText → Table → JobFilter → Table × Result ℕ
bulk_purge_dlq ops t f = (delete_where (dlq_where ops f) t, ok (count_where (dlq_where ops f) t))

-- CountDLQ
unfoldable pub count_dlq : Table → ℕ
count_dlq t = count_where is_dead t
