-- ===== src/SqlServer/Dlq.antt =====
-- repository/sqlserver/repository.go: the failed and dead-lettered jobs (buildDLQWhere, BulkReplayDLQ,
-- BulkSkipDLQ, BulkPurgeDLQ, CountDLQ). LIKE takes the place of ILIKE.
use orderedjob.Prelude.{ℕ, List, [], ◌∷◌}
use orderedjob.Job.{JobFilter, Result, ok}
use orderedjob.Sql.{select_where, update_where, delete_where, count_where}
use orderedjob.Sql.Schema.{Row, Table}
use orderedjob.Postgres.Lease.{completed_row}
use orderedjob.Postgres.Dlq.{SqlText, dlq_where, is_dead, bulk_replayed_row, open_all}

-- BulkReplayDLQ
unfoldable pub bulk_replay_dlq : SqlText → Table → JobFilter → ℕ → Table × Result ℕ
bulk_replay_dlq ops t f now =
    (update_where (dlq_where ops f) (bulk_replayed_row now) t, ok (count_where (dlq_where ops f) t))

abbrev pub skip_rows : SqlText → JobFilter → ℕ → Table → List Row → Table × Result ℕ
skip_rows ops f now t [] = (t, ok 0)
skip_rows ops f now t (r ∷ rs) = (
  open_all now (r ∷ rs) (update_where (dlq_where ops f) (completed_row now) t),
  ok (count_where (dlq_where ops f) t),
)

-- BulkSkipDLQ
unfoldable pub bulk_skip_dlq : SqlText → Table → JobFilter → ℕ → Table × Result ℕ
bulk_skip_dlq ops t f now = skip_rows ops f now t (select_where (dlq_where ops f) t)

-- BulkPurgeDLQ
unfoldable pub bulk_purge_dlq : SqlText → Table → JobFilter → Table × Result ℕ
bulk_purge_dlq ops t f = (delete_where (dlq_where ops f) t, ok (count_where (dlq_where ops f) t))

-- CountDLQ
unfoldable pub count_dlq : Table → ℕ
count_dlq t = count_where is_dead t
