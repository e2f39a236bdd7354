-- ===== src/SqlServer/Query.antt =====
-- repository/sqlserver/repository.go: Get, GetByChainSeq, ListPendingChains and GetStats.
use orderedjob.Prelude.{ℕ, String, ◌||◌, List, length}
use orderedjob.Int64.{ℤ}
use orderedjob.Lifecycle.{
  pending, blocked, processing, completed, retrying, failed, dead_lettered, cancel_requested,
  cancelled, same,
}
use orderedjob.Job.{Job, Stats, Result}
use orderedjob.Sql.{select_where, row_where, count_where}
use orderedjob.Sql.Schema.{Table, has_id, at_place}
use orderedjob.Postgres.Query.{scanned, chains_of, is_scheduled, with_status}

-- Get
unfoldable pub get_job : Table → ℕ → Result Job
get_job t id = scanned (row_where (has_id id) t)

-- GetByChainSeq
unfoldable pub get_by_chain_seq : Table → String → ℤ → Result Job
get_by_chain_seq t chain seq = scanned (row_where (at_place chain seq) t)

-- ListPendingChains
unfoldable pub list_pending_chains : Table → List String
list_pending_chains t =
    chains_of (select_where (λ r. same r.status pending || same r.status retrying) t)

-- GetStats; a state that the `switch` does not name is only in the total.
unfoldable pub get_stats : Table → ℕ → Stats
get_stats t now = record {
  pending = with_status pending t;
  blocked = with_status blocked t;
  processing = with_status processing t;
  completed = with_status completed t;
  retrying = with_status retrying t;
  failed = with_status failed t;
  dead_lettered = with_status dead_lettered t;
  cancel_requested = with_status cancel_requested t;
  cancelled = with_status cancelled t;
  scheduled = count_where (is_scheduled now) t;
  total = length t;
  active_chains = length (chains_of t);
}
