-- ===== src/Postgres/Query.antt =====
-- repository/postgres/repository.go: Get, GetByChainSeq, ListPendingChains, GetStats, ListJobs and
-- ListChains. `strings.ToLower` and `strings.EqualFold` are parameters, as is the database's work on
-- texts.
use orderedjob.Prelude.{
  ℕ, zero, suc, String, Bool, false, true, not, ◌&&◌, ◌||◌, ite, ltb, Option, none, some, List, [],
  ◌∷◌, map, length, if◌then◌else◌, text_discrete,
}
use orderedjob.Int64.{ℤ, pos, negsuc, lt64}
use orderedjob.Lifecycle.{
  Status, unset, pending, blocked, processing, completed, retrying, failed, dead_lettered,
  cancel_requested, cancelled, same,
}
use orderedjob.Job.{
  Job, JobFilter, ChainFilter, ChainSummary, Stats, Result, ok, err, not_found, is_empty,
}
use orderedjob.Memory.Listing.{drop, status_text}
use orderedjob.Sql.{
  is_text, select_where, row_where, count_where, limit, order_by, max_of, coalesce,
}
use orderedjob.Sql.Schema.{Row, Table, scan_job, has_id, at_place}
use orderedjob.Postgres.Dlq.{SqlText, asks, asks_null, null_ilike}

abbrev pub scanned : Option Row → Result Job
scanned none = err not_found
scanned (some r) = ok (scan_job r)

-- Get
unfoldable pub get_job : Table → ℕ → Result Job
get_job t id = scanned (row_where (has_id id) t)

-- GetByChainSeq
unfoldable pub get_by_chain_seq : Table → String → ℤ → Result Job
get_by_chain_seq t chain seq = scanned (row_where (at_place chain seq) t)

unfoldable pub has_chain : String → List String → Bool
has_chain c [] = false
has_chain c (d ∷ ds) = let rest = has_chain c ds in if is_text d c then true else rest

-- SELECT DISTINCT chain_id
unfoldable pub chains_of : Table → List String
chains_of [] = []
chains_of (r ∷ t) =
    let rest = chains_of t in if has_chain r.chain_id rest then rest else r.chain_id ∷ rest

-- ListPendingChains
unfoldable pub list_pending_chains : Table → List String
list_pending_chains t = chains_of (select_where (λ r. same r.status pending) t)

-- status IN ('PENDING', 'RETRYING') AND available_at > NOW()
unfoldable pub is_scheduled : ℕ → Row → Bool
is_scheduled now r = (same r.status pending || same r.status retrying) && ltb now r.available_at

unfoldable pub with_status : Status → Table → ℕ
with_status s t = count_where (λ r. same r.status s) t

-- GetStats; a state that the `switch` does not name is only in the total.
unfoldable pub get_stats : Table → ℕ → Stats
get_stats t now = record {
  pending = with_status pending t;
  blocked = with_status blocked t;
  processing = with_status processing t;
  completed = with_status completed t;
  retrying = with_status retrying t;
  failed = with_status failed t;
  dead_lettered = with_status dead_lettered t;
  cancel_requested = with_status cancel_requested t;
  cancelled = with_status cancelled t;
  scheduled = count_where (is_scheduled now) t;
  total = length t;
  active_chains = length (chains_of t);
}

-- the limit and the offset that a query gets
unfoldable pub page_limit : ℤ → ℕ
page_limit (pos zero) = 50
page_limit (pos (suc n)) = suc n
page_limit (negsuc n) = 50

unfoldable pub page_offset : ℤ → ℕ
page_offset (pos n) = n
page_offset (negsuc n) = 0

-- LIMIT … OFFSET …
unfoldable pub page : {A : Type 0} → ℤ → ℤ → List A → List A
page max offset rows = limit (page_limit max) (drop (page_offset offset) rows)

abbrev pub is : String → String → Bool
is a b = ite (text_discrete a b) true false

module _ (ops : SqlText) where
  unfoldable pub found_job : String → Row → Bool
  found_job search r =
      if is_empty search
      then true
      else ops.ilike (ops.show_id r.id) search
        || (null_ilike ops r.idempotency_key search || null_ilike ops r.trace_id search)

  -- the WHERE of ListJobs
  unfoldable pub jobs_where : JobFilter → ℕ → Row → Bool
  jobs_where f now r =
      (not f.scheduled_only || is_scheduled now r)
      && (asks f.chain_id r.chain_id
          && ((same f.status unset || same r.status f.status)
              && (asks f.job_type r.job_type
                  && (asks_null f.tenant_id r.tenant_id
                      && (asks_null f.trace_id r.trace_id && found_job f.search r)))))

  -- the column of ListJobs
  unfoldable pub job_before : String → Row → Row → Bool
  job_before by a b =
      if is by "sequence"
      then lt64 a.sequence b.sequence
      else if is by "available_at"
      then ltb a.available_at b.available_at
      else if is by "job_type"
      then ops.before a.job_type b.job_type
      else if is by "status"
      then ops.before (status_text a.status) (status_text b.status)
      else ltb a.created_at b.created_at

  -- ListJobs
  unfoldable pub list_jobs :
      (String → String) → (String → String → Bool) → Table → JobFilter → ℕ → List Job × ℕ
  list_jobs to_lower equal_fold t f now =
      let less = job_before (to_lower f.order_by) in
      let ascending = equal_fold f.order_dir "asc" in
      let rows = select_where (jobs_where f now) t in
      (
        map scan_job (
            page f.limit f.offset
              (order_by (λ a b. if ascending then less a b else less b a) rows)),
        count_where (jobs_where f now) t,
      )

  -- the groups of ListChains
  unfoldable pub chain_where : String → Row → Bool
  chain_where search r = if is_empty search then true else ops.ilike r.chain_id search

  abbrev pub latest : Option Row → Status
  latest none = unset
  latest (some r) = r.status

  unfoldable pub is_open : Row → Bool
  is_open r = same r.status pending || (same r.status processing || same r.status retrying)

  -- the columns of a group, and the lookup of the state of its last job
  unfoldable pub chain_row : Table → String → ChainSummary
  chain_row t chain =
      let rows = select_where (λ r. is_text r.chain_id chain) t in
      let last = coalesce (max_of (λ r. r.sequence) rows) (pos 0) in
      record {
        chain_id = chain;
        total_jobs = length rows;
        max_sequence = last;
        pending_jobs = count_where is_open rows;
        failed_jobs = count_where (λ r. same r.status failed || same r.status dead_lettered) rows;
        latest_status = latest (row_where (at_place chain last) t);
      }

  -- the column of ListChains
  unfoldable pub chain_before : String → ChainSummary → ChainSummary → Bool
  chain_before by a b =
      if is by "total_jobs"
      then ltb a.total_jobs b.total_jobs
      else if is by "max_sequence"
      then lt64 a.max_sequence b.max_sequence
      else if is by "pending_jobs"
      then ltb a.pending_jobs b.pending_jobs
      else if is by "failed_jobs"
      then ltb a.failed_jobs b.failed_jobs
      else ops.before a.chain_id b.chain_id

  -- ListChains
  unfoldable pub list_chains :
      (String → String) → (String → String → Bool) → Table → ChainFilter → List ChainSummary × ℕ
  list_chains to_lower equal_fold t f =
      let less = chain_before (to_lower f.order_by) in
      let descending = equal_fold f.order_dir "desc" in
      let chains = chains_of (select_where (chain_where f.search) t) in
      (
        page f.limit f.offset (
            order_by (λ a b. if descending then less b a else less a b) (map (chain_row t) chains)),
        length chains,
      )
