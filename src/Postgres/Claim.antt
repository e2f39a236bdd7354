-- ===== src/Postgres/Claim.antt =====
-- repository/postgres/repository.go: Claim. The rows that other transactions hold, which SKIP LOCKED
-- passes over, are a parameter.
use orderedjob.Prelude.{
  ℕ, String, Bool, ◌&&◌, ◌||◌, not, ◌==◌, ltb, leb, Option, none, some, List, [], ◌∷◌,
  if◌then◌else◌,
}
use orderedjob.Int64.{ℤ, inc64}
use orderedjob.Lifecycle.{pending, retrying, processing, same}
use orderedjob.Job.{Job, Result, ok, err, not_found}
use orderedjob.Sql.{coalesce, select_where, row_where, update_where, limit, order_by, with_tx}
use orderedjob.Sql.Schema.{Row, Table, scan_job, has_id, may_follow}
use orderedjob.Postgres.Lease.{lease_end}

-- the WHERE of the candidates
unfoldable pub is_claimable : Table → ℕ → Row → Bool
is_claimable t now r =
    (same r.status pending || same r.status retrying) && (leb r.available_at now && may_follow t r)

-- ORDER BY available_at ASC, created_at ASC
unfoldable pub earlier : Row → Row → Bool
earlier a b =
    if a.available_at == b.available_at
    then ltb a.created_at b.created_at
    else ltb a.available_at b.available_at

unfoldable pub candidates : (Row → Bool) → Table → ℕ → List Row
candidates locked t now =
    limit 1 (order_by earlier (select_where (λ r. is_claimable t now r && not (locked r)) t))

-- the SET of the UPDATE
unfoldable pub claimed_row : String → ℤ → ℕ → Row → Row
claimed_row worker lease now r = record r {
  status = processing;
  worker_id = some worker;
  lease_until = some (lease_end lease now);
  lease_generation = inc64 r.lease_generation;
  attempt = inc64 r.attempt;
  started_at = some (coalesce r.started_at now);
  updated_at = now;
}

abbrev pub claimed_job : Option Row → Result Job
claimed_job none = err not_found
claimed_job (some r) = ok (scan_job r)

abbrev pub claim_first : String → ℤ → ℕ → Table → List Row → Table × Result Job
claim_first worker lease now t [] = (t, err not_found)
claim_first worker lease now t (c ∷ _) =
    let t' = update_where (has_id c.id) (claimed_row worker lease now) t in
    (t', claimed_job (row_where (has_id c.id) t'))

-- Claim
unfoldable pub claim : (Row → Bool) → Table → String → ℤ → ℕ → Table × Result Job
claim locked t worker lease now =
    with_tx (λ s. claim_first worker lease now s (candidates locked s now)) t
