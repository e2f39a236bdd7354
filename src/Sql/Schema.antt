-- ===== src/Sql/Schema.antt =====
-- 001_initial.sql of repository/postgres and repository/sqlserver: the table ordered_jobs, and its
-- rows as jobs. The columns that are INT are not bounded here.
use orderedjob.Prelude.{
  ℕ, String, Bool, true, false, ◌&&◌, ◌||◌, Option, none, some, List, ◌∷◌, ite, ℕ_discrete,
  if◌then◌else◌,
}
use orderedjob.Int64.{ℤ, pos, negsuc}
use orderedjob.Lifecycle.{Status, completed, failed, dead_lettered, same}
use orderedjob.Job.{Job, OrderingMode, is_empty}
use orderedjob.Memory.State.{continues}
use orderedjob.Sql.{is_text, is_int, coalesce, exists_where}

pub record Row : Type 0 where
  pub id : ℕ
  pub chain_id : String
  pub sequence : ℤ
  pub job_type : String
  pub payload : String
  pub status : Status
  pub attempt : ℤ
  pub max_attempts : ℤ
  pub available_at : ℕ
  pub deadline_at : Option ℕ
  pub worker_id : Option String
  pub lease_until : Option ℕ
  pub lease_generation : ℤ
  pub started_at : Option ℕ
  pub completed_at : Option ℕ
  pub failed_at : Option ℕ
  pub idempotency_key : Option String
  pub last_error : Option String
  pub tenant_id : Option String
  pub trace_id : Option String
  pub ordering_mode : OrderingMode
  pub created_at : ℕ
  pub updated_at : ℕ

abbrev pub Table : Type 0
Table = List Row

-- nullable
abbrev pub nullable : String → Option String
nullable s = if is_empty s then none else some s

-- The columns that the repositories select, with their COALESCE.
unfoldable pub scan_job : Row → Job
scan_job r = record {
  id = r.id;
  chain_id = r.chain_id;
  sequence = r.sequence;
  job_type = r.job_type;
  payload = r.payload;
  idempotency_key = coalesce r.idempotency_key "";
  tenant_id = coalesce r.tenant_id "";
  ordering_mode = r.ordering_mode;
  status = r.status;
  attempt = r.attempt;
  max_attempts = r.max_attempts;
  available_at = r.available_at;
  deadline_at = r.deadline_at;
  worker_id = coalesce r.worker_id "";
  lease_until = r.lease_until;
  lease_generation = r.lease_generation;
  last_error = coalesce r.last_error "";
  created_at = r.created_at;
  updated_at = r.updated_at;
  started_at = r.started_at;
  completed_at = r.completed_at;
  failed_at = r.failed_at;
  trace_id = coalesce r.trace_id "";
}

-- id = $1
unfoldable pub has_id : ℕ → Row → Bool
has_id id r = ite (ℕ_discrete r.id id) true false

-- chain_id = $1 AND sequence = $2
unfoldable pub at_place : String → ℤ → Row → Bool
at_place chain seq r = is_text r.chain_id chain && is_int r.sequence seq

-- `sequence - 1` in a statement, which does not wrap round
unfoldable pub prev : ℤ → ℤ
prev (pos ℕ.zero) = negsuc 0
prev (pos (ℕ.suc n)) = pos n
prev (negsuc n) = negsuc (ℕ.suc n)

-- status = 'COMPLETED' OR (status IN ('FAILED', 'DEAD_LETTERED') AND ordering_mode IN (…))
unfoldable pub is_done : Row → Bool
is_done r =
    same r.status completed
    || ((same r.status failed || same r.status dead_lettered) && continues r.ordering_mode)

-- sequence = 1 OR EXISTS (the row before it, done)
unfoldable pub may_follow : Table → Row → Bool
may_follow t r =
    is_int r.sequence (pos 1)
    || exists_where (λ p. at_place r.chain_id (prev r.sequence) p && is_done p) t

-- a row that the primary key or a unique constraint of the table does not let stand beside `r`
unfoldable pub conflicts : Row → Row → Bool
conflicts r other = has_id r.id other || at_place r.chain_id r.sequence other

-- INSERT: `none` where a constraint is violated.
unfoldable pub insert_row : Row → Table → Option Table
insert_row r t = if exists_where (conflicts r) t then none else some (r ∷ t)
