-- ===== src/Memory/Bulk.antt =====
-- repository/memory/repository.go: the filter of the dead-letter queue and its bulk methods.
-- `strings.ToLower`, `strings.Contains` and the text of a uuid are parameters.
use orderedjob.Prelude.{
  ℕ, suc, String, Bool, false, true, ◌&&◌, ◌||◌, ite, Option, none, some, List, [], ◌∷◌, ℕ_discrete,
  text_discrete, if◌then◌else◌,
}
use orderedjob.Int64.{ℤ, ℤ_discrete}
use orderedjob.GoMap.{GoMap, get, insert, delete, keys, range}
use orderedjob.Lifecycle.{failed, dead_lettered, same}
use orderedjob.Job.{Job, JobFilter, is_empty}
use orderedjob.Memory.State.{Repo, find_job, put_job}
use orderedjob.Memory.Lease.{promote_after, completed_job}
use orderedjob.Memory.Admin.{replayed_job}

pub record TextOps : Type 0 where
  pub to_lower : String → String
  pub contains : String → String → Bool
  pub show_id : ℕ → String

-- FAILED or DEAD_LETTERED: the jobs of the dead-letter queue
unfoldable pub is_dead : Job → Bool
is_dead j = same j.status failed || same j.status dead_lettered

-- An empty field of a filter lets every job pass.
abbrev pub passes : String → String → Bool
passes wanted actual = is_empty wanted || ite (text_discrete actual wanted) true false

module _ (ops : TextOps) where
  unfoldable pub found_by : String → Job → Bool
  found_by search j =
      let s = ops.to_lower search in
      ops.contains (ops.to_lower (ops.show_id j.id)) s
      || (ops.contains (ops.to_lower j.idempotency_key) s
          || (ops.contains (ops.to_lower j.trace_id) s
              || ops.contains (ops.to_lower j.last_error) s))

  -- matchesDLQFilter
  unfoldable pub matches_dlq_filter : JobFilter → Job → Bool
  matches_dlq_filter f j =
      is_dead j
      && (passes f.chain_id j.chain_id
          && (passes f.job_type j.job_type
              && (passes f.tenant_id j.tenant_id
                  && (passes f.trace_id j.trace_id && (is_empty f.search || found_by f.search j)))))

abbrev pub bulk_one : (Job → Bool) → (Repo → ℕ → Job → Repo) → Repo → ℕ → Option Job → Repo × Bool
bulk_one matches act r id none = (r, false)
bulk_one matches act r id (some j) = if matches j then (act r id j, true) else (r, false)

-- The loop that the three methods share: act on each job that matches, and count it.
unfoldable pub bulk_over : (Job → Bool) → (Repo → ℕ → Job → Repo) → List ℕ → Repo → ℕ → Repo × ℕ
bulk_over matches act [] r count = (r, count)
bulk_over matches act (id ∷ ids) r count =
    let (r', hit) = bulk_one matches act r id (find_job r id) in
    bulk_over matches act ids r' (if hit then suc count else count)

unfoldable pub replay_at : ℕ → Repo → ℕ → Job → Repo
replay_at now r id j = put_job r id (replayed_job j now)

unfoldable pub skip_at : ℕ → Repo → ℕ → Job → Repo
skip_at now r id j = promote_after (put_job r id (completed_job j now)) j.chain_id j.sequence now

-- A chain whose last sequence goes, goes too.
abbrev pub put_chain : GoMap String (GoMap ℤ ℕ) → String → GoMap ℤ ℕ → GoMap String (GoMap ℤ ℕ)
put_chain chain c [] = delete text_discrete c chain
put_chain chain c (e ∷ m) = insert text_discrete c (e ∷ m) chain

abbrev pub unindex :
    GoMap String (GoMap ℤ ℕ) → String → ℤ → Option (GoMap ℤ ℕ) → GoMap String (GoMap ℤ ℕ)
unindex chain c s none = chain
unindex chain c s (some m) = put_chain chain c (delete ℤ_discrete s m)

unfoldable pub purge_at : Repo → ℕ → Job → Repo
purge_at r id j = record {
  jobs = delete ℕ_discrete id r.jobs;
  chain = unindex r.chain j.chain_id j.sequence (get text_discrete j.chain_id r.chain);
}

module _ (ops : TextOps) where
  -- BulkReplayDLQ
  unfoldable pub bulk_replay_dlq : Repo → JobFilter → ℕ → Repo × ℕ
  bulk_replay_dlq r f now = bulk_over (matches_dlq_filter ops f) (replay_at now) (keys r.jobs) r 0

  -- BulkSkipDLQ
  unfoldable pub bulk_skip_dlq : Repo → JobFilter → ℕ → Repo × ℕ
  bulk_skip_dlq r f now = bulk_over (matches_dlq_filter ops f) (skip_at now) (keys r.jobs) r 0

  -- BulkPurgeDLQ
  unfoldable pub bulk_purge_dlq : Repo → JobFilter → Repo × ℕ
  bulk_purge_dlq r f = bulk_over (matches_dlq_filter ops f) purge_at (keys r.jobs) r 0

unfoldable pub count_dead : List (ℕ × Job) → ℕ
count_dead [] = 0
count_dead ((id, j) ∷ rest) = let n = count_dead rest in if is_dead j then suc n else n

-- CountDLQ
unfoldable pub count_dlq : Repo → ℕ
count_dlq r = count_dead (range ℕ_discrete r.jobs)
