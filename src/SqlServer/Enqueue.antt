-- ===== src/SqlServer/Enqueue.antt =====
-- repository/sqlserver/repository.go: Enqueue, EnqueueBatch and their helpers. The ids and the time are
-- arguments. The application locks leave no trace here, since a transaction is one step.
use orderedjob.Prelude.{
  ℕ, suc, String, Bool, Option, none, some, List, [], ◌∷◌, ◌++◌, if◌then◌else◌,
}
use orderedjob.Int64.{ℤ}
use orderedjob.Job.{
  Job, EnqueueRequest, Result, ok, err, chain_id_required, job_type_required, invalid_request,
  RepoError, is_empty,
}
use orderedjob.Sql.{null_or_text, row_where, with_tx}
use orderedjob.Sql.Schema.{Row, Table, scan_job}
use orderedjob.Postgres.Enqueue.{
  choose_sequence, determine_status, new_row, or_strict, inserted, insert_payload, find_in_batch,
  scan_found,
}

-- findExistingByIdempotencyKey
unfoldable pub find_existing : Table → String → Option Job
find_existing t key =
    if is_empty key then none else found (row_where (λ r. null_or_text r.idempotency_key key) t)
  where
    found : Option Row → Option Job
    found none = none
    found (some r) = some (scan_job r)

abbrev pub insert_in_tx : Table → EnqueueRequest → ℕ → ℕ → List Job → Result ℤ → Table × Result Job
insert_in_tx t req id now batch (err e) = (t, err e)
insert_in_tx t req id now batch (ok seq) =
    let r =
      new_row req id now seq (determine_status t req.chain_id seq batch)
        (or_strict req.ordering_mode) in
    inserted t (scan_found r) (insert_payload req r t)

abbrev pub unless_in_batch :
    Bool → Table → EnqueueRequest → ℕ → ℕ → List Job → Option Job → Table × Result Job
unless_in_batch allow_gap t req id now batch (some o) = (t, ok o)
unless_in_batch allow_gap t req id now batch none =
    insert_in_tx t req id now batch (choose_sequence allow_gap t req)

abbrev pub unless_existing :
    Bool → Table → EnqueueRequest → ℕ → ℕ → List Job → Option Job → Table × Result Job
unless_existing allow_gap t req id now batch (some existing) = (t, ok existing)
unless_existing allow_gap t req id now batch none =
    unless_in_batch allow_gap t req id now batch
      (if is_empty req.idempotency_key then none else find_in_batch req.idempotency_key batch)

-- enqueueSingleInTx
unfoldable pub enqueue_single :
    Bool → Table → EnqueueRequest → ℕ → ℕ → List Job → Table × Result Job
enqueue_single allow_gap t req id now batch =
    unless_existing allow_gap t req id now batch (find_existing t req.idempotency_key)

-- What a request lacks.
unfoldable pub missing_part : EnqueueRequest → Option RepoError
missing_part req =
    if is_empty req.chain_id
    then some chain_id_required
    else if is_empty req.job_type
    then some job_type_required
    else none

abbrev pub enqueue_new : Bool → EnqueueRequest → ℕ → ℕ → Table → Option Job → Table × Result Job
enqueue_new allow_gap req id now t (some existing) = (t, ok existing)
enqueue_new allow_gap req id now t none = enqueue_single allow_gap t req id now []

abbrev pub enqueue_valid :
    Bool → Table → EnqueueRequest → ℕ → ℕ → Option RepoError → Table × Result Job
enqueue_valid allow_gap t req id now (some e) = (t, err e)
enqueue_valid allow_gap t req id now none =
    with_tx (λ s. enqueue_new allow_gap req id now s (find_existing s req.idempotency_key)) t

-- Enqueue
unfoldable pub enqueue : Bool → Table → EnqueueRequest → ℕ → ℕ → Table × Result Job
enqueue allow_gap t req id now = enqueue_valid allow_gap t req id now (missing_part req)

-- the checks of EnqueueBatch, from the index of the first request on
unfoldable pub missing_in : ℕ → List (EnqueueRequest × ℕ × ℕ) → Option RepoError
missing_in i [] = none
missing_in i ((req, _, _) ∷ rest) = first_of (missing_part req) (missing_in (suc i) rest)
  where
    first_of : Option RepoError → Option RepoError → Option RepoError
    first_of none later = later
    first_of (some e) later = some (invalid_request i e)

-- The loop of EnqueueBatch; each request comes with the id and the time that it would be given.
unfoldable pub enqueue_all :
    Bool → Table → List Job → List (EnqueueRequest × ℕ × ℕ) → Table × Result (List Job)
enqueue_all allow_gap t out [] = (t, ok out)
enqueue_all allow_gap t out ((req, id, now) ∷ rest) =
    let (t', result) = enqueue_single allow_gap t req id now out in
    elim result [ err e ↦ (t', err e) | ok j ↦ enqueue_all allow_gap t' (out ++ j ∷ []) rest ]

abbrev pub batch_valid :
    Bool → Table → List (EnqueueRequest × ℕ × ℕ) → Option RepoError → Table × Result (List Job)
batch_valid allow_gap t reqs (some e) = (t, err e)
batch_valid allow_gap t reqs none = with_tx (λ s. enqueue_all allow_gap s [] reqs) t

-- EnqueueBatch
unfoldable pub enqueue_batch :
    Bool → Table → List (EnqueueRequest × ℕ × ℕ) → Table × Result (List Job)
enqueue_batch allow_gap t reqs = batch_valid allow_gap t reqs (missing_in 0 reqs)
