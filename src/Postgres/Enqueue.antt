-- ===== src/Postgres/Enqueue.antt =====
-- repository/postgres/repository.go: Enqueue, EnqueueBatch and their helpers. The ids and the time
-- are arguments. The advisory locks leave no trace here, since a transaction is one step.
use orderedjob.Prelude.{
  ◌≡◌, Bool-cases, inl, inr, ℕ, String, Bool, false, ◌&&◌, ◌||◌, not, ite, Option, none, some, List,
  [], ◌∷◌, ◌++◌, if◌then◌else◌,
}
use orderedjob.Int64.{ℤ, pos, inc64, dec64, lt64, ℤ_discrete}
use orderedjob.Lifecycle.{Status, pending, blocked, completed, failed, dead_lettered, same}
use orderedjob.Job.{
  Job, EnqueueRequest, Result, ok, err, duplicate_chain_seq, first_job_gap, missing_predecessor,
  database_error, OrderingMode, no_mode, strict, is_empty,
}
use orderedjob.Memory.State.{continues}
use orderedjob.Sql.{
  is_text, is_int, null_or_text, coalesce, select_where, exists_where, row_where, max_of, with_tx,
}
use orderedjob.Sql.Schema.{Row, Table, nullable, scan_job, at_place, insert_row}

-- The columns that the lookup of a key and the INSERT return.
unfoldable pub scan_found : Row → Job
scan_found r = record (scan_job r) {
  started_at = none;
  completed_at = none;
  failed_at = none;
  last_error = "";
}

-- findExistingByIdempotencyKey
unfoldable pub find_existing : Table → String → Option Job
find_existing t key =
    if is_empty key then none else found (row_where (λ r. null_or_text r.idempotency_key key) t)
  where
    found : Option Row → Option Job
    found none = none
    found (some r) = some (scan_found r)

-- SELECT MAX(sequence) … WHERE chain_id=$1
unfoldable pub max_sequence : Table → String → Option ℤ
max_sequence t chain = max_of (λ r. r.sequence) (select_where (λ r. is_text r.chain_id chain) t)

abbrev pub after_max : Option ℤ → ℤ
after_max none = pos 1
after_max (some m) = inc64 m

-- resolveSequenceInTx
unfoldable pub resolve_sequence : Table → String → ℤ → Result ℤ
resolve_sequence t chain seq =
    ite (ℤ_discrete seq (pos 0)) (ok (after_max (max_sequence t chain)))
      (if exists_where (at_place chain seq) t then err duplicate_chain_seq else ok seq)

-- The gap check behind a missing predecessor.
abbrev pub check_gap : String → ℤ → Option ℤ → Result ℤ
check_gap chain seq none = err first_job_gap
check_gap chain seq (some m) =
    if lt64 (inc64 m) seq then err (missing_predecessor (dec64 seq) chain) else ok seq

-- Enqueue, a sequence that the request names and that is free
unfoldable pub check_sequence : Bool → Table → String → ℤ → Result ℤ
check_sequence allow_gap t chain seq =
    if lt64 (pos 1) seq && (not allow_gap && not (exists_where (at_place chain (dec64 seq)) t))
    then check_gap chain seq (max_sequence t chain)
    else ok seq

abbrev pub then_check : Bool → Table → EnqueueRequest → Result ℤ → Result ℤ
then_check allow_gap t req (err e) = err e
then_check allow_gap t req (ok seq) =
    ite (ℤ_discrete req.sequence (pos 0)) (ok seq) (check_sequence allow_gap t req.chain_id seq)

-- Enqueue, the sequence
unfoldable pub choose_sequence : Bool → Table → EnqueueRequest → Result ℤ
choose_sequence allow_gap t req =
    then_check allow_gap t req (resolve_sequence t req.chain_id req.sequence)

abbrev pub status_behind : Option Row → Status
status_behind none = blocked
status_behind (some p) = if same p.status completed then pending else blocked

-- Enqueue, the state of a new row
unfoldable pub first_status : Table → String → ℤ → Status
first_status t chain seq =
    if lt64 (pos 1) seq then status_behind (row_where (at_place chain (dec64 seq)) t) else pending

abbrev pub done_as : Status → OrderingMode → Bool
done_as status mode =
    same status completed || ((same status failed || same status dead_lettered) && continues mode)

-- the search of the predecessor in the jobs of the batch
unfoldable pub done_in_batch : String → ℤ → List Job → Bool
done_in_batch chain seq [] = false
done_in_batch chain seq (o ∷ os) =
    let rest = done_in_batch chain seq os in
    if is_text o.chain_id chain && is_int o.sequence seq
    then done_as o.status o.ordering_mode
    else rest

abbrev pub is_pred_finished : String → ℤ → List Job → Option Row → Bool
is_pred_finished chain seq batch none = done_in_batch chain seq batch
is_pred_finished chain seq batch (some p) = done_as p.status p.ordering_mode

-- determineStatusInTx
unfoldable pub determine_status : Table → String → ℤ → List Job → Status
determine_status t chain seq batch =
    if lt64 (pos 1) seq
    then if is_pred_finished chain (dec64 seq) batch (row_where (at_place chain (dec64 seq)) t)
      then pending
      else blocked
    else pending

abbrev pub or_strict : OrderingMode → OrderingMode
or_strict no_mode = strict
or_strict m = m

-- The row of the INSERT, with the defaults of the schema.
unfoldable pub new_row : EnqueueRequest → ℕ → ℕ → ℤ → Status → OrderingMode → Row
new_row req id now seq status mode = record {
  id = id;
  chain_id = req.chain_id;
  sequence = seq;
  job_type = req.job_type;
  payload = if is_empty req.payload then "{}" else req.payload;
  status = status;
  attempt = pos 0;
  max_attempts = ite (ℤ_discrete req.max_attempts (pos 0)) (pos 5) req.max_attempts;
  available_at = coalesce req.available_at now;
  deadline_at = req.deadline_at;
  worker_id = none;
  lease_until = none;
  lease_generation = pos 0;
  started_at = none;
  completed_at = none;
  failed_at = none;
  idempotency_key = nullable req.idempotency_key;
  last_error = none;
  tenant_id = nullable req.tenant_id;
  trace_id = nullable req.trace_id;
  ordering_mode = mode;
  created_at = now;
  updated_at = now;
}

-- The INSERT, which is not reached where json.Marshal refuses the payload.
unfoldable pub insert_payload : EnqueueRequest → Row → Table → Option Table
insert_payload req r t = if req.is_marshalled then insert_row r t else none

pub payload-inserted :
    (req : EnqueueRequest) (r : Row) (t t' : Table)
    → insert_payload req r t ≡ some t'
    → insert_row r t ≡ some t'
unfolding insert_payload
payload-inserted req r t t' h = elim (Bool-cases req.is_marshalled) [
  | inl e ↦ rw e at h
  | inr e ↦ absurd (cc (rw e at h))
]

-- The error of the database, for a violated constraint, or that of json.Marshal.
abbrev pub inserted : Table → Job → Option Table → Table × Result Job
inserted t j none = (t, err database_error)
inserted t j (some t') = (t', ok j)

abbrev pub insert_single : Table → EnqueueRequest → ℕ → ℕ → Result ℤ → Table × Result Job
insert_single t req id now (err e) = (t, err e)
insert_single t req id now (ok seq) =
    let r = new_row req id now seq (first_status t req.chain_id seq) strict in
    inserted t (record (scan_found r) { ordering_mode = no_mode }) (insert_payload req r t)

abbrev pub enqueue_unless : Bool → EnqueueRequest → ℕ → ℕ → Table → Option Job → Table × Result Job
enqueue_unless allow_gap req id now t (some existing) = (t, ok existing)
enqueue_unless allow_gap req id now t none =
    insert_single t req id now (choose_sequence allow_gap t req)

-- Enqueue. The INSERT leaves the ordering mode to the schema, and does not return it.
unfoldable pub enqueue : Bool → Table → EnqueueRequest → ℕ → ℕ → Table × Result Job
enqueue allow_gap t req id now =
    with_tx (λ s. enqueue_unless allow_gap req id now s (find_existing s req.idempotency_key)) t

unfoldable pub find_in_batch : String → List Job → Option Job
find_in_batch key [] = none
find_in_batch key (o ∷ os) =
    let rest = find_in_batch key os in if is_text o.idempotency_key key then some o else rest

abbrev pub insert_in_tx : Table → EnqueueRequest → ℕ → ℕ → List Job → Result ℤ → Table × Result Job
insert_in_tx t req id now batch (err e) = (t, err e)
insert_in_tx t req id now batch (ok seq) =
    let r =
      new_row req id now seq (determine_status t req.chain_id seq batch)
        (or_strict req.ordering_mode) in
    inserted t (scan_found r) (insert_payload req r t)

abbrev pub unless_in_batch :
    Table → EnqueueRequest → ℕ → ℕ → List Job → Option Job → Table × Result Job
unless_in_batch t req id now batch (some o) = (t, ok o)
unless_in_batch t req id now batch none =
    insert_in_tx t req id now batch (resolve_sequence t req.chain_id req.sequence)

abbrev pub unless_existing :
    Table → EnqueueRequest → ℕ → ℕ → List Job → Option Job → Table × Result Job
unless_existing t req id now batch (some existing) = (t, ok existing)
unless_existing t req id now batch none =
    unless_in_batch t req id now batch
      (if is_empty req.idempotency_key then none else find_in_batch req.idempotency_key batch)

-- enqueueSingleInTx
unfoldable pub enqueue_single : Table → EnqueueRequest → ℕ → ℕ → List Job → Table × Result Job
enqueue_single t req id now batch =
    unless_existing t req id now batch (find_existing t req.idempotency_key)

-- The loop of EnqueueBatch; each request comes with the id and the time that it would be given.
unfoldable pub enqueue_all :
    Table → List Job → List (EnqueueRequest × ℕ × ℕ) → Table × Result (List Job)
enqueue_all t out [] = (t, ok out)
enqueue_all t out ((req, id, now) ∷ rest) =
    let (t', result) = enqueue_single t req id now out in
    elim result [ err e ↦ (t', err e) | ok j ↦ enqueue_all t' (out ++ j ∷ []) rest ]

-- EnqueueBatch
unfoldable pub enqueue_batch : Table → List (EnqueueRequest × ℕ × ℕ) → Table × Result (List Job)
enqueue_batch t reqs = with_tx (λ s. enqueue_all s [] reqs) t
