-- ===== src/Memory/Enqueue.antt =====
-- repository/memory/repository.go: Enqueue, EnqueueBatch and their helpers. The id that
-- `uuid.New` gives and the time are arguments.
use orderedjob.Prelude.{
  ℕ, String, Bool, false, true, ◌&&◌, ite, Option, none, some, List, [], ◌∷◌, ◌++◌, ℕ_discrete,
  text_discrete, if◌then◌else◌,
}
use orderedjob.Int64.{ℤ, pos, inc64, dec64, lt64, ℤ_discrete}
use orderedjob.GoMap.{GoMap, get, insert, keys, range}
use orderedjob.Lifecycle.{Status, pending, blocked}
use orderedjob.Job.{
  Job, EnqueueRequest, Result, ok, err, duplicate_chain_seq, chain_id_required, first_job_gap,
  missing_predecessor, OrderingMode, no_mode, strict, is_empty,
}
use orderedjob.Memory.State.{Repo, find_job, find_seq, or_zero, is_finished}

abbrev pub with_key : String → List (ℕ × Job) → Option Job
with_key key [] = none
with_key key ((id, j) ∷ rest) =
    ite (text_discrete j.idempotency_key key) (some j) (with_key key rest)

unfoldable pub find_job_by_idempotency_key : Repo → String → Option Job
find_job_by_idempotency_key r key = with_key key (range ℕ_discrete r.jobs)

-- the loop of getMaxSequence
unfoldable pub greatest : ℤ → List ℤ → ℤ
greatest max [] = max
greatest max (s ∷ ss) = greatest (if lt64 max s then s else max) ss

abbrev pub sequences : Option (GoMap ℤ ℕ) → List ℤ
sequences none = []
sequences (some m) = keys m

unfoldable pub get_max_sequence : Repo → String → ℤ
get_max_sequence r chain = greatest (pos 0) (sequences (get text_discrete chain r.chain))

abbrev pub is_none : {A : Type 0} → Option A → Bool
is_none none = true
is_none (some _) = false

-- The checks of a sequence that the request names: a chain that exists, then one that does not.
abbrev pub check_sequence : Repo → String → ℤ → Option (GoMap ℤ ℕ) → Result ℤ
check_sequence r chain seq none = if lt64 (pos 1) seq then err first_job_gap else ok seq
check_sequence r chain seq (some m) =
    if lt64 (pos 1) seq
      && (is_none (get ℤ_discrete (dec64 seq) m) && lt64 (inc64 (get_max_sequence r chain)) seq)
    then err (missing_predecessor (dec64 seq) chain)
    else if is_none (get ℤ_discrete seq m)
    then ok seq
    else err duplicate_chain_seq

unfoldable pub validate_and_resolve_sequence : Repo → String → ℤ → Result ℤ
validate_and_resolve_sequence r chain seq =
    ite (ℤ_discrete seq (pos 0)) (ok (inc64 (get_max_sequence r chain)))
      (check_sequence r chain seq (get text_discrete chain r.chain))

abbrev pub status_behind : Repo → Option ℕ → Status
status_behind r none = blocked
status_behind r (some pred) = if is_finished (or_zero (find_job r pred)) then pending else blocked

unfoldable pub determine_initial_status : Repo → String → ℤ → Status
determine_initial_status r chain seq =
    if lt64 (pos 1) seq then status_behind r (find_seq r chain (dec64 seq)) else pending

abbrev pub or_default : {A : Type 0} → Option A → A → A
or_default none d = d
or_default (some a) d = a

abbrev pub or_strict : OrderingMode → OrderingMode
or_strict no_mode = strict
or_strict m = m

-- No bytes and the text `null` are stored as `{}`.
unfoldable pub payload_bytes : String → String
payload_bytes p = if is_empty p then "{}" else ite (text_discrete p "null") "{}" p

-- The job that the request makes.
unfoldable pub make_job : EnqueueRequest → ℕ → ℕ → ℤ → Status → Job
make_job req id now seq status = record {
  id = id;
  chain_id = req.chain_id;
  sequence = seq;
  job_type = req.job_type;
  payload = payload_bytes req.payload;
  idempotency_key = req.idempotency_key;
  tenant_id = req.tenant_id;
  ordering_mode = or_strict req.ordering_mode;
  status = status;
  attempt = pos 0;
  max_attempts = ite (ℤ_discrete req.max_attempts (pos 0)) (pos 5) req.max_attempts;
  available_at = or_default req.available_at now;
  deadline_at = req.deadline_at;
  worker_id = "";
  lease_until = none;
  lease_generation = pos 0;
  last_error = "";
  created_at = now;
  updated_at = now;
  started_at = none;
  completed_at = none;
  failed_at = none;
  trace_id = req.trace_id;
}

abbrev pub or_new : Option (GoMap ℤ ℕ) → GoMap ℤ ℕ
or_new none = []
or_new (some m) = m

-- Both writes of a new job: into `jobs`, and into `chain`, whose inner map is made if need be.
unfoldable pub add_job : Repo → Job → Repo
add_job r j = record {
  jobs = insert ℕ_discrete j.id j r.jobs;
  chain =
      insert text_discrete j.chain_id
        (insert ℤ_discrete j.sequence j.id (or_new (get text_discrete j.chain_id r.chain))) r.chain;
}

abbrev pub enqueue_at : Repo → EnqueueRequest → ℕ → ℕ → Result ℤ → Repo × Result Job
enqueue_at r req id now (err e) = (r, err e)
enqueue_at r req id now (ok seq) =
    let j = make_job req id now seq (determine_initial_status r req.chain_id seq) in
    (add_job r j, ok j)

abbrev pub enqueue_unless : Repo → EnqueueRequest → ℕ → ℕ → Option Job → Repo × Result Job
enqueue_unless r req id now (some existing) = (r, ok existing)
enqueue_unless r req id now none =
    enqueue_at r req id now (validate_and_resolve_sequence r req.chain_id req.sequence)

-- The job of an earlier request with the same key; no key asks for none.
unfoldable pub earlier : Repo → EnqueueRequest → Option Job
earlier r req =
    if is_empty req.idempotency_key then none else find_job_by_idempotency_key r req.idempotency_key

unfoldable pub enqueue_single : Repo → EnqueueRequest → ℕ → ℕ → Repo × Result Job
enqueue_single r req id now =
    if is_empty req.chain_id
    then (r, err chain_id_required)
    else enqueue_unless r req id now (earlier r req)

-- Enqueue
unfoldable pub enqueue : Repo → EnqueueRequest → ℕ → ℕ → Repo × Result Job
enqueue r req id now = enqueue_single r req id now

-- The loop of EnqueueBatch; each request comes with the id and the time that it would be given.
-- `backup` is the copy that an error puts back.
unfoldable pub enqueue_all :
    Repo → Repo → List Job → List (EnqueueRequest × ℕ × ℕ) → Repo × Result (List Job)
enqueue_all backup r out [] = (r, ok out)
enqueue_all backup r out ((req, id, now) ∷ rest) =
    let (r', result) = enqueue_single r req id now in
    elim result [ err e ↦ (backup, err e) | ok j ↦ enqueue_all backup r' (out ++ j ∷ []) rest ]

-- EnqueueBatch
unfoldable pub enqueue_batch : Repo → List (EnqueueRequest × ℕ × ℕ) → Repo × Result (List Job)
enqueue_batch r reqs = enqueue_all r r [] reqs
