-- ===== src/Memory/Lease.antt =====
-- repository/memory/repository.go: the methods of the worker that holds the lease (Complete, Fail,
-- Retry, Heartbeat, ConfirmCancel), and the promotion of the next job. The time is an argument.
use orderedjob.Prelude.{
  ℕ, String, Bool, false, true, ◌&&◌, ◌+◌, ite, Option, none, some, if◌then◌else◌, text_discrete,
}
use orderedjob.Int64.{ℤ, inc64, ℤ_discrete}
use orderedjob.Lifecycle.{
  pending, blocked, completed, failed, dead_lettered, retrying, cancelled, same,
}
use orderedjob.Job.{
  Job, OrderingMode, dead_letter_and_continue, Result, ok, err, not_found, lease_conflict,
}
use orderedjob.Memory.State.{Repo, find_job, find_seq, put_job, or_zero}

-- the fencing test: j.WorkerID == workerID && j.LeaseGeneration == leaseGen
unfoldable pub holds_lease : Job → String → ℤ → Bool
holds_lease j worker gen =
    ite (text_discrete j.worker_id worker) true false
    && ite (ℤ_discrete j.lease_generation gen) true false

abbrev pub promote_id : Repo → ℕ → Option ℕ → Repo
promote_id r now none = r
promote_id r now (some next) =
    let j = or_zero (find_job r next) in
    if same j.status blocked
    then put_job r next (record j { status = pending; updated_at = now })
    else r

-- the job behind `seq` becomes PENDING if it is BLOCKED
unfoldable pub promote_after : Repo → String → ℤ → ℕ → Repo
promote_after r chain seq now = promote_id r now (find_seq r chain (inc64 seq))

-- A method behind the fencing test: `act` is what it does with the job.
abbrev pub fenced_at : Repo → Option Job → String → ℤ → (Job → Repo) → Repo × Result (Unit {0})
fenced_at r none worker gen act = (r, err not_found)
fenced_at r (some j) worker gen act =
    if holds_lease j worker gen then (act j, ok tt) else (r, err lease_conflict)

unfoldable pub fenced : Repo → ℕ → String → ℤ → (Job → Repo) → Repo × Result (Unit {0})
fenced r id worker gen act = fenced_at r (find_job r id) worker gen act

unfoldable pub completed_job : Job → ℕ → Job
completed_job j now = record j {
  status = completed;
  completed_at = some now;
  updated_at = now;
  lease_until = none;
}

-- Complete
unfoldable pub complete : Repo → ℕ → String → ℤ → ℕ → Repo × Result (Unit {0})
complete r id worker gen now =
    fenced r id worker gen
      λ j. promote_after (put_job r id (completed_job j now)) j.chain_id j.sequence now

abbrev pub buries : OrderingMode → Bool
buries dead_letter_and_continue = true
buries _ = false

unfoldable pub failed_job : Job → ℕ → String → Bool → Job
failed_job j now msg terminal = record j {
  status = if terminal && buries j.ordering_mode then dead_lettered else failed;
  last_error = msg;
  updated_at = now;
  failed_at = some now;
  lease_until = none;
}

-- Fail
unfoldable pub fail : Repo → ℕ → String → ℤ → String → Bool → ℕ → Repo × Result (Unit {0})
fail r id worker gen msg terminal now =
    fenced r id worker gen λ j. put_job r id (failed_job j now msg terminal)

unfoldable pub retrying_job : Job → ℕ → String → ℕ → Job
retrying_job j now msg next = record j {
  status = retrying;
  last_error = msg;
  available_at = next;
  updated_at = now;
  lease_until = none;
}

-- Retry
unfoldable pub retry : Repo → ℕ → String → ℤ → String → ℕ → ℕ → Repo × Result (Unit {0})
retry r id worker gen msg next now =
    fenced r id worker gen λ j. put_job r id (retrying_job j now msg next)

-- Heartbeat
unfoldable pub heartbeat : Repo → ℕ → String → ℤ → ℕ → ℕ → Repo × Result (Unit {0})
heartbeat r id worker gen lease now =
    fenced r id worker gen
      λ j. put_job r id (record j { lease_until = some (now + lease); updated_at = now })

-- ConfirmCancel
unfoldable pub confirm_cancel : Repo → ℕ → String → ℤ → ℕ → Repo × Result (Unit {0})
confirm_cancel r id worker gen now =
    fenced r id worker gen
      λ j. put_job r id (record j { status = cancelled; updated_at = now; lease_until = none })
