-- ===== src/Memory/Admin.antt =====
-- repository/memory/repository.go: RequestCancel, RecoverStale, PromoteNext, ReplayJob,
-- ReplayJobWithPayload, SkipJob and RescheduleJob.
use orderedjob.Prelude.{
  ℕ, zero, suc, String, Bool, false, true, ◌&&◌, ◌||◌, ◌+◌, Option, none, some, List, [], ◌∷◌,
  if◌then◌else◌, ltb,
}
use orderedjob.Int64.{ℤ, pos}
use orderedjob.GoMap.{keys}
use orderedjob.Lifecycle.{
  pending, blocked, processing, retrying, failed, cancelled, dead_lettered, cancel_requested, same,
}
use orderedjob.Job.{Job, Result, ok, err, not_found, job_not_eligible, is_empty}
use orderedjob.Memory.State.{Repo, find_job, put_job}
use orderedjob.Memory.Lease.{promote_after, completed_job}

-- A method that looks a job up and acts on it.
abbrev pub with_job_at {ℓ} :
    {A : Type ℓ} → Repo → Option Job → (Job → Repo × Result A) → Repo × Result A
with_job_at r none act = (r, err not_found)
with_job_at r (some j) act = act j

-- RequestCancel
unfoldable pub request_cancel : Repo → ℕ → ℕ → Repo × Result (Unit {0})
request_cancel r id now = with_job_at r (find_job r id) λ j.
    if same j.status pending || (same j.status retrying || same j.status blocked)
    then (put_job r id (record j { status = cancel_requested; updated_at = now }), ok tt)
    else (r, ok tt)

abbrev pub lease_passed : Option ℕ → ℕ → Bool
lease_passed none now = false
lease_passed (some until) now = ltb until now

unfoldable pub is_stale : Job → ℕ → Bool
is_stale j now = same j.status processing && lease_passed j.lease_until now

-- a second
abbrev pub default_delay : ℕ
default_delay = 1000000000

abbrev pub delay_of : Option (ℤ → ℕ) → ℤ → ℕ
delay_of none attempt = default_delay
delay_of (some policy) attempt = policy attempt

unfoldable pub recovered_job : Job → Option (ℤ → ℕ) → ℕ → Job
recovered_job j policy now = record j {
  status = retrying;
  available_at = now + delay_of policy j.attempt;
  last_error = "stale lease recovered";
  updated_at = now;
  lease_until = none;
}

abbrev pub recover_one : Repo → ℕ → Option (ℤ → ℕ) → ℕ → Option Job → Repo × Bool
recover_one r id policy now none = (r, false)
recover_one r id policy now (some j) =
    if is_stale j now then (put_job r id (recovered_job j policy now), true) else (r, false)

-- The loop of RecoverStale, with `left` = limit - count; it counts what it recovers.
unfoldable pub recover_over : List ℕ → Repo → ℕ → ℕ → Option (ℤ → ℕ) → ℕ → Repo × ℕ
recover_over [] r left count policy now = (r, count)
recover_over (id ∷ ids) r zero count policy now = (r, count)
recover_over (id ∷ ids) r (suc left) count policy now =
    let (r', hit) = recover_one r id policy now (find_job r id) in
    recover_over ids r' (if hit then left else suc left) (if hit then suc count else count) policy
      now

-- RecoverStale
unfoldable pub recover_stale : Repo → ℕ → Option (ℤ → ℕ) → ℕ → Repo × ℕ
recover_stale r limit policy now = recover_over (keys r.jobs) r limit 0 policy now

-- PromoteNext
unfoldable pub promote_next : Repo → String → ℤ → ℕ → Repo
promote_next r chain completed_seq now = promote_after r chain completed_seq now

-- FAILED, CANCELLED or DEAD_LETTERED: what an operator can replay or skip
unfoldable pub is_stopped : Job → Bool
is_stopped j = same j.status failed || (same j.status cancelled || same j.status dead_lettered)

unfoldable pub replayed_job : Job → ℕ → Job
replayed_job j now = record j {
  status = pending;
  attempt = pos 0;
  last_error = "";
  available_at = now;
  updated_at = now;
  lease_until = none;
}

-- ReplayJob
unfoldable pub replay_job : Repo → ℕ → ℕ → Repo × Result (Unit {0})
replay_job r id now =
    with_job_at r (find_job r id)
      λ j. if is_stopped j then (put_job r id (replayed_job j now), ok tt) else (r, ok tt)

abbrev pub or_old : String → String → String
or_old new old = if is_empty new then old else new

-- ReplayJobWithPayload
unfoldable pub replay_job_with_payload : Repo → ℕ → String → ℕ → Repo × Result (Unit {0})
replay_job_with_payload r id new_payload now = with_job_at r (find_job r id) λ j.
    if is_stopped j
    then (
      put_job r id (replayed_job (record j { payload = or_old new_payload j.payload }) now),
      ok tt,
    )
    else (r, ok tt)

-- SkipJob
unfoldable pub skip_job : Repo → ℕ → ℕ → Repo × Result (Unit {0})
skip_job r id now = with_job_at r (find_job r id) λ j.
    if is_stopped j
    then (promote_after (put_job r id (completed_job j now)) j.chain_id j.sequence now, ok tt)
    else (r, ok tt)

-- RescheduleJob
unfoldable pub reschedule_job : Repo → ℕ → ℕ → ℕ → Repo × Result Job
reschedule_job r id available_at now = with_job_at r (find_job r id) λ j.
    if same j.status pending || same j.status retrying
    then (let j' = record j { available_at = available_at; updated_at = now } in
        (put_job r id j', ok j'))
    else (r, err job_not_eligible)
