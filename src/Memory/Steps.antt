-- ===== src/Memory/Steps.antt =====
-- Every method of repository/memory/repository.go that only writes jobs back evolves the repository.
use orderedjob.Prelude.{
  ℕ, zero, suc, String, ◌≡◌, refl, Bool, true, false, Option, none, some, arith, List, [], ◌∷◌,
  Bool-cases, inl, inr, if◌then◌else◌,
}
use orderedjob.Int64.{ℤ}
use orderedjob.GoMap.{keys}
use orderedjob.Lifecycle.{blocked, pending, Status-discrete, same}
use orderedjob.Job.{Job, Result, JobFilter}
use orderedjob.Memory.State.{Repo, find_job, put_job, or_zero}
use orderedjob.Memory.Lease.{
  promote_id, promote_after, fenced, fenced_at, holds_lease, complete, fail, retry, heartbeat,
  confirm_cancel, completed_job, failed_job, retrying_job,
}
use orderedjob.Memory.Admin.{
  with_job_at, request_cancel, recover_one, recover_over, recover_stale, recovered_job, is_stale,
  promote_next, replay_job, replay_job_with_payload, skip_job, reschedule_job, replayed_job,
}
use orderedjob.Memory.Bulk.{
  TextOps, bulk_one, bulk_over, replay_at, skip_at, bulk_replay_dlq, bulk_skip_dlq,
}
use orderedjob.Memory.Evolves.{Later, Evolves, Evolves-refl, Evolves-trans, put-Evolves}

promote_job : (j : Job) (now : ℕ) → Later j (record j { status = pending; updated_at = now })
promote_job j now = ground arith

pub promote_id-Evolves : (r : Repo) (now : ℕ) (o : Option ℕ) → Evolves r (promote_id r now o)
unfolding Status-discrete
promote_id-Evolves r now none = Evolves-refl r
promote_id-Evolves r now (some next) = at (find_job r next) refl
  where
    at :
        (o : Option Job)
        → find_job r next ≡ o
        → Evolves r (
            if same (or_zero o).status blocked
            then put_job r next (record (or_zero o) { status = pending; updated_at = now })
            else r)
    at none e = Evolves-refl r
    at (some j) e = elim (Bool-cases (same j.status blocked)) [
      | inl b ↦ rw b (put-Evolves r next j _ e (promote_job j now))
      | inr b ↦ rw b (Evolves-refl r)
    ]

pub promote_after-Evolves :
    (r : Repo) (chain : String) (seq : ℤ) (now : ℕ) → Evolves r (promote_after r chain seq now)
unfolding promote_after
promote_after-Evolves r chain seq now = promote_id-Evolves r now _

fenced_at-Evolves :
    (r : Repo) (o : Option Job) (worker : String) (gen : ℤ) (act : Job → Repo)
    → ((j : Job) → o ≡ some j → Evolves r (act j))
    → Evolves r (fenced_at r o worker gen act).0
fenced_at-Evolves r none worker gen act h = Evolves-refl r
fenced_at-Evolves r (some j) worker gen act h = elim (Bool-cases (holds_lease j worker gen)) [
  | inl b ↦ rw b (h j refl)
  | inr b ↦ rw b (Evolves-refl r)
]

pub fenced-Evolves :
    (r : Repo) (id : ℕ) (worker : String) (gen : ℤ) (act : Job → Repo)
    → ((j : Job) → find_job r id ≡ some j → Evolves r (act j))
    → Evolves r (fenced r id worker gen act).0
unfolding fenced
fenced-Evolves r id worker gen act h = fenced_at-Evolves r (find_job r id) worker gen act h

completed_job-Later : (j : Job) (now : ℕ) → Later j (completed_job j now)
unfolding completed_job
completed_job-Later j now = ground arith

failed_job-Later :
    (j : Job) (now : ℕ) (msg : String) (terminal : Bool) → Later j (failed_job j now msg terminal)
unfolding failed_job
failed_job-Later j now msg terminal = ground arith

retrying_job-Later :
    (j : Job) (now : ℕ) (msg : String) (next : ℕ) → Later j (retrying_job j now msg next)
unfolding retrying_job
retrying_job-Later j now msg next = ground arith

replayed_job-Later : (j : Job) (now : ℕ) → Later j (replayed_job j now)
unfolding replayed_job
replayed_job-Later j now = ground arith

-- A job is done, and the next one promoted: what Complete and SkipJob write.
pub finish-Evolves :
    (r : Repo) (id : ℕ) (j : Job) (now : ℕ)
    → find_job r id ≡ some j
    → Evolves r (promote_after (put_job r id (completed_job j now)) j.chain_id j.sequence now)
finish-Evolves r id j now e =
    Evolves-trans (put-Evolves r id j _ e (completed_job-Later j now))
      (promote_after-Evolves _ j.chain_id j.sequence now)

pub complete-Evolves :
    (r : Repo) (id : ℕ) (worker : String) (gen : ℤ) (now : ℕ)
    → Evolves r (complete r id worker gen now).0
unfolding complete
complete-Evolves r id worker gen now =
    fenced-Evolves r id worker gen _ (λ j e. finish-Evolves r id j now e)

pub fail-Evolves :
    (r : Repo) (id : ℕ) (worker : String) (gen : ℤ) (msg : String) (terminal : Bool) (now : ℕ)
    → Evolves r (fail r id worker gen msg terminal now).0
unfolding fail
fail-Evolves r id worker gen msg terminal now =
    fenced-Evolves r id worker gen _
      (λ j e. put-Evolves r id j _ e (failed_job-Later j now msg terminal))

pub retry-Evolves :
    (r : Repo) (id : ℕ) (worker : String) (gen : ℤ) (msg : String) (next now : ℕ)
    → Evolves r (retry r id worker gen msg next now).0
unfolding retry
retry-Evolves r id worker gen msg next now =
    fenced-Evolves r id worker gen _
      (λ j e. put-Evolves r id j _ e (retrying_job-Later j now msg next))

pub heartbeat-Evolves :
    (r : Repo) (id : ℕ) (worker : String) (gen : ℤ) (lease now : ℕ)
    → Evolves r (heartbeat r id worker gen lease now).0
unfolding heartbeat
heartbeat-Evolves r id worker gen lease now =
    fenced-Evolves r id worker gen _ (λ j e. put-Evolves r id j _ e (ground arith))

pub confirm_cancel-Evolves :
    (r : Repo) (id : ℕ) (worker : String) (gen : ℤ) (now : ℕ)
    → Evolves r (confirm_cancel r id worker gen now).0
unfolding confirm_cancel
confirm_cancel-Evolves r id worker gen now =
    fenced-Evolves r id worker gen _ (λ j e. put-Evolves r id j _ e (ground arith))

with_job_at-Evolves {ℓ} :
    {A : Type ℓ} (r : Repo) (o : Option Job) (act : Job → Repo × Result A)
    → ((j : Job) → o ≡ some j → Evolves r (act j).0)
    → Evolves r (with_job_at r o act).0
with_job_at-Evolves r none act h = Evolves-refl r
with_job_at-Evolves r (some j) act h = h j refl

-- A guarded write: under the test the repository evolves, else it stays.
guarded-Evolves {ℓ} :
    {A : Type ℓ} (r r' : Repo) (b : Bool) (x y : Result A)
    → Evolves r r'
    → Evolves r (if◌then◌else◌ {A = Repo × Result A} b (r', x) (r, y)).0
guarded-Evolves r r' true x y h = h
guarded-Evolves r r' false x y h = Evolves-refl r

pub request_cancel-Evolves : (r : Repo) (id now : ℕ) → Evolves r (request_cancel r id now).0
unfolding request_cancel
request_cancel-Evolves r id now =
    with_job_at-Evolves r (find_job r id) _
      λ j e. guarded-Evolves r _ _ _ _ (put-Evolves r id j _ e (ground arith))

pub replay_job-Evolves : (r : Repo) (id now : ℕ) → Evolves r (replay_job r id now).0
unfolding replay_job
replay_job-Evolves r id now =
    with_job_at-Evolves r (find_job r id) _
      λ j e. guarded-Evolves r _ _ _ _ (put-Evolves r id j _ e (replayed_job-Later j now))

pub replay_job_with_payload-Evolves :
    (r : Repo) (id : ℕ) (p : String) (now : ℕ) → Evolves r (replay_job_with_payload r id p now).0
unfolding replay_job_with_payload replayed_job
replay_job_with_payload-Evolves r id p now =
    with_job_at-Evolves r (find_job r id) _
      λ j e. guarded-Evolves r _ _ _ _ (put-Evolves r id j _ e (ground arith))

pub skip_job-Evolves : (r : Repo) (id now : ℕ) → Evolves r (skip_job r id now).0
unfolding skip_job
skip_job-Evolves r id now =
    with_job_at-Evolves r (find_job r id) _
      λ j e. guarded-Evolves r _ _ _ _ (finish-Evolves r id j now e)

pub reschedule_job-Evolves : (r : Repo) (id at now : ℕ) → Evolves r (reschedule_job r id at now).0
unfolding reschedule_job
reschedule_job-Evolves r id at now =
    with_job_at-Evolves r (find_job r id) _
      λ j e. guarded-Evolves r _ _ _ _ (put-Evolves r id j _ e (ground arith))

pub promote_next-Evolves :
    (r : Repo) (chain : String) (seq : ℤ) (now : ℕ) → Evolves r (promote_next r chain seq now)
unfolding promote_next
promote_next-Evolves = promote_after-Evolves

recover_one-Evolves :
    (r : Repo) (id : ℕ) (policy : Option (ℤ → ℕ)) (now : ℕ) (o : Option Job)
    → find_job r id ≡ o
    → Evolves r (recover_one r id policy now o).0
unfolding recovered_job
recover_one-Evolves r id policy now none e = Evolves-refl r
recover_one-Evolves r id policy now (some j) e = elim (Bool-cases (is_stale j now)) [
  | inl b ↦ rw b (put-Evolves r id j _ e (ground arith))
  | inr b ↦ rw b (Evolves-refl r)
]

recover_over-Evolves :
    (ids : List ℕ) (r : Repo) (left count : ℕ) (policy : Option (ℤ → ℕ)) (now : ℕ)
    → Evolves r (recover_over ids r left count policy now).0
unfolding recover_over
recover_over-Evolves [] r left count policy now = Evolves-refl r
recover_over-Evolves (id ∷ ids) r zero count policy now = Evolves-refl r
recover_over-Evolves (id ∷ ids) r (suc left) count policy now =
    Evolves-trans (recover_one-Evolves r id policy now (find_job r id) refl)
      (recover_over-Evolves ids _ _ _ policy now)

pub recover_stale-Evolves :
    (r : Repo) (limit : ℕ) (policy : Option (ℤ → ℕ)) (now : ℕ)
    → Evolves r (recover_stale r limit policy now).0
unfolding recover_stale
recover_stale-Evolves r limit policy now = recover_over-Evolves (keys r.jobs) r limit 0 policy now

module _ (matches : Job → Bool) (act : Repo → ℕ → Job → Repo)
    (good : (r : Repo) (id : ℕ) (j : Job) → find_job r id ≡ some j → Evolves r (act r id j)) where
  bulk_one-Evolves :
      (r : Repo) (id : ℕ) (o : Option Job)
      → find_job r id ≡ o
      → Evolves r (bulk_one matches act r id o).0
  bulk_one-Evolves r id none e = Evolves-refl r
  bulk_one-Evolves r id (some j) e = elim (Bool-cases (matches j)) [
    | inl b ↦ rw b (good r id j e)
    | inr b ↦ rw b (Evolves-refl r)
  ]

  bulk_over-Evolves :
      (ids : List ℕ) (r : Repo) (count : ℕ) → Evolves r (bulk_over matches act ids r count).0
  unfolding bulk_over
  bulk_over-Evolves [] r count = Evolves-refl r
  bulk_over-Evolves (id ∷ ids) r count =
      Evolves-trans (bulk_one-Evolves r id (find_job r id) refl) (bulk_over-Evolves ids _ _)

pub bulk_replay_dlq-Evolves :
    (ops : TextOps) (r : Repo) (f : JobFilter) (now : ℕ) → Evolves r (bulk_replay_dlq ops r f now).0
unfolding bulk_replay_dlq replay_at
bulk_replay_dlq-Evolves ops r f now =
    bulk_over-Evolves _ _ (λ r id j e. put-Evolves r id j _ e (replayed_job-Later j now)) _ r 0

pub bulk_skip_dlq-Evolves :
    (ops : TextOps) (r : Repo) (f : JobFilter) (now : ℕ) → Evolves r (bulk_skip_dlq ops r f now).0
unfolding bulk_skip_dlq skip_at
bulk_skip_dlq-Evolves ops r f now =
    bulk_over-Evolves _ _ (λ r id j e. finish-Evolves r id j now e) _ r 0
