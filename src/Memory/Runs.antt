-- ===== src/Memory/Runs.antt =====
-- The methods of repository/memory/repository.go as steps, and what holds after any run of them.
use mathlib.Core.Path.{ap₂}
use orderedjob.Prelude.{ℕ, String, ◌≡◌, ◌∙◌, sym, ap, Bool, Option, none, some, List}
use orderedjob.Int64.{ℤ}
use orderedjob.GoMap.{keys}
use orderedjob.Lifecycle.{processing}
use orderedjob.Job.{Job, JobFilter, EnqueueRequest}
use orderedjob.Memory.State.{Repo, new, find_job, find_seq}
use orderedjob.Memory.Enqueue.{enqueue, enqueue_batch}
use orderedjob.Memory.Claim.{claim}
use orderedjob.Memory.Lease.{complete, fail, retry, heartbeat, confirm_cancel}
use orderedjob.Memory.Admin.{
  request_cancel, recover_stale, promote_next, replay_job, replay_job_with_payload, skip_job,
  reschedule_job,
}
use orderedjob.Memory.Bulk.{TextOps, bulk_replay_dlq, bulk_skip_dlq, bulk_purge_dlq}
use orderedjob.Memory.Steps.{
  complete-Evolves, fail-Evolves, retry-Evolves, heartbeat-Evolves, confirm_cancel-Evolves,
  request_cancel-Evolves, recover_stale-Evolves, promote_next-Evolves, replay_job-Evolves,
  replay_job_with_payload-Evolves, skip_job-Evolves, reschedule_job-Evolves,
  bulk_replay_dlq-Evolves, bulk_skip_dlq-Evolves,
}
use orderedjob.Memory.Evolves.{HasSameEntries, same_entries-Evolves}
use orderedjob.Memory.Reach.{
  IsSound, new-IsSound, Evolves-IsSound, CanAdd, CanAddAll, enqueue-IsSound, enqueue_all-IsSound,
  claim-IsSound, purge_over-IsSound,
}

-- One call of a method, or another order of the entries, since Go ranges over a map in any order.
-- An id that `uuid.New` gives is not in use.
pub data Step (r : Repo) : Repo → Type 0 where
  rearranges : {r' : Repo} → HasSameEntries r r' → Step r r'
  enqueues : (req : EnqueueRequest) (id now : ℕ) → CanAdd r req id → Step r (enqueue r req id now).0
  enqueues_batch :
      (reqs : List (EnqueueRequest × ℕ × ℕ)) → CanAddAll r reqs → Step r (enqueue_batch r reqs).0
  claims : (worker : String) (lease now : ℕ) → Step r (claim r worker lease now).0
  completes :
      (id : ℕ) (worker : String) (gen : ℤ) (now : ℕ) → Step r (complete r id worker gen now).0
  fails :
      (id : ℕ) (worker : String) (gen : ℤ) (msg : String) (terminal : Bool) (now : ℕ)
      → Step r (fail r id worker gen msg terminal now).0
  retries :
      (id : ℕ) (worker : String) (gen : ℤ) (msg : String) (next now : ℕ)
      → Step r (retry r id worker gen msg next now).0
  beats :
      (id : ℕ) (worker : String) (gen : ℤ) (lease now : ℕ)
      → Step r (heartbeat r id worker gen lease now).0
  confirms :
      (id : ℕ) (worker : String) (gen : ℤ) (now : ℕ) → Step r (confirm_cancel r id worker gen now).0
  cancels : (id now : ℕ) → Step r (request_cancel r id now).0
  recovers :
      (limit : ℕ) (policy : Option (ℤ → ℕ)) (now : ℕ) → Step r (recover_stale r limit policy now).0
  promotes : (chain : String) (seq : ℤ) (now : ℕ) → Step r (promote_next r chain seq now)
  replays : (id now : ℕ) → Step r (replay_job r id now).0
  replays_with :
      (id : ℕ) (payload : String) (now : ℕ) → Step r (replay_job_with_payload r id payload now).0
  skips : (id now : ℕ) → Step r (skip_job r id now).0
  reschedules : (id at now : ℕ) → Step r (reschedule_job r id at now).0
  bulk_replays : (ops : TextOps) (f : JobFilter) (now : ℕ) → Step r (bulk_replay_dlq ops r f now).0
  bulk_skips : (ops : TextOps) (f : JobFilter) (now : ℕ) → Step r (bulk_skip_dlq ops r f now).0
  bulk_purges : (ops : TextOps) (f : JobFilter) → Step r (bulk_purge_dlq ops r f).0

pub data Reach (r : Repo) : Repo → Type 0 where
  here : Reach r r
  next : {s t : Repo} → Reach r s → Step s t → Reach r t

-- Every method, and every other order of the entries, keeps a repository sound in which the index
-- agrees with the jobs, one job of a chain runs at most, and a key names one job at most; an added
-- job has a new id, and its chain has a sequence left.
pub Step-IsSound : {r r' : Repo} → Step r r' → IsSound r → IsSound r'
unfolding enqueue enqueue_batch bulk_purge_dlq
Step-IsSound {r} (rearranges same) s = Evolves-IsSound (same_entries-Evolves same) s
Step-IsSound {r} (enqueues req id now can) s = enqueue-IsSound r req id now s can
Step-IsSound {r} (enqueues_batch reqs can) s = enqueue_all-IsSound r r _ reqs s s can
Step-IsSound {r} (claims worker lease now) s = claim-IsSound r worker lease now s
Step-IsSound {r} (completes id w g now) s = Evolves-IsSound (complete-Evolves r id w g now) s
Step-IsSound {r} (fails id w g m t now) s = Evolves-IsSound (fail-Evolves r id w g m t now) s
Step-IsSound {r} (retries id w g m n now) s = Evolves-IsSound (retry-Evolves r id w g m n now) s
Step-IsSound {r} (beats id w g l now) s = Evolves-IsSound (heartbeat-Evolves r id w g l now) s
Step-IsSound {r} (confirms id w g now) s = Evolves-IsSound (confirm_cancel-Evolves r id w g now) s
Step-IsSound {r} (cancels id now) s = Evolves-IsSound (request_cancel-Evolves r id now) s
Step-IsSound {r} (recovers l p now) s = Evolves-IsSound (recover_stale-Evolves r l p now) s
Step-IsSound {r} (promotes c q now) s = Evolves-IsSound (promote_next-Evolves r c q now) s
Step-IsSound {r} (replays id now) s = Evolves-IsSound (replay_job-Evolves r id now) s
Step-IsSound {r} (replays_with id p now) s =
    Evolves-IsSound (replay_job_with_payload-Evolves r id p now) s
Step-IsSound {r} (skips id now) s = Evolves-IsSound (skip_job-Evolves r id now) s
Step-IsSound {r} (reschedules id at now) s = Evolves-IsSound (reschedule_job-Evolves r id at now) s
Step-IsSound {r} (bulk_replays ops f now) s =
    Evolves-IsSound (bulk_replay_dlq-Evolves ops r f now) s
Step-IsSound {r} (bulk_skips ops f now) s = Evolves-IsSound (bulk_skip_dlq-Evolves ops r f now) s
Step-IsSound {r} (bulk_purges ops f) s = purge_over-IsSound _ (keys r.jobs) r 0 s

-- Every run keeps a sound repository sound.
pub Reach-IsSound : {r r' : Repo} → Reach r r' → IsSound r → IsSound r'
Reach-IsSound here s = s
Reach-IsSound (next p st) s = Step-IsSound st (Reach-IsSound p s)

-- After any run from the empty repository, through any methods in any order of the entries, two
-- running jobs of one chain are one job; an added job has a new id, and its chain has a sequence
-- left.
pub run_one_per_chain :
    (r : Repo) (i k : ℕ) (j l : Job)
    → Reach new r
    → find_job r i ≡ some j
    → find_job r k ≡ some l
    → j.status ≡ processing
    → l.status ≡ processing
    → j.chain_id ≡ l.chain_id
    → i ≡ k
run_one_per_chain r i k j l p = (Reach-IsSound p new-IsSound).exclusive.one i k j l

-- After any run from the empty repository, through any methods in any order of the entries, two
-- jobs at one place of a chain are one job; an added job has a new id, and its chain has a sequence
-- left.
pub run_one_per_place :
    (r : Repo) (i k : ℕ) (j l : Job)
    → Reach new r
    → find_job r i ≡ some j
    → find_job r k ≡ some l
    → j.chain_id ≡ l.chain_id
    → j.sequence ≡ l.sequence
    → i ≡ k
run_one_per_place r i k j l p e f c s =
    let ix = (Reach-IsSound p new-IsSound).indexed in
    ap or_zero_id (sym (ix.listed i j e) ∙ ap₂ (find_seq r) c s ∙ ix.listed k l f)
  where
    or_zero_id : Option ℕ → ℕ
    or_zero_id none = 0
    or_zero_id (some n) = n
