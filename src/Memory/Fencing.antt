-- ===== src/Memory/Fencing.antt =====
-- The fencing test of repository/memory/repository.go: a worker whose lease is not the current one
-- is refused, and a lease is not current again once its job was claimed anew.
use orderedjob.Prelude.{ℕ, String, ◌≡◌, ◌≢◌, ◌⊎◌, refl, sym, ◌∙◌, Bool, some, arith, inr}
use orderedjob.Int64.{ℤ, inc64, inc64-ne}
use orderedjob.Job.{Job, Result, ok, err, lease_conflict}
use orderedjob.Memory.State.{Repo, find_job, put_job, find_job-put}
use orderedjob.Memory.Claim.{claim, start_job}
use orderedjob.Memory.Lease.{holds_lease, fenced, complete, fail, retry, heartbeat, confirm_cancel}
use orderedjob.Memory.Evolves.{Later, Evolves, after_step}
use orderedjob.Memory.Index.{IsIndexed}
use orderedjob.Memory.Claims.{claim-Takes}

-- What a worker does with its lease.
pub data LeaseCall : Type 0 where
  completing : (now : ℕ) → LeaseCall
  failing : (msg : String) (terminal : Bool) (now : ℕ) → LeaseCall
  retrying : (msg : String) (next now : ℕ) → LeaseCall
  beating : (lease now : ℕ) → LeaseCall
  confirming : (now : ℕ) → LeaseCall

unfoldable pub perform : Repo → ℕ → String → ℤ → LeaseCall → Repo × Result (Unit {0})
perform r id worker gen (completing now) = complete r id worker gen now
perform r id worker gen (failing msg terminal now) = fail r id worker gen msg terminal now
perform r id worker gen (retrying msg next now) = retry r id worker gen msg next now
perform r id worker gen (beating lease now) = heartbeat r id worker gen lease now
perform r id worker gen (confirming now) = confirm_cancel r id worker gen now

perform-fenced :
    (r : Repo) (id : ℕ) (worker : String) (gen : ℤ) (c : LeaseCall)
    → (act : Job → Repo) × (perform r id worker gen c ≡ fenced r id worker gen act)
unfolding perform complete fail retry heartbeat confirm_cancel
perform-fenced r id worker gen (completing now) = (_, refl)
perform-fenced r id worker gen (failing msg terminal now) = (_, refl)
perform-fenced r id worker gen (retrying msg next now) = (_, refl)
perform-fenced r id worker gen (beating lease now) = (_, refl)
perform-fenced r id worker gen (confirming now) = (_, refl)

fenced_refuses :
    (r : Repo) (id : ℕ) (worker : String) (gen : ℤ) (act : Job → Repo) (j : Job)
    → find_job r id ≡ some j
    → (j.worker_id ≢ worker) ⊎ (j.lease_generation ≢ gen)
    → fenced r id worker gen act ≡ (r, err lease_conflict)
unfolding fenced holds_lease
fenced_refuses r id worker gen act j e h = rw e (ground arith)

-- A worker that is not the one of the lease, or names another generation, is refused by each of
-- the five methods, and nothing changes.
pub stale_lease_refused :
    (r : Repo) (id : ℕ) (worker : String) (gen : ℤ) (c : LeaseCall) (j : Job)
    → find_job r id ≡ some j
    → (j.worker_id ≢ worker) ⊎ (j.lease_generation ≢ gen)
    → perform r id worker gen c ≡ (r, err lease_conflict)
stale_lease_refused r id worker gen c j e h =
    let (act, p) = perform-fenced r id worker gen c in p ∙ fenced_refuses r id worker gen act j e h

claimed_job :
    (r r' : Repo) (worker : String) (lease now : ℕ) (n j k : Job)
    → find_job r k.id ≡ some k
    → n ≡ start_job k worker lease now
    → r' ≡ put_job r k.id n
    → find_job r n.id ≡ some j
    → (find_job r' n.id ≡ some n) × (n.lease_generation ≡ inc64 j.lease_generation)
unfolding start_job
claimed_job r r' worker lease now n j k f same put e = ground (arith, find_job-put r k.id n.id n)

-- Over an indexed repository, a claim renews the generation: the lease that the job had before is
-- refused then, and after any further methods that evolve the repository.
pub claim_fences :
    (r r' s : Repo) (worker : String) (lease now : ℕ) (n j : Job) (old : String) (c : LeaseCall)
    → IsIndexed r
    → claim r worker lease now ≡ (r', ok n)
    → find_job r n.id ≡ some j
    → Evolves r' s
    → perform s n.id old j.lease_generation c ≡ (s, err lease_conflict)
claim_fences r r' s worker lease now n j old c ix h e ev =
    let (k, f, _, _, same, put) = claim-Takes r r' worker lease now n ix h in
    let (found, gen) = claimed_job r r' worker lease now n j k f same put e in
    let (m, at, l) = after_step Later _ _ n (ev.jobs_at n.id) found in
    stale_lease_refused s n.id old j.lease_generation c m at
      (inr (λ p. inc64-ne j.lease_generation (sym gen ∙ sym l.same_generation ∙ p)))
