-- ===== src/Memory/Exclusive.antt =====
-- At most one job of a chain runs at a time in repository/memory/repository.go.
use mathlib.Core.List.{lookup}
use orderedjob.Prelude.{
  ℕ, String, ◌≡◌, ◌≢◌, sym, ◌∙◌, true, false, some, arith, ℕ_discrete, inl, inr, List, [], ◌∷◌, In,
}
use orderedjob.GoMap.{range, get-range}
use orderedjob.Lifecycle.{processing}
use orderedjob.Job.{Job}
use orderedjob.Memory.State.{Repo, new, find_job, put_job, find_job-put}
use orderedjob.Memory.Enqueue.{add_job}
use orderedjob.Memory.Bulk.{purge_at}
use orderedjob.Memory.Claim.{busy_in, is_busy}
use orderedjob.Memory.Evolves.{Later, Evolves, before_step}
use orderedjob.Memory.Index.{find_job-add, find_job-purge}

-- Two running jobs of one chain are one job.
pub record IsExclusive (r : Repo) : Type 0 where
  pub one :
      (i k : ℕ) (j l : Job)
      → find_job r i ≡ some j
      → find_job r k ≡ some l
      → j.status ≡ processing
      → l.status ≡ processing
      → j.chain_id ≡ l.chain_id
      → i ≡ k

pub new-IsExclusive : IsExclusive new
unfolding new find_job lookup
new-IsExclusive = record { one = λ i k j l e. cc }

pub Evolves-IsExclusive : {r r' : Repo} → Evolves r r' → IsExclusive r → IsExclusive r'
Evolves-IsExclusive ev x = record {
  one = λ i k j l e f p q c.
      let (j', e', a) = before_step Later _ _ j (ev.jobs_at i) e in
      let (l', f', b) = before_step Later _ _ l (ev.jobs_at k) f in
      x.one i k j' l' e' f' (a.ran p) (b.ran q) (sym a.same_chain ∙ c ∙ b.same_chain);
}

-- A new job does not run.
pub add_job-IsExclusive :
    (r : Repo) (j : Job) → IsExclusive r → j.status ≢ processing → IsExclusive (add_job r j)
add_job-IsExclusive r n x idle = record {
  one = λ i k j l e f p q c. ground (arith, find_job-add r n i, find_job-add r n k, x.one i k j l);
}

pub purge-IsExclusive :
    (r : Repo) (id : ℕ) (d : Job) → IsExclusive r → IsExclusive (purge_at r id d)
purge-IsExclusive r id d x = record {
  one = λ i k j l e f p q c.
      ground (arith, find_job-purge r id d i, find_job-purge r id d k, x.one i k j l);
}

busy_in-In :
    (c : String) (id : ℕ) (j : Job) (l : List (ℕ × Job))
    → In (id, j) l
    → j.chain_id ≡ c
    → j.status ≡ processing
    → busy_in c l ≡ true
busy_in-In c id j [] h p q = absurd h
busy_in-In c id j ((i, k) ∷ l) (inl e) p q = ground arith
busy_in-In c id j ((i, k) ∷ l) (inr h) p q = ground (arith, busy_in-In c id j l h p q)

-- Where a chain is not busy, none of its jobs runs.
pub not_busy :
    (r : Repo) (c : String) (id : ℕ) (j : Job)
    → is_busy r c ≡ false
    → find_job r id ≡ some j
    → j.chain_id ≡ c
    → j.status ≢ processing
unfolding is_busy find_job
not_busy r c id j h e p q =
    cc (busy_in-In c id j (range ℕ_discrete r.jobs) (get-range ℕ_discrete id j r.jobs e) p q)

-- A job may start in a chain that is not busy.
pub start-IsExclusive :
    (r : Repo) (id : ℕ) (n : Job)
    → IsExclusive r
    → is_busy r n.chain_id ≡ false
    → IsExclusive (put_job r id n)
start-IsExclusive r id n x idle = record {
  one = λ i k j l e f p q c. ground (
    arith,
    find_job-put r id i n,
    find_job-put r id k n,
    x.one i k j l,
    not_busy r n.chain_id i j idle,
    not_busy r n.chain_id k l idle,
  );
}
