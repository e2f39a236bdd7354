-- ===== src/Memory/Progress.antt =====
-- What Complete and PromoteNext of repository/memory/repository.go open: the next job of the chain.
use mathlib.Core.Path.{ap₂}
use orderedjob.Prelude.{
  ℕ, String, ◌≡◌, ◌≢◌, ◌≤◌, refl, sym, ◌∙◌, ap, some, arith, inl, inr, ite, if_pos, if_neg,
  ℕ_discrete, Option, none, Bool-cases,
}
use orderedjob.Int64.{ℤ, inc64, dec64, InRange, dec64-inc64}
use orderedjob.Lifecycle.{same, processing, pending, blocked}
use orderedjob.Job.{Job}
use orderedjob.Memory.State.{Repo, find_job, find_seq, put_job, or_zero, find_job-put, find_seq-put}
use orderedjob.Memory.Lease.{promote_after, promote_id}
use orderedjob.Memory.Steps.{promote_after-Evolves}
use orderedjob.Memory.Index.{IsIndexed}
use orderedjob.Memory.Exclusive.{IsExclusive}
use orderedjob.Memory.Claims.{IsDone, IsClaimable, IsIdle}

-- The next job, promoted.
abbrev pub promoted : Job → ℕ → Job
promoted k now = record k { status = pending; updated_at = now }

-- The job that is stored under the id has the place of `k`, and may be claimed.
abbrev pub IsOpened : Repo → ℕ → Job → ℕ → Type 0
IsOpened r id k later =
    (q : Job) × (find_job r id ≡ some q)
    × (q.chain_id ≡ k.chain_id)
    × (q.sequence ≡ k.sequence)
    × IsClaimable r later q

-- The write of a promotion: the next job, if it is BLOCKED, and no other.
pub find_job-promote :
    (r : Repo) (c : String) (s : ℤ) (now next : ℕ) (k : Job) (id : ℕ)
    → find_seq r c (inc64 s) ≡ some next
    → find_job r next ≡ some k
    → k.status ≡ blocked
    → find_job (promote_after r c s now) id
      ≡ ite (ℕ_discrete next id) (some (promoted k now)) (find_job r id)
unfolding promote_after
find_job-promote r c s now next k id e f b =
    rw (e, f) (ground (arith, find_job-put r next id (promoted k now)))

-- A promotion leaves a job that is not BLOCKED as it is.
pub promote_after-leaves :
    (r : Repo) (c : String) (s : ℤ) (now id : ℕ) (q : Job)
    → find_job r id ≡ some q
    → q.status ≢ blocked
    → find_job (promote_after r c s now) id ≡ some q
unfolding promote_after
promote_after-leaves r c s now id q f n = on (find_seq r c (inc64 s))
  where
    waiting : (next : ℕ) → find_job (promote_id r now (some next)) id ≡ some q
    waiting next = elim (Bool-cases (same (or_zero (find_job r next)).status blocked)) [
      | inr b ↦ rw b f
      | inl b ↦ elim (ℕ_discrete next id) [
        | yes e ↦
            let it : or_zero (find_job r next) ≡ q =
              ap (λ i. or_zero (find_job r i)) e ∙ ap or_zero f in
            absurd (n (ap (λ (x : Job). x.status) (sym it) ∙ ground arith))
        | no d ↦ rw b (find_job-put r next id _ ∙ if_neg (ℕ_discrete next id) d _ _ ∙ f)
      ]
    ]

    on : (o : Option ℕ) → find_job (promote_id r now o) id ≡ some q
    on none = f
    on (some next) = waiting next

-- A job `j` that runs is replaced by `n`, and the job `k` behind it is promoted.
module _ (r : Repo) (id next now : ℕ) (j k n : Job) (found : find_job r id ≡ some j)
    (runs : j.status ≡ processing) (behind : find_seq r j.chain_id (inc64 j.sequence) ≡ some next)
    (found_next : find_job r next ≡ some k) (waits : k.status ≡ blocked) where
  abbrev after : Repo
  after = promote_after (put_job r id n) j.chain_id j.sequence now

  find_next : find_job (put_job r id n) next ≡ some k
  find_next = ground (arith, find_job-put r id next n)

  pub find_job-after :
      (i : ℕ)
      → find_job after i
        ≡ ite
            (ℕ_discrete next i)
            (some (promoted k now))
            (ite (ℕ_discrete id i) (some n) (find_job r i))
  find_job-after i =
      find_job-promote (put_job r id n) j.chain_id j.sequence now next k i
        (find_seq-put r id n _ _ ∙ behind) find_next waits
      ∙ ap (λ o. ite (ℕ_discrete next i) (some (promoted k now)) o) (find_job-put r id i n)

  find_done : find_job after id ≡ some n
  find_done = ground (arith, find_job-after id)

  find_seq-after : (c : String) (s : ℤ) → find_seq after c s ≡ find_seq r c s
  find_seq-after c s =
      (promote_after-Evolves (put_job r id n) j.chain_id j.sequence now).chain_at c s
      ∙ find_seq-put r id n c s

  after-IsIdle : IsExclusive r → n.status ≢ processing → IsIdle after j.chain_id
  after-IsIdle x idle i l e c p = ground (arith, find_job-after i, x.one i id l j)

  -- The job behind becomes claimable, as soon as it is due.
  pub after-IsClaimable :
      (later : ℕ)
      → IsIndexed r
      → IsExclusive r
      → InRange j.sequence
      → n.status ≢ processing
      → IsDone n
      → k.available_at ≤ later
      → IsClaimable after later (promoted k now)
  after-IsClaimable later ix x range idle done due =
      let (k', f, c, s) = ix.leads j.chain_id (inc64 j.sequence) next behind in
      let same : k' ≡ k = ap or_zero (sym f ∙ found_next) in
      let chain : k.chain_id ≡ j.chain_id = ap (λ (q : Job). q.chain_id) (sym same) ∙ c in
      let seq : k.sequence ≡ inc64 j.sequence = ap (λ (q : Job). q.sequence) (sym same) ∙ s in
      let at : find_seq after k.chain_id (dec64 k.sequence) ≡ some id =
        find_seq-after k.chain_id (dec64 k.sequence)
        ∙ ap₂ (find_seq r) chain (ap dec64 seq ∙ dec64-inc64 j.sequence range)
        ∙ ix.listed id j found in
      (
        inl refl,
        due,
        inr (id, n, at, find_done, done),
        λ i l e p. after-IsIdle x idle i l e (p ∙ chain),
      )

  -- The job behind is stored and claimable.
  pub after-IsOpened :
      (later : ℕ)
      → IsIndexed r
      → IsExclusive r
      → InRange j.sequence
      → n.status ≢ processing
      → IsDone n
      → k.available_at ≤ later
      → IsOpened after next k later
  after-IsOpened later ix x range idle done due = (
    promoted k now,
    find_job-after next ∙ if_pos (ℕ_discrete next next) refl _ _,
    refl,
    refl,
    after-IsClaimable later ix x range idle done due,
  )
