-- ===== src/Memory/Recovery.antt =====
-- RecoverStale of repository/memory/repository.go: it keeps to its limit, and below the limit it
-- leaves no stale lease.
use orderedjob.Prelude.{
  ℕ, zero, suc, ◌+◌, ◌≤◌, ◌<◌, ◌≡◌, refl, Bool, true, false, Option, none, some, arith, List, [],
  ◌∷◌, In, Option-cases, Bool-cases, inl, inr, if◌then◌else◌, ℕ_discrete,
}
use orderedjob.Int64.{ℤ}
use orderedjob.GoMap.{keys, In-keys}
use orderedjob.Lifecycle.{Status-discrete, processing}
use orderedjob.Job.{Job}
use orderedjob.Memory.State.{Repo, find_job, find_job-put}
use orderedjob.Memory.Admin.{recover_one, recover_over, recover_stale, recovered_job, is_stale}

-- The worker of a running job let its lease run out before `now`.
abbrev pub HasStaleLease : Repo → ℕ → ℕ → Type 0
HasStaleLease r id now =
    (j : Job) × (until : ℕ) × (find_job r id ≡ some j)
    × (j.status ≡ processing)
    × (j.lease_until ≡ some until)
    × (until < now)

recovered-not_stale :
    (j : Job) (policy : Option (ℤ → ℕ)) (now : ℕ)
    → is_stale (recovered_job j policy now) now ≡ false
unfolding is_stale recovered_job Status-discrete
recovered-not_stale j policy now = refl

HasStaleLease-is_stale :
    (r : Repo) (id now : ℕ) (h : HasStaleLease r id now) → is_stale h.0 now ≡ true
unfolding is_stale
HasStaleLease-is_stale r id now h = ground arith

-- no job that the test passes over
abbrev IsFresh : Repo → ℕ → ℕ → Type 0
IsFresh r now id = (j : Job) → find_job r id ≡ some j → is_stale j now ≡ false

recover_one-at :
    (r : Repo) (i : ℕ) (policy : Option (ℤ → ℕ)) (now : ℕ) (o : Option Job) (id : ℕ)
    → find_job r i ≡ o
    → (IsFresh r now id → IsFresh (recover_one r i policy now o).0 now id)
      × (i ≡ id → IsFresh (recover_one r i policy now o).0 now id)
recover_one-at r i policy now none id e = (λ h. h, λ p j f. cc)
recover_one-at r i policy now (some k) id e = elim (Bool-cases (is_stale k now)) [
  | inl b ↦ rw b (
    λ h j f. ground (
      arith,
      find_job-put r i id (recovered_job k policy now),
      recovered-not_stale k policy now,
      h j,
    ),
    λ p j f.
        ground (
          arith,
          find_job-put r i id (recovered_job k policy now),
          recovered-not_stale k policy now,
        ),
  )
  | inr b ↦ rw b (λ h. h, λ p j f. ground arith)
]

-- A hit takes one from what is left and adds one to the count.
budget :
    (hit : Bool) (left count : ℕ)
    → (if hit then suc count else count) + (if hit then left else suc left) ≡ count + suc left
budget hit left count = ground arith

recover_over-le :
    (ids : List ℕ) (r : Repo) (left count : ℕ) (policy : Option (ℤ → ℕ)) (now : ℕ)
    → (recover_over ids r left count policy now).1 ≤ count + left
unfolding recover_over
recover_over-le [] r left count policy now = omega arith
recover_over-le (id ∷ ids) r zero count policy now = omega arith
recover_over-le (id ∷ ids) r (suc left) count policy now =
    let (r', hit) = recover_one r id policy now (find_job r id) in
    rw (← budget hit left count) (
      recover_over-le ids r' (if hit then left else suc left) (if hit then suc count else count)
        policy now)

recover_over-keeps :
    (ids : List ℕ) (r : Repo) (left count : ℕ) (policy : Option (ℤ → ℕ)) (now id : ℕ)
    → IsFresh r now id
    → IsFresh (recover_over ids r left count policy now).0 now id
unfolding recover_over
recover_over-keeps [] r left count policy now id h = h
recover_over-keeps (i ∷ ids) r zero count policy now id h = h
recover_over-keeps (i ∷ ids) r (suc left) count policy now id h =
    recover_over-keeps ids _ _ _ policy now id
      ((recover_one-at r i policy now (find_job r i) id refl).0 h)

recover_over-all :
    (ids : List ℕ) (r : Repo) (left count : ℕ) (policy : Option (ℤ → ℕ)) (now id : ℕ)
    → (recover_over ids r left count policy now).1 < count + left
    → In id ids
    → IsFresh (recover_over ids r left count policy now).0 now id
unfolding recover_over
recover_over-all [] r left count policy now id h m = absurd m
recover_over-all (i ∷ ids) r zero count policy now id h m = absurd (omega arith)
recover_over-all (i ∷ ids) r (suc left) count policy now id h (inl e) =
    recover_over-keeps ids _ _ _ policy now id
      ((recover_one-at r i policy now (find_job r i) id refl).1 e)
recover_over-all (i ∷ ids) r (suc left) count policy now id h (inr m) =
    let (r', hit) = recover_one r i policy now (find_job r i) in
    recover_over-all ids r' (if hit then left else suc left) (if hit then suc count else count)
      policy now id (rw (budget hit left count) h) m

-- At most `limit` jobs are recovered.
pub recover_stale_limit :
    (r : Repo) (limit : ℕ) (policy : Option (ℤ → ℕ)) (now : ℕ)
    → (recover_stale r limit policy now).1 ≤ limit
unfolding recover_stale
recover_stale_limit r limit policy now =
    omega (arith, recover_over-le (keys r.jobs) r limit 0 policy now)

all-IsFresh :
    (r : Repo) (limit : ℕ) (policy : Option (ℤ → ℕ)) (now id : ℕ)
    → (recover_stale r limit policy now).1 < limit
    → IsFresh (recover_stale r limit policy now).0 now id
unfolding recover_stale find_job
all-IsFresh r limit policy now id h = elim (Option-cases (find_job r id)) [
  | inl e ↦ recover_over-keeps (keys r.jobs) r limit 0 policy now id (λ j f. cc)
  | inr (j, e) ↦
      recover_over-all (keys r.jobs) r limit 0 policy now id (omega arith)
        (In-keys ℕ_discrete id j r.jobs e)
]

-- If fewer than `limit` jobs are recovered, then no running job has a stale lease afterwards.
pub recover_stale_all :
    (r : Repo) (limit : ℕ) (policy : Option (ℤ → ℕ)) (now id : ℕ)
    → (recover_stale r limit policy now).1 < limit
    → ¬ HasStaleLease (recover_stale r limit policy now).0 id now
recover_stale_all r limit policy now id h s =
    cc (all-IsFresh r limit policy now id h s.0 s.2, HasStaleLease-is_stale _ id now s)
