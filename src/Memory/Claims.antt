-- ===== src/Memory/Claims.antt =====
-- The contract of Claim of repository/memory/repository.go, in terms that do not run the code.
use orderedjob.Prelude.{
  ℕ, String, ◌≡◌, ◌≢◌, ◌⊎◌, ◌≤◌, ◌<◌, ◌↔◌, refl, sym, ◌∙◌, ap, true, false, Option, none, some,
  arith, ℕ_discrete, Option-cases, Bool-cases, inl, inr, List, [], ◌∷◌, In,
}
use orderedjob.Int64.{pos, dec64, ℤ_discrete}
use orderedjob.GoMap.{range-get}
use orderedjob.Lifecycle.{pending, retrying, processing, completed, failed, dead_lettered}
use orderedjob.Job.{Job, Result, ok, err, not_found, skip_on_failure, dead_letter_and_continue}
use orderedjob.Memory.State.{Repo, find_job, find_seq, put_job, is_finished}
use orderedjob.Memory.Claim.{
  is_candidate, predecessor_finished, finished_at, candidates, before, is_busy, busy_in, choose,
  claim, start_job,
}
use orderedjob.Memory.Index.{IsIndexed}
use orderedjob.Memory.Exclusive.{not_busy}
use orderedjob.Memory.Choice.{
  candidates-In, In-candidates, candidates-IsSorted, next_free-IsFirstFree, next_free-none,
  choose-next_free,
}

-- The job lets the next one of its chain run.
abbrev pub IsDone : Job → Type 0
IsDone j =
    (j.status ≡ completed)
    ⊎ (((j.status ≡ failed) ⊎ (j.status ≡ dead_lettered))
        × ((j.ordering_mode ≡ skip_on_failure) ⊎ (j.ordering_mode ≡ dead_letter_and_continue)))

-- The job is the first of its chain, or the one before it is done.
abbrev pub IsNext : Repo → Job → Type 0
IsNext r j =
    (j.sequence ≡ pos 1)
    ⊎ ((id : ℕ) × (p : Job) × (find_seq r j.chain_id (dec64 j.sequence) ≡ some id)
        × (find_job r id ≡ some p)
        × IsDone p)

-- No job of the chain runs.
abbrev pub IsIdle : Repo → String → Type 0
IsIdle r c = (id : ℕ) (j : Job) → find_job r id ≡ some j → j.chain_id ≡ c → j.status ≢ processing

-- What a worker may take at the time `now`.
abbrev pub IsClaimable : Repo → ℕ → Job → Type 0
IsClaimable r now j =
    ((j.status ≡ pending) ⊎ (j.status ≡ retrying))
    × (j.available_at ≤ now)
    × IsNext r j
    × IsIdle r j.chain_id

-- `j` is due no later than `k`, and made no later where both are due together.
abbrev pub IsDueFirst : Job → Job → Type 0
IsDueFirst j k =
    (j.available_at < k.available_at)
    ⊎ ((j.available_at ≡ k.available_at) × (j.created_at ≤ k.created_at))

pub is_finished-IsDone : (j : Job) → is_finished j ≡ true → IsDone j
unfolding is_finished
is_finished-IsDone j h = ground arith

IsDone-is_finished : (j : Job) → IsDone j → is_finished j ≡ true
unfolding is_finished
IsDone-is_finished j h = ground arith

finished_at-some :
    (r : Repo) (o : Option ℕ)
    → finished_at r o ≡ true
    → (id : ℕ) × (p : Job) × (o ≡ some id) × (find_job r id ≡ some p) × IsDone p
finished_at-some r none h = cc
finished_at-some r (some id) h = elim (Option-cases (find_job r id)) [
  | inl e ↦ cc (rw e at h)
  | inr (p, e) ↦ (id, p, refl, e, is_finished-IsDone p (rw e at h))
]

predecessor-IsNext : (r : Repo) (j : Job) → predecessor_finished r j ≡ true → IsNext r j
unfolding predecessor_finished
predecessor-IsNext r j h = elim (ℤ_discrete j.sequence (pos 1)) [
  | yes p ↦ inl p
  | no p ↦ inr (finished_at-some r _ (ground arith))
]

IsNext-predecessor : (r : Repo) (j : Job) → IsNext r j → predecessor_finished r j ≡ true
unfolding predecessor_finished
IsNext-predecessor r j (inl p) = ground arith
IsNext-predecessor r j (inr (id, p, e, f, d)) = ground (arith, IsDone-is_finished p d)

candidate-parts :
    (r : Repo) (now : ℕ) (j : Job)
    → is_candidate r now j ≡ true
    → ((j.status ≡ pending) ⊎ (j.status ≡ retrying)) × (j.available_at ≤ now) × IsNext r j
unfolding is_candidate
candidate-parts r now j h = (ground arith, ground arith, predecessor-IsNext r j (ground arith))

parts-candidate :
    (r : Repo) (now : ℕ) (j : Job)
    → (j.status ≡ pending) ⊎ (j.status ≡ retrying)
    → j.available_at ≤ now
    → IsNext r j
    → is_candidate r now j ≡ true
unfolding is_candidate
parts-candidate r now j h k n = ground (arith, IsNext-predecessor r j n)

busy_in-some :
    (c : String) (l : List (ℕ × Job))
    → busy_in c l ≡ true
    → (id : ℕ) × (j : Job) × In (id, j) l × (j.chain_id ≡ c) × (j.status ≡ processing)
busy_in-some c [] h = cc
busy_in-some c ((i, k) ∷ l) h = elim (here_or_there h) [
  | inl (e, p) ↦ (i, k, inl refl, e, p)
  | inr h' ↦ let (id, j, m, e, p) = busy_in-some c l h' in (id, j, inr m, e, p)
]
  where
    here_or_there :
        busy_in c ((i, k) ∷ l) ≡ true
        → ((k.chain_id ≡ c) × (k.status ≡ processing)) ⊎ (busy_in c l ≡ true)
    here_or_there h = ground arith

is_busy-some :
    (r : Repo) (c : String)
    → is_busy r c ≡ true
    → (id : ℕ) × (j : Job) × (find_job r id ≡ some j) × (j.chain_id ≡ c) × (j.status ≡ processing)
unfolding is_busy find_job
is_busy-some r c h =
    let (id, j, m, e, p) = busy_in-some c _ h in (id, j, range-get ℕ_discrete id j r.jobs m, e, p)

IsIdle-is_busy : (r : Repo) (c : String) → IsIdle r c → is_busy r c ≡ false
IsIdle-is_busy r c idle = elim (Bool-cases (is_busy r c)) [
  | inl b ↦ let (id, j, e, p, q) = is_busy-some r c b in absurd (idle id j e p q)
  | inr b ↦ b
]

before-IsDueFirst : (j k : Job) → before k j ≡ false → IsDueFirst j k
unfolding before
before-IsDueFirst j k h = ground arith

pub claim_cases :
    (P : Repo × Result Job → Type 0) (r : Repo) (worker : String) (lease now : ℕ)
    → (choose r (candidates r now) ≡ none → P (r, err not_found))
    → ((j : Job)
        → choose r (candidates r now) ≡ some j
        → let n = start_job j worker lease now in P (put_job r j.id n, ok n))
    → P (claim r worker lease now)
unfolding claim
claim_cases P r worker lease now nothing chosen =
    elim (Option-cases (choose r (candidates r now))) [
      | inl e ↦ rw e (nothing e)
      | inr (j, e) ↦ rw e (chosen j e)
    ]

pub chosen_facts :
    (r : Repo) (now : ℕ) (j : Job)
    → IsIndexed r
    → choose r (candidates r now) ≡ some j
    → (find_job r j.id ≡ some j) × (is_busy r j.chain_id ≡ false)
chosen_facts r now j ix h =
    let (idle, m, _) =
      next_free-IsFirstFree r _ j (candidates-IsSorted r now) (sym (choose-next_free r _) ∙ h) in
    let (id, e, _) = candidates-In r now j m in (ap (find_job r) (ix.own_id id j e) ∙ e, idle)

-- The choice is a claimable job, due before every other one.
pub chosen_is_first :
    (r : Repo) (now : ℕ) (j : Job)
    → IsIndexed r
    → choose r (candidates r now) ≡ some j
    → (find_job r j.id ≡ some j)
      × IsClaimable r now j
      × ((id : ℕ) (k : Job) → find_job r id ≡ some k → IsClaimable r now k → IsDueFirst j k)
chosen_is_first r now j ix h =
    let (idle, m, best) =
      next_free-IsFirstFree r _ j (candidates-IsSorted r now) (sym (choose-next_free r _) ∙ h) in
    let (id, e, b) = candidates-In r now j m in
    let (st, due, next) = candidate-parts r now j b in
    let at_id : find_job r j.id ≡ some j = ap (find_job r) (ix.own_id id j e) ∙ e in
    (
      at_id,
      (st, due, next, λ i k f p. not_busy r j.chain_id i k idle f p),
      λ i k f (s, d, n, q). before-IsDueFirst j k (
          best k (In-candidates r now i k f (parts-candidate r now k s d n))
            (IsIdle-is_busy r k.chain_id q)),
    )

-- `n` is the claimable job that is due first, started for the worker, and `r'` is `r` with `n`.
abbrev pub Takes : Repo → String → ℕ → ℕ → Repo → Job → Type 0
Takes r worker lease now r' n =
    (j : Job) × (find_job r j.id ≡ some j)
    × IsClaimable r now j
    × ((id : ℕ) (k : Job) → find_job r id ≡ some k → IsClaimable r now k → IsDueFirst j k)
    × (n ≡ start_job j worker lease now)
    × (r' ≡ put_job r j.id n)

-- Over an indexed repository, a claim that succeeds takes a claimable job that is due before every
-- other claimable job, starts it for the worker, and writes nothing else.
pub claim-Takes :
    (r r' : Repo) (worker : String) (lease now : ℕ) (n : Job)
    → IsIndexed r
    → claim r worker lease now ≡ (r', ok n)
    → Takes r worker lease now r' n
claim-Takes r r' worker lease now n ix =
    claim_cases (λ x. x ≡ (r', ok n) → Takes r worker lease now r' n) r worker lease now (λ e h. cc)
      λ j e h.
        let (f, c, best) = chosen_is_first r now j ix e in
        (j, f, c, best, ground arith, ground arith)

claimable_chosen :
    (r : Repo) (now id : ℕ) (k : Job)
    → find_job r id ≡ some k
    → IsClaimable r now k
    → choose r (candidates r now) ≢ none
claimable_chosen r now id k f (s, d, n, q) h = cc (
  IsIdle-is_busy r k.chain_id q,
  next_free-none r _ k (sym (choose-next_free r _) ∙ h)
      (In-candidates r now id k f (parts-candidate r now k s d n)),
)

-- Over an indexed repository, a claim finds nothing and changes nothing exactly when no stored job
-- is claimable.
pub claim_none_iff :
    (r : Repo) (worker : String) (lease now : ℕ)
    → IsIndexed r
    → (claim r worker lease now ≡ (r, err not_found))
      ↔ ((id : ℕ) (k : Job) → find_job r id ≡ some k → ¬ IsClaimable r now k)
claim_none_iff r worker lease now ix =
    claim_cases
      (λ x.
        (x ≡ (r, err not_found))
        ↔ ((id : ℕ) (k : Job) → find_job r id ≡ some k → ¬ IsClaimable r now k))
      r worker lease now (λ e. (λ h id k f c. claimable_chosen r now id k f c e, λ h. refl))
      (λ j e. let (f, c, _) = chosen_is_first r now j ix e in (λ h. cc, λ h. absurd (h j.id j f c)))
