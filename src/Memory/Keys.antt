-- ===== src/Memory/Keys.antt =====
-- Enqueue of repository/memory/repository.go case by case, and the idempotency keys: a key names at
-- most one job.
use mathlib.Core.List.{lookup}
use orderedjob.Prelude.{
  ℕ, String, ◌≡◌, ◌≢◌, ◌⊎◌, refl, sym, ◌∙◌, Option, none, some, arith, ℕ_discrete, Bool-cases, inl,
  inr, List, [], ◌∷◌, In,
}
use orderedjob.Int64.{ℤ}
use orderedjob.GoMap.{range, get-range, range-get}
use orderedjob.Lifecycle.{processing}
use orderedjob.Job.{Job, EnqueueRequest, Result, ok, err, RepoError, chain_id_required, is_empty}
use orderedjob.Memory.State.{Repo, new, find_job, find_seq}
use orderedjob.Memory.Enqueue.{
  with_key, find_job_by_idempotency_key, earlier, make_job, add_job, determine_initial_status,
  validate_and_resolve_sequence, enqueue_at, enqueue_unless, enqueue_single, status_behind,
}
use orderedjob.Memory.Bulk.{purge_at}
use orderedjob.Memory.Evolves.{Keeps, EvolvesBy, before_step}
use orderedjob.Memory.Index.{find_job-add, find_job-purge}

-- The job that a request makes at the sequence `q`.
abbrev pub new_job : Repo → EnqueueRequest → ℕ → ℕ → ℤ → Job
new_job r req id now q = make_job req id now q (determine_initial_status r req.chain_id q)

enqueue_at_cases :
    (P : Repo × Result Job → Type 0) (r : Repo) (req : EnqueueRequest) (id now : ℕ) (v : Result ℤ)
    → validate_and_resolve_sequence r req.chain_id req.sequence ≡ v
    → ((e : RepoError) → P (r, err e))
    → ((q : ℤ)
        → validate_and_resolve_sequence r req.chain_id req.sequence ≡ ok q
        → P (add_job r (new_job r req id now q), ok (new_job r req id now q)))
    → P (enqueue_at r req id now v)
enqueue_at_cases P r req id now (err e) p failed added = failed e
enqueue_at_cases P r req id now (ok q) p failed added = added q p

enqueue_unless_cases :
    (P : Repo × Result Job → Type 0) (r : Repo) (req : EnqueueRequest) (id now : ℕ) (o : Option Job)
    → earlier r req ≡ o
    → ((e : RepoError) → P (r, err e))
    → ((j : Job) → earlier r req ≡ some j → P (r, ok j))
    → ((q : ℤ)
        → earlier r req ≡ none
        → validate_and_resolve_sequence r req.chain_id req.sequence ≡ ok q
        → P (add_job r (new_job r req id now q), ok (new_job r req id now q)))
    → P (enqueue_unless r req id now o)
enqueue_unless_cases P r req id now (some j) p failed known added = known j p
enqueue_unless_cases P r req id now none p failed known added =
    enqueue_at_cases P r req id now _ refl failed (λ q v. added q p v)

-- An enqueue fails, finds the job of an earlier request, or adds a job.
pub enqueue_cases :
    (P : Repo × Result Job → Type 0) (r : Repo) (req : EnqueueRequest) (id now : ℕ)
    → ((e : RepoError) → P (r, err e))
    → ((j : Job) → earlier r req ≡ some j → P (r, ok j))
    → ((q : ℤ)
        → earlier r req ≡ none
        → validate_and_resolve_sequence r req.chain_id req.sequence ≡ ok q
        → P (add_job r (new_job r req id now q), ok (new_job r req id now q)))
    → P (enqueue_single r req id now)
unfolding enqueue_single
enqueue_cases P r req id now failed known added = elim (Bool-cases (is_empty req.chain_id)) [
  | inl b ↦ rw b (failed chain_id_required)
  | inr b ↦ rw b (enqueue_unless_cases P r req id now _ refl failed known added)
]

status_behind-idle : (r : Repo) (o : Option ℕ) → status_behind r o ≢ processing
status_behind-idle r none = λ h. cc
status_behind-idle r (some id) = ground arith

-- A job does not start to run when it is enqueued.
pub initial_status-idle :
    (r : Repo) (c : String) (q : ℤ) → determine_initial_status r c q ≢ processing
unfolding determine_initial_status
initial_status-idle r c q = ground (arith, status_behind-idle r (find_seq r c _))

-- Two jobs with the same key, not empty, are one job.
pub record HasUniqueKeys (r : Repo) : Type 0 where
  pub one :
      (i k : ℕ) (j l : Job)
      → find_job r i ≡ some j
      → find_job r k ≡ some l
      → j.idempotency_key ≢ ""
      → j.idempotency_key ≡ l.idempotency_key
      → i ≡ k

pub new-HasUniqueKeys : HasUniqueKeys new
unfolding new find_job lookup
new-HasUniqueKeys = record { one = λ i k j l e. cc }

pub kept-HasUniqueKeys : {r r' : Repo} → EvolvesBy Keeps r r' → HasUniqueKeys r → HasUniqueKeys r'
kept-HasUniqueKeys ev x = record {
  one = λ i k j l e f p q.
      let (j', e', a) = before_step Keeps _ _ j (ev.jobs_at i) e in
      let (l', f', b) = before_step Keeps _ _ l (ev.jobs_at k) f in
      x.one i k j' l' e' f' (λ h. p (a.same_key ∙ h)) (sym a.same_key ∙ q ∙ b.same_key);
}

pub purge-HasUniqueKeys :
    (r : Repo) (id : ℕ) (d : Job) → HasUniqueKeys r → HasUniqueKeys (purge_at r id d)
purge-HasUniqueKeys r id d x = record {
  one = λ i k j l e f p q.
      ground (arith, find_job-purge r id d i, find_job-purge r id d k, x.one i k j l);
}

with_key-none :
    (key : String) (l : List (ℕ × Job)) (id : ℕ) (j : Job)
    → with_key key l ≡ none
    → In (id, j) l
    → j.idempotency_key ≢ key
with_key-none key [] id j h m = absurd m
with_key-none key ((i, k) ∷ l) id j h (inl e) = ground arith
with_key-none key ((i, k) ∷ l) id j h (inr m) = with_key-none key l id j (ground arith) m

with_key-some :
    (key : String) (l : List (ℕ × Job)) (j : Job)
    → with_key key l ≡ some j
    → (id : ℕ) × In (id, j) l × (j.idempotency_key ≡ key)
with_key-some key [] j h = cc
with_key-some key ((i, k) ∷ l) j h = elim (here_or_later h) [
  | inl (e, p) ↦ (i, inl (cc), p)
  | inr h' ↦ let (id, m, p) = with_key-some key l j h' in (id, inr m, p)
]
  where
    here_or_later :
        with_key key ((i, k) ∷ l) ≡ some j
        → ((k ≡ j) × (j.idempotency_key ≡ key)) ⊎ (with_key key l ≡ some j)
    here_or_later h = ground arith

-- Where no earlier job is found, no stored job has the key of the request.
pub earlier-none :
    (r : Repo) (req : EnqueueRequest) (id : ℕ) (j : Job)
    → earlier r req ≡ none
    → req.idempotency_key ≢ ""
    → find_job r id ≡ some j
    → j.idempotency_key ≢ req.idempotency_key
unfolding earlier find_job_by_idempotency_key find_job is_empty
earlier-none r req id j h k f =
    with_key-none req.idempotency_key (range ℕ_discrete r.jobs) id j (ground arith)
      (get-range ℕ_discrete id j r.jobs f)

-- An earlier job that is found is stored, and has the key of the request.
pub earlier-some :
    (r : Repo) (req : EnqueueRequest) (j : Job)
    → earlier r req ≡ some j
    → (id : ℕ) × (find_job r id ≡ some j) × (j.idempotency_key ≡ req.idempotency_key)
unfolding earlier find_job_by_idempotency_key find_job
earlier-some r req j h =
    let (id, m, p) = with_key-some req.idempotency_key (range ℕ_discrete r.jobs) j (ground arith) in
    (id, range-get ℕ_discrete id j r.jobs m, p)

-- A new job keeps the keys unique if no stored job has its key.
pub add_job-HasUniqueKeys :
    (r : Repo) (n : Job)
    → HasUniqueKeys r
    → ((id : ℕ) (j : Job)
        → find_job r id ≡ some j
        → n.idempotency_key ≢ ""
        → j.idempotency_key ≢ n.idempotency_key)
    → HasUniqueKeys (add_job r n)
add_job-HasUniqueKeys r n x new_key = record {
  one = λ i k j l e f p q.
      ground
        (arith, find_job-add r n i, find_job-add r n k, x.one i k j l, new_key i j, new_key k l);
}

pub new_job-HasUniqueKeys :
    (r : Repo) (req : EnqueueRequest) (id now : ℕ) (q : ℤ)
    → HasUniqueKeys r
    → earlier r req ≡ none
    → HasUniqueKeys (add_job r (new_job r req id now q))
unfolding make_job
new_job-HasUniqueKeys r req id now q x e =
    add_job-HasUniqueKeys r _ x (λ i j f k. earlier-none r req i j e k f)
