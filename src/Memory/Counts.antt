-- ===== src/Memory/Counts.antt =====
-- The figures of GetStats of repository/memory/repository.go.
use orderedjob.Prelude.{
  ℕ, ◌+◌, ◌≤◌, ◌≡◌, ◌≢◌, refl, ◌∙◌, some, arith, List, [], ◌∷◌, In, inl, inr, ℕ_discrete, length,
  Bool-cases,
}
use orderedjob.GoMap.{range, range-get, length-range}
use orderedjob.Lifecycle.{Status, unset, pending, timed_out, expired}
use orderedjob.Job.{Job, Stats}
use orderedjob.Memory.State.{Repo, find_job}
use orderedjob.Memory.Query.{count_status, is_scheduled, count_job, count_jobs, no_stats, get_stats}

-- The sum of the nine figures by state.
abbrev pub by_state : Stats → ℕ
by_state s =
    s.pending + s.blocked + s.processing + s.completed + s.retrying + s.failed + s.dead_lettered
    + s.cancel_requested + s.cancelled

-- A state that the switch counts.
abbrev pub IsCounted : Job → Type 0
IsCounted j = (j.status ≢ unset) × (j.status ≢ timed_out) × (j.status ≢ expired)

-- What each job does to the figures, the state and the due time settled.
count_status-by_state :
    (t : Status) (s : Stats)
    → t ≢ unset
    → t ≢ timed_out
    → t ≢ expired
    → by_state (count_status t s) ≡ by_state s + 1
unfolding count_status
count_status-by_state unset s a b c = absurd (a refl)
count_status-by_state timed_out s a b c = absurd (b refl)
count_status-by_state expired s a b c = absurd (c refl)
count_status-by_state _ s a b c = omega arith

count_job-by_state :
    (j : Job) (now : ℕ) (s : Stats) → IsCounted j → by_state (count_job j now s) ≡ by_state s + 1
unfolding count_job
count_job-by_state j now s (a, b, c) = elim (Bool-cases (is_scheduled j now)) [
  | inl h ↦ rw h (count_status-by_state j.status _ a b c)
  | inr h ↦ rw h (count_status-by_state j.status s a b c)
]

count_jobs-by_state :
    (l : List (ℕ × Job)) (now : ℕ) (s : Stats)
    → ((id : ℕ) (j : Job) → In (id, j) l → IsCounted j)
    → by_state (count_jobs l now s) ≡ by_state s + length l
unfolding count_jobs
count_jobs-by_state [] now s h = omega arith
count_jobs-by_state ((id, j) ∷ l) now s h = omega (
  arith,
  count_jobs-by_state l now (count_job j now s) (λ i k m. h i k (inr m)),
  count_job-by_state j now s (h id j (inl refl)),
)

count_status-rest :
    (t : Status) (s : Stats)
    → ((count_status t s).total ≡ s.total)
      × ((count_status t s).scheduled ≡ s.scheduled)
      × (s.pending + s.retrying ≤ (count_status t s).pending + (count_status t s).retrying)
unfolding count_status
count_status-rest pending s = (refl, refl, omega arith)
count_status-rest _ s = (refl, refl, omega arith)

count_job-rest :
    (j : Job) (now : ℕ) (s : Stats)
    → s.scheduled ≤ s.pending + s.retrying
    → ((count_job j now s).total ≡ s.total)
      × ((count_job j now s).scheduled ≤ (count_job j now s).pending + (count_job j now s).retrying)
unfolding count_job is_scheduled count_status
count_job-rest j now s h = ground arith

count_jobs-rest :
    (l : List (ℕ × Job)) (now : ℕ) (s : Stats)
    → s.scheduled ≤ s.pending + s.retrying
    → ((count_jobs l now s).total ≡ s.total)
      × ((count_jobs l now s).scheduled
          ≤ (count_jobs l now s).pending + (count_jobs l now s).retrying)
unfolding count_jobs
count_jobs-rest [] now s h = (refl, h)
count_jobs-rest ((id, j) ∷ l) now s h =
    let (t, k) = count_job-rest j now s h in
    let (u, m) = count_jobs-rest l now (count_job j now s) k in (u ∙ t, m)

-- Where each stored job has a state that the switch knows, the nine figures add up to the total,
-- which is the number of entries of the map; and never more jobs are scheduled than are PENDING or
-- RETRYING.
pub get_stats_partition :
    (r : Repo) (now : ℕ)
    → ((id : ℕ) (j : Job) → find_job r id ≡ some j → IsCounted j)
    → (by_state (get_stats r now) ≡ (get_stats r now).total)
      × ((get_stats r now).total ≡ length r.jobs)
      × ((get_stats r now).scheduled ≤ (get_stats r now).pending + (get_stats r now).retrying)
unfolding get_stats find_job
get_stats_partition r now h =
    let zero_stats : Stats = no_stats (length r.jobs) (length r.chain) in
    let (t, m) = count_jobs-rest (range ℕ_discrete r.jobs) now zero_stats (omega arith) in
    let sum : by_state (count_jobs (range ℕ_discrete r.jobs) now zero_stats)
        ≡ 0 + length (range ℕ_discrete r.jobs) =
      count_jobs-by_state (range ℕ_discrete r.jobs) now zero_stats
        (λ id j k. h id j (range-get ℕ_discrete id j r.jobs k)) in
    (omega (arith, sum, t, length-range ℕ_discrete r.jobs), t, m)
