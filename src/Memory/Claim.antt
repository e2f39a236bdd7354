-- ===== src/Memory/Claim.antt =====
-- repository/memory/repository.go: Claim. `sort.Slice` leaves the order of equal jobs open; here
-- they keep the order of the map.
use orderedjob.Prelude.{
  ℕ, String, Bool, false, true, ◌&&◌, ◌||◌, ◌+◌, ite, Option, none, some, List, [], ◌∷◌, ℕ_discrete,
  text_discrete, if◌then◌else◌, ltb, leb, ◌==◌,
}
use orderedjob.Int64.{pos, inc64, dec64, ℤ_discrete}
use orderedjob.GoMap.{range}
use orderedjob.Lifecycle.{pending, retrying, processing, same}
use orderedjob.Job.{Job, Result, ok, err, not_found}
use orderedjob.Memory.State.{Repo, find_job, find_seq, put_job, is_finished}

-- pred, ok := r.jobs[predID]
abbrev pub finished_if_any : Option Job → Bool
finished_if_any none = false
finished_if_any (some pred) = is_finished pred

abbrev pub finished_at : Repo → Option ℕ → Bool
finished_at r none = false
finished_at r (some id) = finished_if_any (find_job r id)

-- The predecessor stands in the chain and is finished; sequence 1 has none.
unfoldable pub predecessor_finished : Repo → Job → Bool
predecessor_finished r j =
    ite (ℤ_discrete j.sequence (pos 1)) true
      (finished_at r (find_seq r j.chain_id (dec64 j.sequence)))

unfoldable pub is_candidate : Repo → ℕ → Job → Bool
is_candidate r now j =
    ((same j.status pending || same j.status retrying) && leb j.available_at now)
    && predecessor_finished r j

-- the first loop of Claim
unfoldable pub candidates_in : Repo → ℕ → List (ℕ × Job) → List Job
candidates_in r now [] = []
candidates_in r now ((id, j) ∷ rest) =
    let others = candidates_in r now rest in if is_candidate r now j then j ∷ others else others

-- the `less` of the sort: by AvailableAt, then by CreatedAt
unfoldable pub before : Job → Job → Bool
before a b =
    if a.available_at == b.available_at
    then ltb a.created_at b.created_at
    else ltb a.available_at b.available_at

unfoldable pub insert_sorted : Job → List Job → List Job
insert_sorted j [] = j ∷ []
insert_sorted j (k ∷ ks) =
    let rest = insert_sorted j ks in if before k j then k ∷ rest else j ∷ k ∷ ks

unfoldable pub sort_jobs : List Job → List Job
sort_jobs [] = []
sort_jobs (j ∷ js) = insert_sorted j (sort_jobs js)

abbrev pub busy_in : String → List (ℕ × Job) → Bool
busy_in chain [] = false
busy_in chain ((id, j) ∷ rest) =
    ite (text_discrete j.chain_id chain) (same j.status processing) false || busy_in chain rest

-- some job of the chain is PROCESSING
unfoldable pub is_busy : Repo → String → Bool
is_busy r chain = busy_in chain (range ℕ_discrete r.jobs)

-- the loop over `cands[1:]`
unfoldable pub next_free : Repo → List Job → Option Job
next_free r [] = none
next_free r (j ∷ js) = if is_busy r j.chain_id then next_free r js else some j

unfoldable pub choose : Repo → List Job → Option Job
unfolding next_free
choose r [] = none
choose r (j ∷ js) = if is_busy r j.chain_id then next_free r js else some j

unfoldable pub candidates : Repo → ℕ → List Job
candidates r now = sort_jobs (candidates_in r now (range ℕ_discrete r.jobs))

abbrev pub or_now : Option ℕ → ℕ → Option ℕ
or_now none now = some now
or_now (some t) now = some t

-- The claimed job, leased to the worker.
unfoldable pub start_job : Job → String → ℕ → ℕ → Job
start_job j worker lease now = record j {
  status = processing;
  worker_id = worker;
  lease_generation = inc64 j.lease_generation;
  lease_until = some (now + lease);
  attempt = inc64 j.attempt;
  started_at = or_now j.started_at now;
  updated_at = now;
}

abbrev pub claim_chosen : Repo → String → ℕ → ℕ → Option Job → Repo × Result Job
claim_chosen r worker lease now none = (r, err not_found)
claim_chosen r worker lease now (some j) =
    let j' = start_job j worker lease now in (put_job r j.id j', ok j')

unfoldable pub claim : Repo → String → ℕ → ℕ → Repo × Result Job
claim r worker lease now = claim_chosen r worker lease now (choose r (candidates r now))
