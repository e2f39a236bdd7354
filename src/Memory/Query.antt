-- ===== src/Memory/Query.antt =====
-- repository/memory/repository.go: GetStats and ListPendingChains.
use orderedjob.Prelude.{
  ℕ, suc, String, Bool, true, ◌&&◌, ◌||◌, List, [], ◌∷◌, ℕ_discrete, text_discrete, if◌then◌else◌,
  ltb, length,
}
use orderedjob.GoMap.{GoMap, insert, keys, range}
use orderedjob.Lifecycle.{
  Status, pending, blocked, processing, completed, retrying, failed, dead_lettered,
  cancel_requested, cancelled, same,
}
use orderedjob.Job.{Job, Stats}
use orderedjob.Memory.State.{Repo}

-- the `switch` of GetStats
unfoldable pub count_status : Status → Stats → Stats
count_status pending s = record s { pending = suc s.pending }
count_status blocked s = record s { blocked = suc s.blocked }
count_status processing s = record s { processing = suc s.processing }
count_status completed s = record s { completed = suc s.completed }
count_status retrying s = record s { retrying = suc s.retrying }
count_status failed s = record s { failed = suc s.failed }
count_status dead_lettered s = record s { dead_lettered = suc s.dead_lettered }
count_status cancel_requested s = record s { cancel_requested = suc s.cancel_requested }
count_status cancelled s = record s { cancelled = suc s.cancelled }
count_status _ s = s

-- claimable by its state, and due later
unfoldable pub is_scheduled : Job → ℕ → Bool
is_scheduled j now = (same j.status pending || same j.status retrying) && ltb now j.available_at

unfoldable pub count_job : Job → ℕ → Stats → Stats
count_job j now s =
    count_status j.status
      (if is_scheduled j now then record s { scheduled = suc s.scheduled } else s)

unfoldable pub count_jobs : List (ℕ × Job) → ℕ → Stats → Stats
count_jobs [] now s = s
count_jobs ((id, j) ∷ rest) now s = count_jobs rest now (count_job j now s)

abbrev pub no_stats : ℕ → ℕ → Stats
no_stats total chains = record {
  pending = 0;
  blocked = 0;
  processing = 0;
  completed = 0;
  retrying = 0;
  failed = 0;
  dead_lettered = 0;
  cancel_requested = 0;
  cancelled = 0;
  scheduled = 0;
  total = total;
  active_chains = chains;
}

-- GetStats
unfoldable pub get_stats : Repo → ℕ → Stats
get_stats r now =
    count_jobs (range ℕ_discrete r.jobs) now (no_stats (length r.jobs) (length r.chain))

-- `set[j.ChainID] = true` for each PENDING job
unfoldable pub pending_set : List (ℕ × Job) → GoMap String Bool → GoMap String Bool
pending_set [] set = set
pending_set ((id, j) ∷ rest) set =
    pending_set rest
      (if same j.status pending then insert text_discrete j.chain_id true set else set)

-- ListPendingChains
unfoldable pub list_pending_chains : Repo → List String
list_pending_chains r = keys (pending_set (range ℕ_discrete r.jobs) [])
