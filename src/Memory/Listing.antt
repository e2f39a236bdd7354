-- ===== src/Memory/Listing.antt =====
-- repository/memory/repository.go: ListJobs and ListChains. `sort.Slice`, with a `less` that need
-- not be a strict order, is a parameter, as are the text operations; texts are compared by bytes.
pub mod Window
use Prim.Native.Nat.{Ordering, lt, eq, gt}
use Prim.Native.String.{compare}
use orderedjob.Prelude.{
  ℕ, suc, zero, String, Bool, true, false, ◌&&◌, ◌||◌, not, ite, Option, none, some, List, [], ◌∷◌,
  ◌+◌, ◌^◌, ltb, leb, length, ℕ_discrete, text_discrete, if◌then◌else◌,
}
use orderedjob.Int64.{ℤ, pos, negsuc, lt64, ℤ_discrete}
use orderedjob.GoMap.{GoMap, get, range}
use orderedjob.Lifecycle.{
  Status, Status-discrete, unset, blocked, pending, processing, retrying, completed, failed,
  cancel_requested, cancelled, timed_out, expired, dead_lettered, same,
}
use orderedjob.Job.{Job, JobFilter, ChainFilter, ChainSummary, is_empty}
use orderedjob.Memory.State.{Repo, find_job, or_zero}
use orderedjob.Memory.Bulk.{TextOps, passes}
use orderedjob.Memory.Query.{is_scheduled}

unfoldable pub take : {A : Type 0} → ℕ → List A → List A
take zero xs = []
take (suc n) [] = []
take (suc n) (x ∷ xs) = x ∷ take n xs

unfoldable pub drop : {A : Type 0} → ℕ → List A → List A
drop zero xs = xs
drop (suc n) [] = []
drop (suc n) (x ∷ xs) = drop n xs

-- matched[offset:end] of both methods, `none` where the slice expression panics: a negative offset,
-- or an end that wraps around.
unfoldable pub page : {A : Type 0} → ℤ → ℤ → List A → Option (List A)
page (negsuc o) limit xs = none
page (pos o) (negsuc l) xs = if leb (length xs) o then some [] else some (drop o xs)
page (pos o) (pos zero) xs = if leb (length xs) o then some [] else some (drop o xs)
page (pos o) (pos (suc l)) xs =
    if leb (length xs) o
    then some []
    else if leb (2 ^ 63) (o + suc l)
    then none
    else some (take (suc l) (drop o xs))

-- the texts of the states
unfoldable pub status_text : Status → String
status_text unset = ""
status_text blocked = "BLOCKED"
status_text pending = "PENDING"
status_text processing = "PROCESSING"
status_text retrying = "RETRYING"
status_text completed = "COMPLETED"
status_text failed = "FAILED"
status_text cancel_requested = "CANCEL_REQUESTED"
status_text cancelled = "CANCELLED"
status_text timed_out = "TIMED_OUT"
status_text expired = "EXPIRED"
status_text dead_lettered = "DEAD_LETTERED"

-- `<` on texts
unfoldable pub text_ltb : String → String → Bool
text_ltb s t = elim (compare s t) [ lt ↦ true | eq ↦ false | gt ↦ false ]

-- the `switch` on OrderBy in ListJobs
unfoldable pub job_less : String → Job → Job → Bool
job_less by a b =
    if ite (text_discrete by "sequence") true false
    then lt64 a.sequence b.sequence
    else if ite (text_discrete by "job_type") true false
    then text_ltb a.job_type b.job_type
    else if ite (text_discrete by "status") true false
    then text_ltb (status_text a.status) (status_text b.status)
    else if ite (text_discrete by "available_at") true false
    then ltb a.available_at b.available_at
    else ltb a.created_at b.created_at

-- the `switch` on OrderBy in ListChains
unfoldable pub chain_less : String → ChainSummary → ChainSummary → Bool
chain_less by a b =
    if ite (text_discrete by "total_jobs") true false
    then ltb a.total_jobs b.total_jobs
    else if ite (text_discrete by "max_sequence") true false
    then lt64 a.max_sequence b.max_sequence
    else if ite (text_discrete by "pending_jobs") true false
    then ltb a.pending_jobs b.pending_jobs
    else if ite (text_discrete by "failed_jobs") true false
    then ltb a.failed_jobs b.failed_jobs
    else text_ltb a.chain_id b.chain_id

-- `return less` or `return !less`
abbrev pub directed : {A : Type 0} → Bool → (A → A → Bool) → A → A → Bool
directed ascending less a b = if ascending then less a b else not (less a b)

abbrev pub as_status : Status → Status → Bool
as_status wanted actual = same wanted unset || same actual wanted

unfoldable pub select_jobs : (Job → Bool) → List (ℕ × Job) → List Job
select_jobs test [] = []
select_jobs test ((id, j) ∷ rest) = let js = select_jobs test rest in if test j then j ∷ js else js

-- one entry of a chain, in the loop of ListChains: the summary, and the status of the latest job
unfoldable pub count_chain : Repo → List (ℤ × ℕ) → ChainSummary → ChainSummary
count_chain r [] cs = cs
count_chain r ((seq, id) ∷ rest) cs =
    let j = or_zero (find_job r id) in
    let newest = lt64 cs.max_sequence seq in
    let waits = same j.status pending || (same j.status processing || same j.status retrying) in
    let dead = same j.status failed || same j.status dead_lettered in
    count_chain r rest (record cs {
      max_sequence = if newest then seq else cs.max_sequence;
      latest_status = if newest then j.status else cs.latest_status;
      pending_jobs = if waits then suc cs.pending_jobs else cs.pending_jobs;
      failed_jobs = if dead then suc cs.failed_jobs else cs.failed_jobs;
    })

unfoldable pub summary : Repo → String → GoMap ℤ ℕ → ChainSummary
summary r chain m = count_chain r (range ℤ_discrete m) (record {
  chain_id = chain;
  total_jobs = length m;
  max_sequence = pos 0;
  pending_jobs = 0;
  failed_jobs = 0;
  latest_status = unset;
})

module _ (ops : TextOps) where
  -- the tests of ListJobs
  unfoldable pub matches_filter : JobFilter → ℕ → Job → Bool
  matches_filter f now j =
      let search = ops.to_lower f.search in
      (not f.scheduled_only || is_scheduled j now)
      && (passes f.chain_id j.chain_id
          && (as_status f.status j.status
              && (passes f.job_type j.job_type
                  && (passes f.tenant_id j.tenant_id
                      && (passes f.trace_id j.trace_id
                          && (is_empty search
                              || (ops.contains (ops.to_lower (ops.show_id j.id)) search
                                  || (ops.contains (ops.to_lower j.idempotency_key) search
                                      || ops.contains (ops.to_lower j.trace_id) search))))))))

  unfoldable pub summaries : Repo → String → List (String × GoMap ℤ ℕ) → List ChainSummary
  summaries r search [] = []
  summaries r search ((chain, m) ∷ rest) =
      let cs = summaries r search rest in
      if is_empty search || ops.contains (ops.to_lower chain) search
      then summary r chain m ∷ cs
      else cs

  -- ListJobs: the page, if the slice expression does not panic, and the total.
  unfoldable pub list_jobs :
      ((Job → Job → Bool) → List Job → List Job)
      → (String → String → Bool)
      → Repo
      → JobFilter
      → ℕ
      → Option (List Job) × ℕ
  list_jobs arrange equal_fold r f now =
      let matched = select_jobs (matches_filter f now) (range ℕ_discrete r.jobs) in
      (
        page f.offset f.limit (
            arrange (directed (equal_fold f.order_dir "ASC") (job_less (ops.to_lower f.order_by)))
              matched),
        length matched,
      )

  -- ListChains
  unfoldable pub list_chains :
      ((ChainSummary → ChainSummary → Bool) → List ChainSummary → List ChainSummary)
      → (String → String → Bool)
      → Repo
      → ChainFilter
      → Option (List ChainSummary) × ℕ
  list_chains arrange equal_fold r f =
      let found = summaries r (ops.to_lower f.search) (range text_discrete r.chain) in
      (
        page f.offset f.limit (
            arrange
              (directed (is_empty f.order_dir || equal_fold f.order_dir "ASC")
                (chain_less (ops.to_lower f.order_by)))
              found),
        length found,
      )
