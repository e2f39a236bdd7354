-- ===== src/Ui/Paging.antt =====
-- The pages of the dashboard on the repository in memory.
use orderedjob.Prelude.{
  ◌≡◌, ◌≢◌, refl, sym, subst, ℕ, zero, suc, ◌≤◌, ◌<◌, ◌+◌, ◌-◌, ◌*◌, ◌^◌, String, Bool, Option,
  none, some, List, arith,
}
use native.Mathlib.Nat.{mul-le-mul_left}
use orderedjob.Int64.{ℤ, pos, negsuc}
use orderedjob.Job.{Job, JobFilter, ChainSummary, Result, ok}
use orderedjob.Memory.State.{Repo, get_job}
use orderedjob.Memory.Enqueue.{enqueue}
use orderedjob.Memory.Admin.{
  replay_job, replay_job_with_payload, skip_job, request_cancel, reschedule_job,
}
use orderedjob.Memory.Bulk.{TextOps, bulk_replay_dlq, bulk_skip_dlq, bulk_purge_dlq}
use orderedjob.Memory.Query.{get_stats}
use orderedjob.Memory.Listing.{page, list_jobs, list_chains}
use orderedjob.Ui.{Method, get, post, other_method, Query, Request, Repository, of_jobs}
use orderedjob.Ui.Handlers.{
  Settings, wrap64, page_of, limit_of, offset_of, job_filter, handle_jobs, answer_page, get_only,
}

abbrev pub paged : {A : Type 0} → Option (List A) × ℕ → Option (Result (List A × ℕ))
paged (none, total) = none
paged (some items, total) = some (ok (items, total))

abbrev pub counted : Repo × ℕ → Repo × Result ℕ
counted (r, n) = (r, ok n)

-- The repository in memory behind the dashboard, at the time `now` and with the next id.
unfoldable pub memory_repo :
    TextOps
    → ((Job → Job → Bool) → List Job → List Job)
    → ((ChainSummary → ChainSummary → Bool) → List ChainSummary → List ChainSummary)
    → (String → String → Bool)
    → ℕ
    → ℕ
    → Repository Repo
memory_repo ops arrange arrange_chains equal_fold id now = record {
  get_stats = λ r. ok (get_stats r now);
  list_jobs = λ r f. paged (list_jobs ops arrange equal_fold r f now);
  list_chains = λ r f. paged (list_chains ops arrange_chains equal_fold r f);
  get_job = λ r i. get_job r i;
  enqueue = λ r req. enqueue r req id now;
  replay_job = λ r i. replay_job r i now;
  replay_job_with_payload = λ r i payload. replay_job_with_payload r i payload now;
  skip_job = λ r i. skip_job r i now;
  request_cancel = λ r i. request_cancel r i now;
  reschedule_job = λ r i at. reschedule_job r i at now;
  bulk_replay_dlq = λ r f. counted (bulk_replay_dlq ops r f now);
  bulk_skip_dlq = λ r f. counted (bulk_skip_dlq ops r f now);
  bulk_purge_dlq = λ r f. counted (bulk_purge_dlq ops r f);
}

limit_of-bounds : (x : ℤ) → (1 ≤ limit_of x) × (limit_of x ≤ 200)
unfolding limit_of
limit_of-bounds (pos n) = (ground arith, ground arith)
limit_of-bounds (negsuc n) = (ground arith, ground arith)

page_of-positive : (x : ℤ) → 1 ≤ page_of x
unfolding page_of
page_of-positive (pos zero) = omega arith
page_of-positive (pos (suc n)) = omega arith
page_of-positive (negsuc n) = omega arith

wrap64-small : (n : ℕ) → n < 2 ^ 63 → wrap64 n ≡ pos n
unfolding wrap64
wrap64-small n h = ground arith

-- The wrap-around does not bite: the product is less than 200 times the page.
offset-exact :
    (q : Query)
    → page_of q.page * 200 < 2 ^ 63
    → (offset_of q ≡ pos ((page_of q.page - 1) * limit_of q.limit))
      × ((page_of q.page - 1) * limit_of q.limit + limit_of q.limit < 2 ^ 63)
unfolding offset_of
offset-exact q h =
    let (_, small) = limit_of-bounds q.limit in
    within (page_of q.page * 200)
      (product-bound (page_of q.page) (limit_of q.limit) (page_of-positive q.page) small) h
  where
    within :
        (n : ℕ)
        → (page_of q.page - 1) * limit_of q.limit + limit_of q.limit ≤ n
        → n < 2 ^ 63
        → (offset_of q ≡ pos ((page_of q.page - 1) * limit_of q.limit))
          × ((page_of q.page - 1) * limit_of q.limit + limit_of q.limit < 2 ^ 63)
    within n below k =
        (wrap64-small ((page_of q.page - 1) * limit_of q.limit) (ground arith), ground arith)

    product-bound : (p l : ℕ) → 1 ≤ p → l ≤ 200 → (p - 1) * l + l ≤ p * 200
    product-bound zero l k m = absurd (omega arith)
    product-bound (suc p) l k m = ground (arith, mul-le-mul_left (suc p) m)

page-total : {A : Type 0} (o l : ℕ) (xs : List A) → o + l < 2 ^ 63 → page (pos o) (pos l) xs ≢ none
unfolding page
page-total o zero xs h = ground arith
page-total o (suc l) xs h = ground arith

module _ (ops : TextOps) (arrange : (Job → Job → Bool) → List Job → List Job)
    (arrange_chains : (ChainSummary → ChainSummary → Bool) → List ChainSummary → List ChainSummary)
    (equal_fold : String → String → Bool) (opts : Settings Repo) (id now : ℕ) where
  -- While 200 times the page is less than 2^63, GET /api/jobs on the repository in memory asks for
  -- the offset (page - 1) * limit, with a limit from 1 to 200, and does not panic.
  pub handle_jobs-answers :
      (r : Request) (s : Repo)
      → page_of (Query.page r.query) * 200 < 2 ^ 63
      → (JobFilter.offset (job_filter r.query)
          ≡ pos ((page_of (Query.page r.query) - 1) * limit_of (Query.limit r.query)))
        × (1 ≤ limit_of (Query.limit r.query))
        × (limit_of (Query.limit r.query) ≤ 200)
        × ((handle_jobs (memory_repo ops arrange arrange_chains equal_fold id now) opts r s).1
            ≢ none)
  unfolding handle_jobs memory_repo job_filter list_jobs
  handle_jobs-answers r s h =
      let (e, k) = offset-exact r.query h in
      let (low, high) = limit_of-bounds (Query.limit r.query) in
      (e, low, high, on r.method _ _ (shown _ e k))
    where
      shown :
          (xs : List Job) {o : ℤ}
          → o ≡ pos ((page_of (Query.page r.query) - 1) * limit_of (Query.limit r.query))
          → (page_of (Query.page r.query) - 1) * limit_of (Query.limit r.query)
              + limit_of (Query.limit r.query)
            < 2 ^ 63
          → page o (pos (limit_of (Query.limit r.query))) xs ≢ none
      shown xs {o} e k =
          subst (λ x. page x (pos (limit_of (Query.limit r.query))) xs ≢ none) (sym e)
            (page-total _ _ xs k)

      answered :
          (o : Option (List Job)) (n : ℕ)
          → o ≢ none
          → answer_page of_jobs r.query (paged (o, n)) ≢ none
      answered none n h = absurd (h refl)
      answered (some xs) n h = λ k. ground arith

      on :
          (m : Method) (o : Option (List Job)) (n : ℕ)
          → o ≢ none
          → get_only
              (memory_repo ops arrange arrange_chains equal_fold id now)
              opts
              (answer_page of_jobs r.query (paged (o, n)))
              m
            ≢ none
      on get o n k = answered o n k
      on post o n k = λ e. ground arith
      on other_method o n k = λ e. ground arith
