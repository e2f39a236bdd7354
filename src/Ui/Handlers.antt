-- ===== src/Ui/Handlers.antt =====
-- ui/ui.go: the handlers of the REST API, and the main handler behind the middlewares. Of the files
-- and the stream of events nothing is modelled.
use orderedjob.Prelude.{
  ℕ, zero, suc, String, Bool, true, false, ◌||◌, ◌+◌, ◌-◌, ◌*◌, ◌/◌, ◌%◌, ◌^◌, ltb, leb, Option,
  none, some, List, [], ◌∷◌, ite, if◌then◌else◌, text_discrete,
}
use orderedjob.Int64.{ℤ, pos, negsuc, max_mag}
use orderedjob.Lifecycle.{Status, unset}
use orderedjob.Job.{JobFilter, ChainFilter, EnqueueRequest, Result, ok, err, is_empty}
use orderedjob.Ui.{
  Method, get, post, StatusParam, all_scheduled, in_state, Query, Request, Reply, plain, refused,
  failed, type_names, of_stats, of_job, of_jobs, of_chains, done, moved, affected, Response,
  Handler, Repository,
}
use orderedjob.Ui.Auth.{HeaderOps, AuthOption, with_guards, around}

-- the paths of the mux
pub data Route : Type 0 where
  stats_route jobs_route job_route chains_route enqueue_route types_route : Route
  bulk_replay_route bulk_skip_route bulk_purge_route : Route

-- Options
pub record Settings (S : Type 0) : Type 0 where
  pub read_only : Bool
  pub job_types : Option (List String)
  pub guards : List (AuthOption S)

-- The wrap-around of an int64 that is not negative.
unfoldable pub wrap64 : ℕ → ℤ
wrap64 n = let m = n % 2 ^ 64 in if leb m max_mag then pos m else negsuc (2 ^ 64 - 1 - m)

-- `page < 1`, and `limit < 1 || limit > 200`
unfoldable pub page_of : ℤ → ℕ
page_of (pos zero) = 1
page_of (pos (suc n)) = suc n
page_of (negsuc n) = 1

unfoldable pub limit_of : ℤ → ℕ
limit_of (pos n) = if ltb n 1 || ltb 200 n then 20 else n
limit_of (negsuc n) = 20

-- (page - 1) * limit
unfoldable pub offset_of : Query → ℤ
offset_of q = wrap64 ((page_of q.page - 1) * limit_of q.limit)

-- totalPages
unfoldable pub total_pages : ℕ → ℕ → ℕ
total_pages total limit =
    let pages = (total + limit - 1) / limit in if ltb pages 1 then 1 else pages

abbrev pub status_of : StatusParam → Status
status_of all_scheduled = unset
status_of (in_state s) = s

abbrev pub asks_scheduled : StatusParam → Bool
asks_scheduled all_scheduled = true
asks_scheduled (in_state s) = false

-- the filter of handleJobs
unfoldable pub job_filter : Query → JobFilter
job_filter q = record {
  chain_id = q.chain_id;
  status = status_of q.status;
  job_type = q.job_type;
  tenant_id = q.tenant_id;
  trace_id = q.trace_id;
  search = q.search;
  order_by = q.order_by;
  order_dir = q.order_dir;
  offset = offset_of q;
  limit = pos (limit_of q.limit);
  scheduled_only = q.scheduled_only || asks_scheduled q.status;
}

-- the filter of handleChains
unfoldable pub chain_filter : Query → ChainFilter
chain_filter q = record {
  search = q.search;
  order_by = q.order_by;
  order_dir = q.order_dir;
  offset = offset_of q;
  limit = pos (limit_of q.limit);
}

abbrev pub not_allowed : Response
not_allowed = (405, plain "Method Not Allowed")

abbrev pub only_reads : Response
only_reads = (403, refused "Dashboard is in read-only mode")

-- A result as a response: 200, or the code of the error.
abbrev pub answer : {A : Type 0} → ℕ → (A → Reply) → Result A → Response
answer code f (ok a) = (200, f a)
answer code f (err e) = (code, failed e)

abbrev pub answer_page :
    {A : Type 0}
    → (List A → ℕ → ℤ → ℤ → ℕ → Reply)
    → Query
    → Option (Result (List A × ℕ))
    → Option Response
answer_page f q none = none
answer_page f q (some (err e)) = some (500, failed e)
answer_page f q (some (ok (items, total))) = some (
  200,
  f items total (pos (page_of q.page)) (pos (limit_of q.limit))
      (total_pages total (limit_of q.limit)),
)

module _ {S : Type 0} (repo : Repository S) (opts : Settings S) where
  abbrev pub get_only : Option Response → Method → Option Response
  get_only c get = c
  get_only c _ = some not_allowed

  -- a handler that only takes GET
  abbrev pub on_get : (Request → S → Option Response) → Handler S
  on_get h r s = (s, get_only (h r s) r.method)

  abbrev pub post_only : S × Option Response → S → Method → S × Option Response
  post_only c s post = if opts.read_only then (s, some only_reads) else c
  post_only c s _ = (s, some not_allowed)

  -- a handler that only takes POST, and nothing in the read-only mode
  abbrev pub on_post : Handler S → Handler S
  on_post h r s = post_only (h r s) s r.method

  abbrev pub types_or_none : Option (List String) → List String
  types_or_none none = []
  types_or_none (some types) = types

  -- handleJobTypes
  unfoldable pub handle_job_types : Handler S
  handle_job_types = on_get λ r s. some (200, type_names (types_or_none opts.job_types))

  -- handleStats
  unfoldable pub handle_stats : Handler S
  handle_stats = on_get λ r s. some (answer 500 of_stats (repo.get_stats s))

  -- handleJobs
  unfoldable pub handle_jobs : Handler S
  handle_jobs = on_get λ r s. answer_page of_jobs r.query (repo.list_jobs s (job_filter r.query))

  -- handleChains
  unfoldable pub handle_chains : Handler S
  handle_chains =
      on_get λ r s. answer_page of_chains r.query (repo.list_chains s (chain_filter r.query))

  abbrev pub answered : {A : Type 0} → (A → Reply) → S × Result A → S × Option Response
  answered f (s, result) = (s, some (answer 500 f result))

  abbrev pub enqueue_decoded : S → Option EnqueueRequest → S × Option Response
  enqueue_decoded s none = (s, some (400, refused "Invalid request body"))
  enqueue_decoded s (some req) = answered of_job (repo.enqueue s req)

  -- handleEnqueue
  unfoldable pub handle_enqueue : Handler S
  handle_enqueue = on_post λ r s. enqueue_decoded s r.body.job

  abbrev pub replay_decoded : S → ℕ → Option String → S × Result (Unit {0})
  replay_decoded s id none = repo.replay_job s id
  replay_decoded s id (some payload) =
      if is_empty payload then repo.replay_job s id else repo.replay_job_with_payload s id payload

  abbrev pub reschedule_decoded : S → ℕ → Option ℕ → S × Option Response
  reschedule_decoded s id none =
      (s, some (400, refused "invalid or missing available_at timestamp"))
  reschedule_decoded s id (some at) = answered (moved id) (repo.reschedule_job s id at)

  -- the `switch` on the action
  unfoldable pub job_action : ℕ → String → Handler S
  job_action id action r s =
      if ite (text_discrete action "replay") true false
      then answered (λ _. done id action) (replay_decoded s id r.body.payload)
      else if ite (text_discrete action "skip") true false
      then answered (λ _. done id action) (repo.skip_job s id)
      else if ite (text_discrete action "cancel") true false
      then answered (λ _. done id action) (repo.request_cancel s id)
      else if ite (text_discrete action "reschedule") true false
      then reschedule_decoded s id r.body.available_at
      else (s, some (400, plain "Unknown Action"))

  -- the rest of handleJobDetailOrAction behind the id, by the parts of the path
  abbrev pub job_parts : ℕ → List String → Handler S
  job_parts id [] = on_get λ r s. some (answer 404 of_job (repo.get_job s id))
  job_parts id (action ∷ _) = on_post (job_action id action)

  abbrev pub job_with_id : Option ℕ → List String → Handler S
  job_with_id none rest r s = (s, some (400, plain "Invalid Job UUID"))
  job_with_id (some id) rest r s = job_parts id rest r s

  abbrev pub job_path : (String → Option ℕ) → List String → Handler S
  job_path parse_id [] r s = (s, some (400, plain "Job ID required"))
  job_path parse_id (part ∷ rest) r s =
      if is_empty part
      then (s, some (400, plain "Job ID required"))
      else job_with_id (parse_id part) rest r s

  -- handleJobDetailOrAction; `parse_id` is uuid.Parse.
  unfoldable pub handle_job : (String → Option ℕ) → Handler S
  handle_job parse_id r s = job_path parse_id r.parts r s

  -- handleBulkReplayDLQ
  unfoldable pub handle_bulk_replay : Handler S
  handle_bulk_replay = on_post λ r s. answered affected (repo.bulk_replay_dlq s r.body.filter)

  -- handleBulkSkipDLQ
  unfoldable pub handle_bulk_skip : Handler S
  handle_bulk_skip = on_post λ r s. answered affected (repo.bulk_skip_dlq s r.body.filter)

  -- handleBulkPurgeDLQ
  unfoldable pub handle_bulk_purge : Handler S
  handle_bulk_purge = on_post λ r s. answered affected (repo.bulk_purge_dlq s r.body.filter)

  -- the mux
  unfoldable pub route : (String → Option ℕ) → Route → Handler S
  route parse_id stats_route = handle_stats
  route parse_id jobs_route = handle_jobs
  route parse_id job_route = handle_job parse_id
  route parse_id chains_route = handle_chains
  route parse_id enqueue_route = handle_enqueue
  route parse_id types_route = handle_job_types
  route parse_id bulk_replay_route = handle_bulk_replay
  route parse_id bulk_skip_route = handle_bulk_skip
  route parse_id bulk_purge_route = handle_bulk_purge

  -- NewHandler: the mux behind the middlewares of the options.
  unfoldable pub serve :
      HeaderOps → (String → String → Bool) → (String → Option ℕ) → Route → Handler S
  serve ops verify parse_id path =
      around (with_guards ops verify none opts.guards) (route parse_id path)
