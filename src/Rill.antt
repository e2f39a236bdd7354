-- ===== src/Rill.antt =====
-- rill_helpers.go: BatchEnqueueParallel over the engine, and AggregateChainStats. rill.ForEach is a
-- parameter, and so is what is seen of a payload: whether it is nil, and the error of json.Marshal.
pub mod Slots
pub mod Validation
pub mod Parallel
use orderedjob.Prelude.{
  ℕ, zero, suc, String, Bool, true, ite, Option, none, some, List, [], ◌∷◌, text_discrete, ◌⊎◌, inl,
  inr, map, if◌then◌else◌,
}
use orderedjob.Int64.{ℤ, pos, inc64, ℤ_discrete}
use orderedjob.GoMap.{GoMap, get, insert}
use orderedjob.Job.{Job, EnqueueRequest, Result, no_mode, is_empty}
use orderedjob.Memory.State.{Repo}
use orderedjob.Engine.{Engine, engine_enqueue_batch}

pub record IndexedReq : Type 0 where
  pub idx : ℕ
  pub req : EnqueueRequest

-- The errors of the validation, with the index in the text.
pub data Invalid : Type 0 where
  no_chain no_type : ℕ → Invalid
  bad_payload : ℕ → String → Invalid

pub record Payloads : Type 0 where
  pub is_nil : EnqueueRequest → Bool
  pub marshal : EnqueueRequest → Option String

-- validated[i] = v
unfoldable pub set_at : ℕ → EnqueueRequest → List EnqueueRequest → List EnqueueRequest
set_at i v [] = []
set_at zero v (x ∷ xs) = v ∷ xs
set_at (suc i) v (x ∷ xs) = x ∷ set_at i v xs

-- The default of five attempts.
unfoldable pub with_attempts : EnqueueRequest → EnqueueRequest
with_attempts req =
    ite (ℤ_discrete req.max_attempts (pos 0)) (record req { max_attempts = pos 5 }) req

-- The end of the function that ForEach calls, from the test of the payload on.
unfoldable pub accept :
    IndexedReq → Option String → List EnqueueRequest → List EnqueueRequest × Option Invalid
accept item (some e) slots = (slots, some (bad_payload item.idx e))
accept item none slots = (set_at item.idx (with_attempts item.req) slots, none)

-- The function that ForEach calls for each request.
unfoldable pub validate_item :
    Payloads → IndexedReq → List EnqueueRequest → List EnqueueRequest × Option Invalid
validate_item p item slots =
    if is_empty item.req.chain_id
    then (slots, some (no_chain item.idx))
    else if is_empty item.req.job_type
    then (slots, some (no_type item.idx))
    else accept item (if p.is_nil item.req then none else p.marshal item.req) slots

unfoldable pub index_reqs : ℕ → List EnqueueRequest → List IndexedReq
index_reqs i [] = []
index_reqs i (req ∷ reqs) = record { idx = i; req = req } ∷ index_reqs (suc i) reqs

-- The zero value of the struct.
abbrev pub blank : EnqueueRequest
blank = record {
  chain_id = "";
  sequence = pos 0;
  job_type = "";
  payload = "";
  is_marshalled = true;
  idempotency_key = "";
  tenant_id = "";
  trace_id = "";
  ordering_mode = no_mode;
  max_attempts = pos 0;
  deadline_at = none;
  available_at = none;
}

-- The ids and times that the requests of the batch would get, by their place.
unfoldable pub with_draws : (ℕ → ℕ × ℕ) → ℕ → List EnqueueRequest → List (EnqueueRequest × ℕ × ℕ)
with_draws draws i [] = []
with_draws draws i (req ∷ reqs) = (req, (draws i).0, (draws i).1) ∷ with_draws draws (suc i) reqs

-- A call of rill.ForEach on the requests: the number of goroutines, the items, the function.
abbrev pub ForEach : Type 0
ForEach =
    ℕ
    → List IndexedReq
    → (IndexedReq → List EnqueueRequest → List EnqueueRequest × Option Invalid)
    → List EnqueueRequest
    → List EnqueueRequest × Option Invalid

-- What follows ForEach.
unfoldable pub enqueue_validated :
    Engine
    → Repo
    → Option String
    → String
    → (ℕ → ℕ × ℕ)
    → List EnqueueRequest × Option Invalid
    → Repo × (Invalid ⊎ Result (List Job))
enqueue_validated e r span from_context draws (slots, some x) = (r, inl x)
enqueue_validated e r span from_context draws (slots, none) =
    let (r', result) = engine_enqueue_batch e r span from_context (with_draws draws 0 slots) in
    (r', inr result)

unfoldable pub batch_enqueue_parallel :
    ForEach
    → Payloads
    → Engine
    → Repo
    → Option String
    → String
    → (ℕ → ℕ × ℕ)
    → List EnqueueRequest
    → Repo × (Invalid ⊎ Result (List Job))
batch_enqueue_parallel for_each p e r span from_context draws reqs =
    enqueue_validated e r span from_context draws
      (for_each 10 (index_reqs 0 reqs) (validate_item p) (map (λ _. blank) reqs))

-- The counts of AggregateChainStats; what it does in parallel before has no effect.
abbrev count_of : Option ℤ → ℤ
count_of none = pos 0
count_of (some n) = n

unfoldable pub count_chains : GoMap String ℤ → List Job → GoMap String ℤ
count_chains counts [] = counts
count_chains counts (j ∷ js) =
    count_chains
      (insert text_discrete j.chain_id (inc64 (count_of (get text_discrete j.chain_id counts)))
        counts)
      js

unfoldable pub aggregate_chain_stats : List Job → GoMap String ℤ
aggregate_chain_stats js = count_chains [] js
