-- ===== src/Rill/Parallel.antt =====
-- BatchEnqueueParallel of rill_helpers.go: what it answers, in whatever order its goroutines run.
use orderedjob.Prelude.{
  ℕ, String, ◌≡◌, refl, sym, ◌∙◌, ap, subst, Option-cases, Option, none, some, List, ◌⊎◌, inl, inr,
  map, In, arith,
}
use orderedjob.Job.{EnqueueRequest, Result, Job}
use orderedjob.Memory.State.{Repo}
use orderedjob.Engine.{Engine, engine_enqueue_batch}
use orderedjob.Rill.{
  IndexedReq, Invalid, Payloads, ForEach, with_attempts, validate_item, index_reqs, blank,
  with_draws, enqueue_validated, batch_enqueue_parallel,
}
use orderedjob.Rill.Slots.{
  get_elem?, same_slots, get-map, get-map-none, index-In, In-index, maps-HasShape,
}
use orderedjob.Rill.Validation.{
  IsValid, IsRejected, Ran, Ends, succeeds, stops, IsForEach, rejected, Ran-IsValid, Ran-fills,
}

-- Where an item stands, its request with the default is.
item-fits :
    (reqs : List EnqueueRequest) (a : IndexedReq)
    → In a (index_reqs 0 reqs)
    → get_elem? (map with_attempts reqs) a.idx ≡ some (with_attempts a.req)
item-fits reqs a m =
    let (i, e, h) = In-index 0 reqs a m in
    let f : i ≡ a.idx = omega arith in
    subst (λ n. get_elem? (map with_attempts reqs) n ≡ some (with_attempts a.req)) f
      (get-map with_attempts reqs i a.req h)

-- A run on all items, in any order, leaves each request with the default in its slot.
Ran-slots :
    (p : Payloads) (reqs : List EnqueueRequest) (order : List IndexedReq) (t : List EnqueueRequest)
    → ((a : IndexedReq) → In a (index_reqs 0 reqs) → In a order)
    → ((a : IndexedReq) → In a order → In a (index_reqs 0 reqs))
    → Ran (validate_item p) order (map (λ _. blank) reqs) t
    → t ≡ map with_attempts reqs
Ran-slots p reqs order t all only r =
    let (shape, keep, each) =
      Ran-fills p (map with_attempts reqs) order (map (λ _. blank) reqs) t r
        (maps-HasShape with_attempts (λ _. blank) reqs) (λ a m. item-fits reqs a (only a m)) in
    same_slots t (map with_attempts reqs) λ i. elim (Option-cases (get_elem? reqs i)) [
      | inl n ↦ let w = get-map-none with_attempts reqs i n in (shape i).1 w ∙ sym w
      | inr (x, h) ↦ each _ (all _ (index-In 0 reqs i i x h (omega arith)))
    ]

-- What the engine answers to the batch of the requests with the default.
abbrev pub enqueued :
    Engine
    → Repo
    → Option String
    → String
    → (ℕ → ℕ × ℕ)
    → List EnqueueRequest
    → Repo × (Invalid ⊎ Result (List Job))
enqueued e r span from_context draws reqs =
    let out =
      engine_enqueue_batch e r span from_context (with_draws draws 0 (map with_attempts reqs)) in
    (out.0, inr out.1)

-- The two ends of BatchEnqueueParallel.
abbrev pub IsAnswer :
    Payloads
    → Repo
    → List EnqueueRequest
    → Repo × (Invalid ⊎ Result (List Job))
    → Repo × (Invalid ⊎ Result (List Job))
    → Type 0
IsAnswer p r reqs batch out =
    (((a : IndexedReq) → In a (index_reqs 0 reqs) → IsValid p a.req) × (out ≡ batch))
    ⊎ ((a : IndexedReq) × (x : Invalid) × In a (index_reqs 0 reqs)
        × IsRejected p a x
        × (out ≡ (r, inl x)))

Ends-IsAnswer :
    (p : Payloads) (e : Engine) (r : Repo) (span : Option String) (from_context : String)
    (draws : ℕ → ℕ × ℕ) (reqs : List EnqueueRequest) (out : List EnqueueRequest × Option Invalid)
    → Ends (index_reqs 0 reqs) (validate_item p) (map (λ _. blank) reqs) out
    → IsAnswer p r reqs
        (enqueued e r span from_context draws reqs)
        (enqueue_validated e r span from_context draws out)
unfolding enqueue_validated
Ends-IsAnswer p e r span from_context draws reqs _ (succeeds order t all only run) = inl (
  λ a m. Ran-IsValid p order _ t run a (all a m),
  ap (λ s. enqueue_validated e r span from_context draws (s, none))
      (Ran-slots p reqs order t all only run),
)
Ends-IsAnswer p e r span from_context draws reqs _ (stops a t u x m h) =
    inr (a, x, m, rejected p a t x h, refl)

-- With a ForEach as documented, in whatever order it runs the items, BatchEnqueueParallel answers
-- what EnqueueBatch answers to all requests, in their order and with the default of five attempts,
-- and then each of them is valid; or it changes nothing and reports the error of a request that is
-- not valid, with its index.
pub batch_parallel-IsAnswer :
    (for_each : ForEach) (p : Payloads) (e : Engine) (r : Repo) (span : Option String)
    (from_context : String) (draws : ℕ → ℕ × ℕ) (reqs : List EnqueueRequest)
    → IsForEach for_each
    → IsAnswer p r reqs
        (enqueued e r span from_context draws reqs)
        (batch_enqueue_parallel for_each p e r span from_context draws reqs)
unfolding batch_enqueue_parallel
batch_parallel-IsAnswer for_each p e r span from_context draws reqs f =
    Ends-IsAnswer p e r span from_context draws reqs _
      (f 10 (index_reqs 0 reqs) (validate_item p) (map (λ _. blank) reqs))
