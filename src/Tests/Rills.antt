-- ===== src/Tests/Rills.antt =====
-- The theorem on rill_helpers.go, with a ForEach that runs the items one after another.
use mathlib.Core.List.{lookup}
use orderedjob.GoMap.{insert}
use orderedjob.Prelude.{
  text_discrete, ◌≡◌, refl, sym, subst, Option, none, some, List, [], ◌∷◌, ◌⊎◌, inl, inr, In, false,
}
use orderedjob.Int64.{pos, inc64}
use orderedjob.Job.{EnqueueRequest, is_empty}
use orderedjob.Memory.State.{new}
use orderedjob.Rill.{
  IndexedReq, Invalid, Payloads, ForEach, batch_enqueue_parallel, validate_item, no_type, accept,
  set_at, index_reqs, enqueue_validated, aggregate_chain_stats, count_chains,
}
use orderedjob.Rill.Validation.{Ran, ran_all, ran_one, Ends, succeeds, stops, IsForEach}
use orderedjob.Rill.Parallel.{IsAnswer, enqueued, batch_parallel-IsAnswer}
use orderedjob.Samples.{first, second, job1, job2, strict_engine}

abbrev Slots : Type 0
Slots = List EnqueueRequest

abbrev Out : Type 0
Out = Slots × Option Invalid

abbrev go_on : Out → (Slots → Out) → Out
go_on (t, some e) next = (t, some e)
go_on (t, none) next = next t

abbrev one_by_one : (IndexedReq → Slots → Out) → List IndexedReq → Slots → Out
one_by_one f [] s = (s, none)
one_by_one f (a ∷ items) s = go_on (f a s) (one_by_one f items)

abbrev in_order : ForEach
in_order n items f s = one_by_one f items s

-- How `one_by_one` ends.
abbrev Ended : (IndexedReq → Slots → Out) → List IndexedReq → Slots → Out → Type 0
Ended f items s out =
    ((t : Slots) × Ran f items s t × (out ≡ (t, none)))
    ⊎ ((a : IndexedReq) × (t : Slots) × (u : Slots) × (e : Invalid) × In a items
        × ((f a t).1 ≡ some e)
        × (out ≡ (u, some e)))

out-cases :
    (out : Out)
    → ((t : Slots) × (out ≡ (t, none))) ⊎ ((t : Slots) × (e : Invalid) × (out ≡ (t, some e)))
out-cases (t, none) = inl (t, refl)
out-cases (t, some e) = inr (t, e, refl)

one_by_one-Ended :
    (f : IndexedReq → Slots → Out) (items : List IndexedReq) (s : Slots)
    → Ended f items s (one_by_one f items s)
one_by_one-Ended f [] s = inl (s, ran_all, refl)
one_by_one-Ended f (a ∷ items) s = elim (out-cases (f a s)) [
  | inl (t, h) ↦ elim (one_by_one-Ended f items t) [
    | inl (u, r, e) ↦ inl (u, ran_one h r, rw h e)
    | inr (b, v, u, x, m, k, e) ↦ inr (b, v, u, x, inr m, k, rw h e)
  ]
  | inr (t, e, h) ↦ inr (a, s, t, e, inl refl, rw h refl, rw h refl)
]

in_order-IsForEach : IsForEach in_order
in_order-IsForEach n items f s = elim (one_by_one-Ended f items s) [
  | inl (t, r, e) ↦ subst (Ends items f s) (sym e) (succeeds items t (λ a m. m) (λ a m. m) r)
  | inr (a, t, u, x, m, k, e) ↦ subst (Ends items f s) (sym e) (stops a t u x m k)
]

-- Payloads that are all marshalled.
abbrev sound : Payloads
sound = record { is_nil = λ req. false; marshal = λ req. none }

batch_parallel-IsAnswer_example :
    IsAnswer sound new
      (first ∷ second ∷ [])
      (enqueued strict_engine new none "" (λ i. (i, 10)) (first ∷ second ∷ []))
      (batch_enqueue_parallel in_order sound strict_engine new none ""
        (λ i. (i, 10))
        (first ∷ second ∷ []))
batch_parallel-IsAnswer_example =
    batch_parallel-IsAnswer in_order sound strict_engine new none "" (λ i. (i, 10))
      (first ∷ second ∷ []) in_order-IsForEach

-- The second request has no type: nothing is enqueued.
rejects_second :
    batch_enqueue_parallel in_order sound strict_engine new none ""
      (λ i. (i, 10))
      (first ∷ record second { job_type = "" } ∷ [])
    ≡ (new, inl (no_type 1))
unfolding batch_enqueue_parallel enqueue_validated validate_item accept set_at index_reqs is_empty
    text_discrete
rejects_second = refl

two_counted : aggregate_chain_stats (job1 ∷ job2 ∷ []) ≡ ("customer 7", pos 2) ∷ []
unfolding aggregate_chain_stats count_chains insert lookup text_discrete inc64
two_counted = refl
