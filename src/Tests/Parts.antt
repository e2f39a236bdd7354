-- ===== src/Tests/Parts.antt =====
-- The theorems on pages, handlers, options and recovery, at small data.
use mathlib.Core.List.{lookup}
use orderedjob.Prelude.{
  ℕ, String, ◌≡◌, ◌⊎◌, ◌≤◌, ◌<◌, inr, refl, Bool, false, Option, none, some, List, [], ◌∷◌,
  ℕ_discrete, text_discrete, arith, ite,
}
use orderedjob.Int64.{pos}
use orderedjob.GoMap.{GoMap, range}
use orderedjob.Lifecycle.{Status-discrete}
use orderedjob.Job.{Job, is_empty}
use orderedjob.Failure.{Failure, plain}
use orderedjob.Memory.Listing.{page, take, drop, list_jobs, matches_filter, select_jobs}
use orderedjob.Memory.Listing.Window.{IsWindow, page_shows}
use orderedjob.Handlers.{Checks, register, new_registry}
use orderedjob.Engine.Options.{
  EngineOption, with_concurrency, with_lease, IsReady, new_engine, new_engine-IsReady,
}
use orderedjob.Samples.{job1, one_job, no_filter, all_texts}

page_shows_example :
    (w : List ℕ) × (page (pos 1) (pos 2) (5 ∷ 6 ∷ 7 ∷ 8 ∷ []) ≡ some w)
    × (((4 ≤ 1) × (w ≡ [])) ⊎ ((1 < 4) × IsWindow 1 2 (5 ∷ 6 ∷ 7 ∷ 8 ∷ []) w))
page_shows_example = page_shows 1 1 (5 ∷ 6 ∷ 7 ∷ 8 ∷ []) (omega arith)

-- A sort that leaves the list as it is.
abbrev unsorted : (Job → Job → Bool) → List Job → List Job
unsorted less js = js

lists_one : (list_jobs all_texts unsorted (λ s t. false) one_job no_filter 50).0 ≡ some (job1 ∷ [])
unfolding list_jobs page take drop select_jobs matches_filter is_empty range lookup text_discrete
    ℕ_discrete Status-discrete
lists_one = refl

-- A payload that is a text of some length, which a validator wants.
abbrev checks : Checks String
checks = record {
  zero_value = "";
  unmarshal = λ t. inr t;
  validate = some (λ t. if_empty t);
  validate_pointer = none;
  validate_ctx = none;
  validate_ctx_pointer = none;
  validator = none;
}
  where
    if_empty : String → Option Failure
    if_empty t = ite (text_discrete t "") (some (plain "empty")) none

abbrev mail_only : GoMap String ℕ
mail_only = register new_registry "mail" 7

abbrev options : List (EngineOption ℕ ℕ ℕ ℕ)
options = with_concurrency (pos 0) ∷ with_lease (pos 0) ∷ []

new_engine-IsReady_example : IsReady ℕ ℕ ℕ ℕ (new_engine ℕ ℕ ℕ ℕ 1 2 3 4 "w" options)
new_engine-IsReady_example = new_engine-IsReady ℕ ℕ ℕ ℕ 1 2 3 4 "w" options
