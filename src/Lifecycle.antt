-- ===== src/Lifecycle.antt =====
-- lifecycle/state.go: the states of a job and the declared edges between them.
-- Go spells a state as a string; `unset` is the empty string, which a zero `Job` carries.
pub mod Edges
use mathlib.Core.List.{lookup}
use orderedjob.Prelude.{Bool, true, false, ◌||◌, ite, Option, none, some, List, [], ◌∷◌}
use orderedjob.GoMap.{GoMap, get}

pub data Status : Type 0 where
  unset blocked pending processing retrying completed failed cancel_requested cancelled : Status
  timed_out expired dead_lettered : Status

unfoldable pub Status-discrete : Discrete Status
Status-discrete = hlevel

-- `==` on two states
abbrev pub same : Status → Status → Bool
same s t = ite (Status-discrete s t) true false

-- m[k] of a map of flags: a key that is not there reads as false.
abbrev pub or_false : Option Bool → Bool
or_false none = false
or_false (some b) = b

abbrev pub terminal_states : GoMap Status Bool
terminal_states =
    (completed, true)
    ∷ (failed, true)
    ∷ (cancelled, true)
    ∷ (expired, true)
    ∷ (dead_lettered, true)
    ∷ []

unfoldable pub is_terminal : Status → Bool
unfolding lookup Status-discrete
is_terminal s = or_false (get Status-discrete s terminal_states)

unfoldable pub block_next : Status → Bool
block_next completed = false
block_next _ = true

unfoldable pub can_be_claimed : Status → Bool
unfolding Status-discrete
can_be_claimed s = same s pending || same s retrying

abbrev pub allowed_transitions : GoMap Status (GoMap Status Bool)
allowed_transitions =
    (blocked, (pending, true) ∷ [])
    ∷ (pending, (processing, true) ∷ (cancel_requested, true) ∷ (expired, true) ∷ [])
    ∷ (
      processing,
      (completed, true)
          ∷ (retrying, true)
          ∷ (failed, true)
          ∷ (timed_out, true)
          ∷ (cancel_requested, true)
          ∷ [],
    )
    ∷ (retrying, (processing, true) ∷ (cancel_requested, true) ∷ (expired, true) ∷ [])
    ∷ (cancel_requested, (cancelled, true) ∷ (completed, true) ∷ [])
    ∷ (timed_out, (retrying, true) ∷ (failed, true) ∷ [])
    ∷ (failed, (dead_lettered, true) ∷ [])
    ∷ []

abbrev pub edge_listed : Option (GoMap Status Bool) → Status → Bool
edge_listed none to = false
edge_listed (some m) to = or_false (get Status-discrete to m)

unfoldable pub is_valid_transition : Status → Status → Bool
unfolding lookup Status-discrete
is_valid_transition from to =
    ite (Status-discrete from to) true
      (edge_listed (get Status-discrete from allowed_transitions) to)
