-- ===== src/Lifecycle/Edges.antt =====
-- The declared edges of lifecycle/state.go as a relation, and what the tests of that file decide.
use orderedjob.Prelude.{true, ◌≡◌, ◌≢◌, ◌↔◌, ◌⊎◌, inl, inr, refl, sym, arith}
use orderedjob.Lifecycle.{
  Status, unset, blocked, pending, processing, retrying, completed, failed, cancel_requested,
  cancelled, timed_out, expired, dead_lettered, is_terminal, can_be_claimed, is_valid_transition,
}

infix 40 ◌⟶◌ ◌⟶*◌
pub data ◌⟶◌ : Status → Status → Type 0 where
  unblock : blocked ⟶ pending
  start : pending ⟶ processing
  restart : retrying ⟶ processing
  cancel : pending ⟶ cancel_requested
  cancel_running : processing ⟶ cancel_requested
  cancel_waiting : retrying ⟶ cancel_requested
  expire : pending ⟶ expired
  expire_waiting : retrying ⟶ expired
  finish : processing ⟶ completed
  retry : processing ⟶ retrying
  fail : processing ⟶ failed
  time_out : processing ⟶ timed_out
  acknowledge : cancel_requested ⟶ cancelled
  finish_first : cancel_requested ⟶ completed
  retry_late : timed_out ⟶ retrying
  fail_late : timed_out ⟶ failed
  bury : failed ⟶ dead_lettered

ruleset edges = (
  unblock, start, restart, cancel, cancel_running, cancel_waiting, expire, expire_waiting, finish,
  retry, fail, time_out, acknowledge, finish_first, retry_late, fail_late, bury,
)

pub data ◌⟶*◌ : Status → Status → Type 0 where
  here : {s : Status} → s ⟶* s
  then : {s t u : Status} → s ⟶ t → t ⟶* u → s ⟶* u

edge_of_valid : (s t : Status) → is_valid_transition s t ≡ true → (s ≡ t) ⊎ (s ⟶ t)
unfolding is_valid_transition
edge_of_valid blocked t h = grind (arith, edges)
edge_of_valid _ t h = grind (arith, edges)

valid_of_edge : {s t : Status} → s ⟶ t → is_valid_transition s t ≡ true
unfolding is_valid_transition
valid_of_edge unblock = refl
valid_of_edge _ = refl

valid_self : (s : Status) → is_valid_transition s s ≡ true
unfolding is_valid_transition
valid_self s = ground arith

pub is_valid_transition_iff :
    (s t : Status) → (is_valid_transition s t ≡ true) ↔ ((s ≡ t) ⊎ (s ⟶ t))
is_valid_transition_iff s t = (edge_of_valid s t, sound)
  where
    sound : (s ≡ t) ⊎ (s ⟶ t) → is_valid_transition s t ≡ true
    sound (inl e) = rw (← e) (valid_self s)
    sound (inr e) = valid_of_edge e

pub terminal_edges :
    (s t : Status) → is_terminal s ≡ true → s ⟶ t → (s ≡ failed) × (t ≡ dead_lettered)
unfolding is_terminal
terminal_edges _ _ h unblock = cc
terminal_edges _ _ h bury = (refl, refl)
terminal_edges _ _ h _ = cc

claimable_edge : (s : Status) → can_be_claimed s ≡ true → s ⟶ processing
unfolding can_be_claimed
claimable_edge pending h = start
claimable_edge retrying h = restart
claimable_edge _ h = cc

edge_claimable : {s t : Status} → s ⟶ t → t ≡ processing → can_be_claimed s ≡ true
unfolding can_be_claimed
edge_claimable start h = refl
edge_claimable restart h = refl
edge_claimable _ h = cc

-- A state can be claimed exactly when an edge leads from it to PROCESSING.
pub can_be_claimed_iff : (s : Status) → (can_be_claimed s ≡ true) ↔ (s ⟶ processing)
can_be_claimed_iff s = (claimable_edge s, λ e. edge_claimable e refl)

-- From every state that a stored job can have, the edges lead to a terminal state.
pub reaches_terminal : (s : Status) → s ≢ unset → (t : Status) × (s ⟶* t) × (is_terminal t ≡ true)
unfolding is_terminal
reaches_terminal unset h = absurd (h refl)
reaches_terminal blocked h = (completed, search (here, then, edges), refl)
reaches_terminal failed h = (failed, here, refl)
reaches_terminal cancelled h = (cancelled, here, refl)
reaches_terminal expired h = (expired, here, refl)
reaches_terminal dead_lettered h = (dead_lettered, here, refl)
reaches_terminal _ h = (completed, search (here, then, edges), refl)

stuck_of_terminal :
    (s t : Status)
    → is_terminal s ≡ true
    → is_valid_transition s t ≡ true
    → (t ≡ s) ⊎ (t ≡ dead_lettered)
stuck_of_terminal s t h v = elim (edge_of_valid s t v) [
  | inl e ↦ inl (sym e)
  | inr e ↦ inr (terminal_edges s t h e).1
]

terminal_of_stuck :
    (s : Status)
    → s ≢ unset
    → ((t : Status) → is_valid_transition s t ≡ true → (t ≡ s) ⊎ (t ≡ dead_lettered))
    → is_terminal s ≡ true
unfolding is_terminal
terminal_of_stuck unset n h = absurd (n refl)
terminal_of_stuck blocked n h = absurd (ground (arith, h pending (valid_of_edge unblock)))
terminal_of_stuck pending n h = absurd (ground (arith, h processing (valid_of_edge start)))
terminal_of_stuck processing n h = absurd (ground (arith, h completed (valid_of_edge finish)))
terminal_of_stuck retrying n h = absurd (ground (arith, h processing (valid_of_edge restart)))
terminal_of_stuck cancel_requested n h =
    absurd (ground (arith, h cancelled (valid_of_edge acknowledge)))
terminal_of_stuck timed_out n h = absurd (ground (arith, h failed (valid_of_edge fail_late)))
terminal_of_stuck _ n h = refl

claimable_stands : (s : Status) → can_be_claimed s ≡ true → s ≢ processing
unfolding can_be_claimed
claimable_stands processing h = cc
claimable_stands pending h = λ e. cc
claimable_stands retrying h = λ e. cc
claimable_stands _ h = cc

starts_of_claimable :
    (s : Status)
    → can_be_claimed s ≡ true
    → (s ≢ processing) × (is_valid_transition s processing ≡ true)
starts_of_claimable s h = (claimable_stands s h, valid_of_edge ((can_be_claimed_iff s).0 h))

claimable_of_starts :
    (s : Status)
    → (s ≢ processing) × (is_valid_transition s processing ≡ true)
    → can_be_claimed s ≡ true
claimable_of_starts s (n, v) = elim (edge_of_valid s processing v) [
  | inl e ↦ absurd (n e)
  | inr e ↦ (can_be_claimed_iff s).1 e
]

-- The three tests of lifecycle/state.go agree on a state that is not the empty text: IsTerminal holds
-- exactly if IsValidTransition lets the state only stay or become DEAD_LETTERED, and CanBeClaimed
-- exactly if the state is not PROCESSING and IsValidTransition lets it become so.
pub tests_agree :
    (s : Status)
    → s ≢ unset
    → ((is_terminal s ≡ true)
        ↔ ((t : Status) → is_valid_transition s t ≡ true → (t ≡ s) ⊎ (t ≡ dead_lettered)))
      × ((can_be_claimed s ≡ true) ↔ ((s ≢ processing) × (is_valid_transition s processing ≡ true)))
tests_agree s n = (
  (λ h t v. stuck_of_terminal s t h v, terminal_of_stuck s n),
  (starts_of_claimable s, claimable_of_starts s),
)
