-- ===== src/Engine/Recovery.antt =====
-- One tick of recoveryLoop of engine.go, and Schedule and EnqueueDelayed.
use orderedjob.Prelude.{
  ℕ, suc, zero, String, ◌≡◌, ◌≤◌, ◌+◌, ◌⊎◌, ◌∙◌, ap, inl, inr, Bool-cases, ℕ_discrete, refl, ◌&&◌,
  Option, some, List, [], ◌∷◌, arith, if◌then◌else◌, leb, ltb,
}
use orderedjob.Job.{Job, EnqueueRequest, Result}
use orderedjob.RetryPolicy.{backoff}
use orderedjob.Memory.State.{Repo}
use orderedjob.Memory.Admin.{recover_stale}
use orderedjob.Memory.Bulk.{count_dlq}
use orderedjob.Memory.Recovery.{HasStaleLease, recover_stale_limit, recover_stale_all}
use orderedjob.Engine.{Engine, engine_enqueue}

-- What a tick tells others: the listener, the metrics and the workers. A full `notifyCh` drops a
-- wake-up.
pub data Signal : Type 0 where
  on_dlq_threshold_exceeded : ℕ → Signal
  inc_stale_recovered : ℕ → Signal
  wake_up : Signal

unfoldable pub wake_ups : ℕ → List Signal
wake_ups zero = []
wake_ups (suc n) = wake_up ∷ wake_ups n

-- the signals for the jobs that were recovered
unfoldable pub recovery_signals : ℕ → List Signal
recovery_signals zero = []
recovery_signals (suc n) = inc_stale_recovered (suc n) ∷ wake_ups (suc n)

-- `threshold` is dlqThreshold, 0 where it is not positive; CountDLQ of the memory repository does
-- not fail.
unfoldable pub threshold_signals : ℕ → ℕ → List Signal → List Signal
threshold_signals threshold count rest =
    if ltb 0 threshold && leb threshold count then on_dlq_threshold_exceeded count ∷ rest else rest

-- a tick of recoveryLoop
unfoldable pub recovery_tick : Engine → ℕ → Repo → ℕ → Repo × List Signal
recovery_tick e threshold r now =
    let (r', recovered) = recover_stale r 100 (some (backoff e.draw e.retry_policy)) now in
    (r', threshold_signals threshold (count_dlq r) (recovery_signals recovered))

-- Schedule
unfoldable pub schedule :
    Engine → Repo → Option String → String → EnqueueRequest → ℕ → ℕ → ℕ → Repo × Result Job
schedule e r span from_context req run_at id now =
    engine_enqueue e r span from_context (record req { available_at = some run_at }) id now

-- EnqueueDelayed, where `asked` is the time at the call
unfoldable pub enqueue_delayed :
    Engine → Repo → Option String → String → EnqueueRequest → ℕ → ℕ → ℕ → ℕ → Repo × Result Job
enqueue_delayed e r span from_context req delay asked id now =
    engine_enqueue e r span from_context (record req { available_at = some (asked + delay) }) id now

-- the wake-ups among the signals
unfoldable pub count_wake_ups : List Signal → ℕ
count_wake_ups [] = 0
count_wake_ups (wake_up ∷ rest) = suc (count_wake_ups rest)
count_wake_ups (on_dlq_threshold_exceeded n ∷ rest) = count_wake_ups rest
count_wake_ups (inc_stale_recovered n ∷ rest) = count_wake_ups rest

count-wake_ups : (n : ℕ) → count_wake_ups (wake_ups n) ≡ n
unfolding count_wake_ups wake_ups
count-wake_ups zero = refl
count-wake_ups (suc n) = ap suc (count-wake_ups n)

count-recovery : (n : ℕ) → count_wake_ups (recovery_signals n) ≡ n
unfolding count_wake_ups recovery_signals wake_ups
count-recovery zero = refl
count-recovery (suc n) = ap suc (count-wake_ups n)

count-threshold :
    (threshold count : ℕ) (rest : List Signal)
    → count_wake_ups (threshold_signals threshold count rest) ≡ count_wake_ups rest
unfolding count_wake_ups threshold_signals
count-threshold threshold count rest = elim (Bool-cases (ltb 0 threshold && leb threshold count)) [
  | inl b ↦ rw b refl
  | inr b ↦ rw b refl
]

-- A tick of the recovery loop wakes up as many workers as it recovers jobs, at most 100; if it wakes
-- up fewer than 100, no running job has a stale lease afterwards.
pub recovery_tick_wakes :
    (e : Engine) (threshold : ℕ) (r : Repo) (now id : ℕ)
    → (count_wake_ups (recovery_tick e threshold r now).1 ≤ 100)
      × ((count_wake_ups (recovery_tick e threshold r now).1 ≡ 100)
          ⊎ (¬ HasStaleLease (recovery_tick e threshold r now).0 id now))
unfolding recovery_tick
recovery_tick_wakes e threshold r now id =
    let policy = some (backoff e.draw e.retry_policy) in
    let n = (recover_stale r 100 policy now).1 in
    let same : count_wake_ups (threshold_signals threshold (count_dlq r) (recovery_signals n)) ≡ n =
      count-threshold threshold (count_dlq r) (recovery_signals n) ∙ count-recovery n in
    let most = recover_stale_limit r 100 policy now in
    rw same (
      most,
      elim (ℕ_discrete n 100) [
        | yes p ↦ inl p
        | no q ↦ inr (recover_stale_all r 100 policy now id (omega arith))
      ],
    )
