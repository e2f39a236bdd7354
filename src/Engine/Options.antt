-- ===== src/Engine/Options.antt =====
-- New of engine.go with its options, and lease/lease.go. What the engine calls but does not look
-- into (metrics, logger, tracer, listener) has the types `M`, `L`, `T` and `V`, with the defaults
-- as arguments. Durations are int64 nanoseconds.
use orderedjob.Prelude.{
  ℕ, zero, suc, if_pos, if_neg, String, ◌≡◌, ◌≢◌, ◌≤◌, ◌<◌, ◌*◌, ◌/◌, refl, Bool, true, false,
  Option, none, some, List, [], ◌∷◌, ite, arith, Bool-cases, inl, inr, if◌then◌else◌,
}
use orderedjob.Int64.{ℤ, pos, negsuc, lt64, ℤ_discrete}
use orderedjob.Job.{Job, EnqueueRequest, OrderingMode, strict}
use orderedjob.Failure.{Failure}
use orderedjob.RetryPolicy.{Policy, default_policy}

-- lease.Manager
pub record Manager : Type 0 where
  pub lease_duration : ℕ
  pub heartbeat : ℕ

abbrev pub manager_of : ℕ → Manager
manager_of lease = record { lease_duration = lease; heartbeat = lease / 3 }

-- lease.New
unfoldable pub new_manager : ℤ → Manager
new_manager (pos (suc n)) = manager_of (suc n)
new_manager _ = manager_of 60000000000

module _ (M L T V : Type 0) where
  pub record Settings : Type 0 where
    pub lease_manager : Manager
    pub retry_policy : Policy
    pub metrics : M
    pub logger : L
    pub tracer : Option T
    pub worker_id : String
    pub concurrency : ℤ
    pub poll_interval : ℤ
    pub recovery_interval : ℤ
    pub use_notify : Bool
    pub ordering_mode : OrderingMode
    pub ordering_strategy : Option (EnqueueRequest → OrderingMode)
    pub panic_handler : Option (Job → String → Option Failure)
    pub retry_on_panic : Bool
    pub event_listener : V
    pub dlq_threshold : ℤ

  pub data EngineOption : Type 0 where
    with_concurrency with_poll_interval with_lease with_recovery_interval : ℤ → EngineOption
    with_dlq_threshold : ℤ → EngineOption
    with_retry_policy : Policy → EngineOption
    with_metrics : M → EngineOption
    with_logger : L → EngineOption
    with_worker_id : String → EngineOption
    with_notify with_retry_on_panic : Bool → EngineOption
    with_ordering_mode : OrderingMode → EngineOption
    with_ordering_strategy : Option (EnqueueRequest → OrderingMode) → EngineOption
    with_panic_handler : Option (Job → String → Option Failure) → EngineOption
    with_tracer : Option T → EngineOption
    with_event_listener : V → EngineOption

  unfoldable pub apply : EngineOption → Settings → Settings
  apply (with_concurrency n) e = if lt64 (pos 0) n then record e { concurrency = n } else e
  apply (with_poll_interval d) e = record e { poll_interval = d }
  apply (with_lease d) e = record e { lease_manager = new_manager d }
  apply (with_recovery_interval d) e = record e { recovery_interval = d }
  apply (with_dlq_threshold n) e = record e { dlq_threshold = n }
  apply (with_retry_policy p) e = record e { retry_policy = p }
  apply (with_metrics m) e = record e { metrics = m }
  apply (with_logger l) e = record e { logger = l }
  apply (with_worker_id id) e = record e { worker_id = id }
  apply (with_notify b) e = record e { use_notify = b }
  apply (with_retry_on_panic b) e = record e { retry_on_panic = b }
  apply (with_ordering_mode m) e = record e { ordering_mode = m }
  apply (with_ordering_strategy s) e = record e { ordering_strategy = s }
  apply (with_panic_handler h) e = record e { panic_handler = h }
  apply (with_tracer t) e = record e { tracer = t }
  apply (with_event_listener v) e = record e { event_listener = v }

  unfoldable pub apply_all : List EngineOption → Settings → Settings
  apply_all [] e = e
  apply_all (o ∷ os) e = apply_all os (apply o e)

  unfoldable pub default_settings : M → L → V → String → Settings
  default_settings m l v worker = record {
    lease_manager = new_manager (pos 60000000000);
    retry_policy = default_policy;
    metrics = m;
    logger = l;
    tracer = none;
    worker_id = worker;
    concurrency = pos 10;
    poll_interval = pos 500000000;
    recovery_interval = pos 10000000000;
    use_notify = false;
    ordering_mode = strict;
    ordering_strategy = none;
    panic_handler = none;
    retry_on_panic = false;
    event_listener = v;
    dlq_threshold = pos 0;
  }

  abbrev pub or_tracer : Option T → T → Option T
  or_tracer none t = some t
  or_tracer (some u) t = some u

  -- what New does after the options: a tracer, and a policy with attempts
  unfoldable pub fill_in : T → Settings → Settings
  fill_in t e = record e {
    tracer = or_tracer e.tracer t;
    retry_policy =
        ite (ℤ_discrete e.retry_policy.max_attempts (pos 0)) default_policy e.retry_policy;
  }

  -- New
  unfoldable pub new_engine : M → L → V → T → String → List EngineOption → Settings
  new_engine m l v t worker options = fill_in t (apply_all options (default_settings m l v worker))

  -- What the loops of the engine rely on.
  pub record IsReady (e : Settings) : Type 0 where
    pub has_workers : lt64 (pos 0) e.concurrency ≡ true
    pub has_lease : 0 < e.lease_manager.lease_duration
    pub beats_in_time : e.lease_manager.heartbeat * 3 ≤ e.lease_manager.lease_duration

  new_manager-lease : (d : ℤ) → 0 < (new_manager d).lease_duration
  unfolding new_manager
  new_manager-lease (pos zero) = omega arith
  new_manager-lease (pos (suc n)) = omega arith
  new_manager-lease (negsuc n) = omega arith

  new_manager-heartbeat : (d : ℤ) → (new_manager d).heartbeat * 3 ≤ (new_manager d).lease_duration
  unfolding new_manager
  new_manager-heartbeat (pos zero) = omega arith
  new_manager-heartbeat (pos (suc n)) = omega arith
  new_manager-heartbeat (negsuc n) = omega arith

  apply-IsReady : (o : EngineOption) (e : Settings) → IsReady e → IsReady (apply o e)
  unfolding apply
  apply-IsReady (with_concurrency n) e r = elim (Bool-cases (lt64 (pos 0) n)) [
    | inl b ↦
        rw b (record { has_workers = b; has_lease = r.has_lease; beats_in_time = r.beats_in_time })
    | inr b ↦ rw b r
  ]
  apply-IsReady (with_lease d) e r = record {
    has_workers = r.has_workers;
    has_lease = new_manager-lease d;
    beats_in_time = new_manager-heartbeat d;
  }
  apply-IsReady _ e r = record {
    has_workers = r.has_workers;
    has_lease = r.has_lease;
    beats_in_time = r.beats_in_time;
  }

  apply_all-IsReady : (os : List EngineOption) (e : Settings) → IsReady e → IsReady (apply_all os e)
  unfolding apply_all
  apply_all-IsReady [] e r = r
  apply_all-IsReady (o ∷ os) e r = apply_all-IsReady os (apply o e) (apply-IsReady o e r)

  -- Whatever the options are, in any order, a new engine has at least one worker, a lease that is
  -- not empty, and a heartbeat of at most a third of it.
  pub new_engine-IsReady :
      (m : M) (l : L) (v : V) (t : T) (worker : String) (options : List EngineOption)
      → IsReady (new_engine m l v t worker options)
  unfolding new_engine fill_in default_settings lt64
  new_engine-IsReady m l v t worker options =
      let r = apply_all-IsReady options (default_settings m l v worker) (record {
        has_workers = refl;
        has_lease = new_manager-lease (pos 60000000000);
        beats_in_time = new_manager-heartbeat (pos 60000000000);
      }) in
      record {
        has_workers = r.has_workers;
        has_lease = r.has_lease;
        beats_in_time = r.beats_in_time;
      }

  filled_attempts :
      (p : Policy) → (ite (ℤ_discrete p.max_attempts (pos 0)) default_policy p).max_attempts ≢ pos 0
  unfolding default_policy
  filled_attempts p = elim (ℤ_discrete p.max_attempts (pos 0)) [
    | yes e ↦ rw (if_pos (ℤ_discrete p.max_attempts (pos 0)) e default_policy p) (λ h. cc)
    | no n ↦ rw (if_neg (ℤ_discrete p.max_attempts (pos 0)) n default_policy p) n
  ]

  -- Whatever the options are, the retry policy of a new engine has a number of attempts that is not
  -- 0, and there is a tracer.
  pub new_engine_fills :
      (m : M) (l : L) (v : V) (t : T) (worker : String) (options : List EngineOption)
      → ((new_engine m l v t worker options).retry_policy.max_attempts ≢ pos 0)
        × ((new_engine m l v t worker options).tracer ≢ none)
  unfolding new_engine fill_in
  new_engine_fills m l v t worker options =
      let e = apply_all options (default_settings m l v worker) in
      (filled_attempts e.retry_policy, traced e.tracer)
    where
      traced : (o : Option T) → or_tracer o t ≢ none
      traced none = λ h. cc
      traced (some u) = λ h. cc
