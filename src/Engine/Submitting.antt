-- ===== src/Engine/Submitting.antt =====
-- Enqueue of engine.go: the request that reaches the repository.
use orderedjob.Prelude.{◌≡◌, ◌≢◌}
use orderedjob.Job.{Job, EnqueueRequest, Result, ok, err, OrderingMode, no_mode, strict}
use orderedjob.Memory.Enqueue.{or_strict}
use orderedjob.Engine.{Engine, strategy_mode}

-- The first of three modes that is given, and the strict one if none is.
pub data IsFirst (a b c : OrderingMode) : OrderingMode → Type 0 where
  of_request : a ≢ no_mode → IsFirst a b c a
  of_strategy : a ≡ no_mode → b ≢ no_mode → IsFirst a b c b
  of_engine : a ≡ no_mode → b ≡ no_mode → c ≢ no_mode → IsFirst a b c c
  of_default : a ≡ no_mode → b ≡ no_mode → c ≡ no_mode → IsFirst a b c strict

-- The mode is the first that the request, the strategy or the engine gives.
abbrev pub IsFirstMode : Engine → EnqueueRequest → OrderingMode → Type 0
IsFirstMode e req =
    IsFirst req.ordering_mode (strategy_mode e.ordering_strategy req) e.ordering_mode

-- What a new job takes over from its request.
abbrev Carries : EnqueueRequest → Job → Type 0
Carries req j = (j.ordering_mode ≡ or_strict req.ordering_mode) × (j.trace_id ≡ req.trace_id)

job_of : Result Job → Job → Job
job_of (ok j) d = j
job_of (err x) d = d
