-- ===== src/Agent/Pipeline.antt =====
-- internal/app/agent.go: the goroutines of `App.Run`, of the collector, of the sender and of its pool,
-- and the channels between them. A batch is a `B`. One step is what one goroutine does between two
-- points at which it can be suspended.
pub mod Life
pub mod Conservation
pub mod Leaving
pub mod Serving
pub mod Enabled
pub mod Progress
pub mod Shutdown
pub mod Order
use go_metrics.Common.{ℕ, suc, ◌+◌, ◌≤◌, ◌<◌, ◌≡◌, Bool, true, false, List, [], ◌∷◌, ◌++◌, length}

-- A goroutine of the chain waits for a batch, has one to hand on, or has returned.
pub data Stage (B : Type 0) : Type 0 where
  waiting : Stage B
  holding : B → Stage B
  ended : Stage B

-- How far the agent has come: `Run` waits for a signal; collector.Stop has cancelled the collector's
-- context; it has closed the channel, and the transfer is waited for; sender.Stop has cancelled the
-- context of the workers; `Run` has returned, and the process ends; a goroutine has panicked.
pub data Phase : Type 0 where
  running stopping_collector transferring stopping_sender stopped crashed : Phase

pub record State (B : Type 0) : Type 0 where
  -- collectRuntimeMetrics and collectSystemMetrics.
  pub runtime : Stage B
  pub system : Stage B
  -- metricsChan of the collector.
  pub collected : List B
  pub collected_closed : Bool
  -- The goroutine of `Run`.
  pub transfer : Stage B
  -- metricsChan of the sender.
  pub outgoing : List B
  pub outgoing_closed : Bool
  -- The goroutine of sender.Start.
  pub submitter : Stage B
  -- The pool: its channel, the number of workers in their `select`, and the tasks that run.
  pub tasks : List B
  pub tasks_closed : Bool
  pub idle : ℕ
  pub busy : List B
  -- The batches whose task has returned, the last one first, with `true` where SendMetricsBatch has
  -- returned nil; and those that a goroutine let go when it returned.
  pub returned : List (B × Bool)
  pub dropped : List B
  pub phase : Phase
  -- The context that `Run` is called with is done.
  pub run_cancelled : Bool

-- The three channels are made with this capacity.
abbrev pub capacity : ℕ
capacity = 100

-- The contexts that the Stop methods cancel.
abbrev pub collector_cancelled : Phase → Bool
collector_cancelled running = false
collector_cancelled _ = true

abbrev pub workers_cancelled : Phase → Bool
workers_cancelled stopping_sender = true
workers_cancelled _ = false

-- The agent is running or being stopped.
abbrev pub IsAlive : Phase → Type 0
IsAlive stopped = ⊥
IsAlive crashed = ⊥
IsAlive _ = Unit

-- After NewMetricsCollector, NewMetricsSender with a RateLimit, and the two Start methods.
abbrev pub started : {B : Type 0} → ℕ → State B
started rate_limit = record {
  runtime = waiting;
  system = waiting;
  collected = [];
  collected_closed = false;
  transfer = waiting;
  outgoing = [];
  outgoing_closed = false;
  submitter = waiting;
  tasks = [];
  tasks_closed = false;
  idle = rate_limit;
  busy = [];
  returned = [];
  dropped = [];
  phase = running;
  run_cancelled = false;
}

module _ {B : Type 0} where
  -- SendMetricsBatch has returned nil.
  abbrev pub sent : List (B × Bool) → List B
  sent [] = []
  sent ((b, true) ∷ l) = b ∷ sent l
  sent ((b, false) ∷ l) = sent l

  -- It has returned an error, which the task discards.
  abbrev pub failed : List (B × Bool) → List B
  failed [] = []
  failed ((b, true) ∷ l) = failed l
  failed ((b, false) ∷ l) = b ∷ failed l

  -- The two collecting loops put their batches into the channel.
  pub data CollectorPass : State B → State B → Type 0 where
    put_runtime :
        {s : State B} (b : B)
        → s.runtime ≡ holding b
        → s.collected_closed ≡ false
        → length s.collected < capacity
        → CollectorPass s (record s { runtime = waiting; collected = s.collected ++ b ∷ [] })
    put_system :
        {s : State B} (b : B)
        → s.system ≡ holding b
        → s.collected_closed ≡ false
        → length s.collected < capacity
        → CollectorPass s (record s { system = waiting; collected = s.collected ++ b ∷ [] })

  -- The goroutine of `Run` that moves batches from the collector to the sender.
  pub data TransferPass : State B → State B → Type 0 where
    receive :
        {s : State B} (b : B) (bs : List B)
        → s.transfer ≡ waiting
        → s.collected ≡ b ∷ bs
        → TransferPass s (record s { transfer = holding b; collected = bs })
    forward :
        {s : State B} (b : B)
        → s.transfer ≡ holding b
        → s.outgoing_closed ≡ false
        → length s.outgoing < capacity
        → TransferPass s (record s { transfer = waiting; outgoing = s.outgoing ++ b ∷ [] })

  -- The goroutine of sender.Start, and Submit.
  pub data SubmitterPass : State B → State B → Type 0 where
    accept :
        {s : State B} (b : B) (bs : List B)
        → s.submitter ≡ waiting
        → s.outgoing ≡ b ∷ bs
        → SubmitterPass s (record s { submitter = holding b; outgoing = bs })
    submit :
        {s : State B} (b : B)
        → s.submitter ≡ holding b
        → s.tasks_closed ≡ false
        → length s.tasks < capacity
        → SubmitterPass s (record s { submitter = waiting; tasks = s.tasks ++ b ∷ [] })

  -- A worker of the pool takes a task, and the task returns.
  pub data PoolPass : State B → State B → Type 0 where
    take :
        {s : State B} (b : B) (bs : List B) (n : ℕ)
        → s.idle ≡ suc n
        → s.tasks ≡ b ∷ bs
        → PoolPass s (record s { idle = n; tasks = bs; busy = b ∷ s.busy })
    -- SendMetricsBatch returns, with nil if `ok`; any of the running tasks can be the next.
    complete :
        {s : State B} (before : List B) (b : B) (after : List B) (ok : Bool)
        → s.busy ≡ before ++ b ∷ after
        → PoolPass s (record s {
          idle = suc s.idle;
          busy = before ++ after;
          returned = (b, ok) ∷ s.returned;
        })

  -- A batch is handed on by one goroutine.
  pub data Pass : State B → State B → Type 0 where
    by_collector : {s t : State B} → CollectorPass s t → Pass s t
    by_transfer : {s t : State B} → TransferPass s t → Pass s t
    by_submitter : {s t : State B} → SubmitterPass s t → Pass s t
    by_pool : {s t : State B} → PoolPass s t → Pass s t
