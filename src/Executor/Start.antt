-- ===== src/Executor/Start.antt =====
-- Start of executor.go: the loop that subscribes to the agent, and the last wait for the state
-- updates. The state updater, taskEventLoop and the timers run beside it, so that Start is a step
-- relation; where several cases of a select are ready any of them may be taken. What happens on an
-- open connection is eventLoop's, in Executor/Agent.
pub mod Subscription
pub mod Returning
mod Tests
use mesos_executor.Common.{
  ℕ, Option, none, some, List, [], ◌∷◌, ◌++◌, Str, codes, Bool, true, false, Result, print_ℕ, ◌≡◌,
  In, map,
}
use mesos_executor.Updater.{
  Updater, TaskStatus, buffered_updater, get_unacknowledged, wait_tick, Step, Reach,
}

-- The timer of RecoveryTimeout: it runs; it has fired and its channel holds the time; or the time
-- has been received and it is not reset.
pub data Timer : Type 0 where
  running fired drained : Timer

-- Where Start stands: at the select, in eventLoop of an open connection, in Wait, or returned, with
-- an error or none.
pub data Place : Type 0 where
  selecting connected awaiting_updates : Place
  returned : Option Str → Place

-- A SUBSCRIBE call: the statuses in it, and, for the proofs, the updater at that time.
pub record Subscribe : Type 0 where
  pub statuses : List TaskStatus
  pub snapshot : Updater

pub record Start : Type 0 where
  pub updater : Updater
  pub place : Place
  pub recovery_timer : Timer
  -- for the proofs: whether the timer has fired since it was set last
  pub timed_out : Bool
  -- whether taskEventLoop has returned, which cancels the context
  pub context_done : Bool
  -- newest first
  pub calls : List Subscribe

unfoldable pub start : ℕ → Start
start buffer_size = record {
  updater = buffered_updater buffer_size;
  place = selecting;
  recovery_timer = running;
  timed_out = false;
  context_done = false;
  calls = [];
}

-- `if !recoveryTimeout.Stop() { <-recoveryTimeout.C }` and Reset: none waits for ever, on a channel
-- that is already drained.
unfoldable pub stop_and_reset : Timer → Option Timer
stop_and_reset running = some running
stop_and_reset fired = some running
stop_and_reset drained = none

-- `timeout` is RecoveryTimeout as Go prints it.
unfoldable pub recovery_error : Str → Str
recovery_error timeout =
    codes "failed to re-establish subscription with agent within "
    ++ (timeout ++ codes ", aborting")

-- calls.Subscribe(nil, e.stateUpdater.GetUnacknowledged())
unfoldable pub subscribe : Start → Subscribe
subscribe s = record { statuses = get_unacknowledged s.updater; snapshot = s.updater }

-- `timeout` as above. A Wait that returns cancels the updater's context; its error is only
-- logged. Its reads are those of earlier updaters, up to the present one.
pub data Move (timeout : Str) : Start → Start → Type 0 where
  updates : (s : Start) (u : Updater) → Step s.updater u → Move timeout s (record s { updater = u })
  task_loop_returns : (s : Start) → Move timeout s (record s { context_done = true })
  timer_fires :
      (s : Start)
      → s.recovery_timer ≡ running
      → Move timeout s (record s { recovery_timer = fired; timed_out = true })
  gives_up :
      (s : Start)
      → s.place ≡ selecting
      → s.recovery_timer ≡ fired
      → Move timeout s
          (record s { place = returned (some (recovery_error timeout)); recovery_timer = drained })
  is_cancelled :
      (s : Start)
      → s.place ≡ selecting
      → s.context_done ≡ true
      → Move timeout s (record s { place = awaiting_updates })
  subscribes :
      (s : Start)
      → s.place ≡ selecting
      → Move timeout s (record s { place = connected; calls = subscribe s ∷ s.calls })
  subscribe_fails :
      (s : Start)
      → s.place ≡ selecting
      → Move timeout s (record s { calls = subscribe s ∷ s.calls })
  connection_ends :
      (s : Start) (timer : Timer)
      → s.place ≡ connected
      → stop_and_reset s.recovery_timer ≡ some timer
      → Move timeout s (record s { place = selecting; recovery_timer = timer; timed_out = false })
  wait_ends :
      (s : Start) (late : Bool) (u v w : Updater) (result : Result (Unit {0}))
      → s.place ≡ awaiting_updates
      → Reach u v
      → Reach v w
      → Reach w s.updater
      → wait_tick late u v w s.updater ≡ some result
      → Move timeout s
          (record s { place = returned none; updater = record s.updater { cancelled = true } })

pub data Moves (timeout : Str) (s : Start) : Start → Type 0 where
  no_move : Moves timeout s s
  move : {v w : Start} → Moves timeout s v → Move timeout v w → Moves timeout s w
