-- ===== src/Executor/Loop.antt =====
-- taskEventLoop and shutDown of executor.go. A run over the events that arrive ends in an
-- outcome: still waiting for the next event, returned (which cancels the executor's context), or
-- a nil dereference.
use mesos_executor.Common.{
  ℕ, Option, none, some, List, [], ◌∷◌, ◌++◌, Str, codes, Bool, true, false, if◌then◌else◌, Result,
  ok, err, panic, ltb,
}
use mesos_executor.Mesos.{TaskInfo, TaskState, task_running, task_killing, task_failed, task_killed}
use mesos_executor.Hook.{Env, after_task_healthy, before_terminate}
use mesos_executor.Command.{Command}
use mesos_executor.Executor.{
  Platform, Config, Log, Event, healthy, unhealthy, failed_due_to_unhealthy,
  failed_due_to_expired_certificate, command_exited, kill, shutdown, subscribed, launch, updated,
  stopped, Status, plain, with_message, with_health,
}
use mesos_executor.Executor.Launch.{run_hooks, launch_task}

-- The local variables of taskEventLoop, with e.framework and what was done.
pub record State : Type 0 where
  pub framework : List Bool
  pub task : Option TaskInfo
  pub cmd : Option Command
  pub fire_healthy_hook : Bool
  pub log : Log

pub data Outcome : Type 0 where
  waiting returned : State → Outcome
  crashed : Log → Outcome

-- The loop goes on while it waits.
abbrev pub continue : Outcome → (State → Outcome) → Outcome
continue (waiting s) next = next s
continue (returned s) next = returned s
continue (crashed log) next = crashed log

-- taskInfo.GetTaskID(), which is empty for a nil task.
abbrev pub task_id_of : Option TaskInfo → Str
task_id_of none = []
task_id_of (some t) = t.task_id

-- One TASK_KILLING for each capability TASK_KILLING_STATE.
unfoldable pub announce_killing : Str → List Bool → Log → Log
announce_killing id [] log = log
announce_killing id (killing_state ∷ rest) log =
    announce_killing id rest (if killing_state then updated (plain id task_killing) ∷ log else log)

unfoldable pub grace_period : Config → TaskInfo → ℕ
grace_period cfg t = if ltb 0 t.kill_grace then t.kill_grace else cfg.kill_policy_grace_period

-- `status` is the update that comes last before the loop returns.
abbrev pub return_with : Status → State → Outcome
return_with status s = returned (record s { log = updated status ∷ s.log })

abbrev pub report : Status → State → Outcome
report status s = waiting (record s { log = updated status ∷ s.log })

abbrev pub kill_message : Str
kill_message = codes "Task killed due to receiving a kill event from Mesos agent"

abbrev pub shutdown_message : Str
shutdown_message = codes "Task killed due to receiving a shutdown event from Mesos agent"

module _ (p : Platform) (cfg : Config) where
  stop_command : TaskInfo → Command → State → Result Env → Log → (State → Outcome) → Outcome
  stop_command t c s panic log next = crashed log
  stop_command t c s (ok _) log next = next (record s {
    cmd = some (record c { killing = true });
    log = stopped c.pid (grace_period cfg t) cfg.sigterm_exclude_processes ∷ log;
  })
  stop_command t c s (err _) log next = next (record s {
    cmd = some (record c { killing = true });
    log = stopped c.pid (grace_period cfg t) cfg.sigterm_exclude_processes ∷ log;
  })

  unfoldable pub shut_down_task :
      Option TaskInfo → Option Command → State → (State → Outcome) → Outcome
  unfolding stop_command
  shut_down_task none cmd s next = next s
  shut_down_task (some t) none s next = next s
  shut_down_task (some t) (some c) s next =
      let (log, result) =
        run_hooks p cfg before_terminate t true (announce_killing t.task_id s.framework s.log) in
      stop_command t c s result log next

  -- shutDown, and then `next`.
  unfoldable pub shut_down : State → (State → Outcome) → Outcome
  unfolding shut_down_task
  shut_down s next = shut_down_task s.task s.cmd s next

  unfoldable pub launched : TaskInfo → State → Log → Result Command → Outcome
  launched t s log (ok cmd) = waiting (record s { task = some t; cmd = some cmd; log = log })
  launched t s log (err e) =
      return_with (with_message t.task_id task_failed (codes "Cannot launch task: " ++ e))
        (record s { task = some t; cmd = none; log = log })
  launched t s log panic = crashed log

  abbrev pub report_healthy : State → Outcome
  report_healthy s = report (with_health (task_id_of s.task) task_running true none) s

  unfoldable pub after_healthy_hooks : TaskInfo → State → Log → Result Env → Outcome
  after_healthy_hooks t s log (ok _) = report_healthy (record s { log = log })
  after_healthy_hooks t s log (err e) =
      shut_down (record s { log = log })
        (return_with (
          with_message t.task_id task_failed
            (codes "Error calling after task healthy hooks: " ++ e)))
  after_healthy_hooks t s log panic = crashed log

  -- The hooks are called at the first Healthy event only; `*taskInfo` is read there.
  unfoldable pub first_healthy : Option TaskInfo → State → Outcome
  unfolding after_healthy_hooks
  first_healthy none s = crashed s.log
  first_healthy (some t) s =
      let (log, result) = run_hooks p cfg after_task_healthy t false s.log in
      after_healthy_hooks t (record s { fire_healthy_hook = false }) log result

  -- The two failures report twice: TASK_RUNNING, unhealthy, and after shutDown the final state.
  unfoldable pub fail_with : TaskState → Str → State → Outcome
  fail_with final m s =
      let id = task_id_of s.task in
      shut_down (record s { log = updated (with_health id task_running false (some m)) ∷ s.log })
        (return_with (with_health id final false (some m)))

  -- The event is a Shutdown: its `kill` is empty, and so is the task id in it.
  abbrev pub report_shutdown_of : Option TaskInfo → State → Outcome
  report_shutdown_of none s = waiting s
  report_shutdown_of (some _) s = report (with_message [] task_killed shutdown_message) s

  abbrev pub report_shutdown : State → Outcome
  report_shutdown s = report_shutdown_of s.task s

  unfoldable pub handle : Event → State → Outcome
  unfolding launched first_healthy fail_with
  handle (subscribed capabilities) s = waiting (record s { framework = capabilities })
  handle (launch t) s = let (log, result) = launch_task p cfg t s.log in launched t s log result
  handle healthy s = if s.fire_healthy_hook then first_healthy s.task s else report_healthy s
  handle (unhealthy m) s = report (with_health (task_id_of s.task) task_running false (some m)) s
  handle (failed_due_to_unhealthy m) s = fail_with task_failed m s
  handle (failed_due_to_expired_certificate m) s = fail_with task_killed m s
  handle (command_exited m) s =
      shut_down s (return_with (with_message (task_id_of s.task) task_failed m))
  handle (kill id) s = shut_down s (return_with (with_message id task_killed kill_message))
  handle shutdown s = shut_down s report_shutdown

  -- The events behind the one at which the loop ends are not handled.
  unfoldable pub event_loop : List Event → State → Outcome
  event_loop [] s = waiting s
  event_loop (event ∷ events) s = continue (handle event s) (λ s'. event_loop events s')

abbrev pub initial : State
initial = record { framework = []; task = none; cmd = none; fire_healthy_hook = true; log = [] }

unfoldable pub task_event_loop : Platform → Config → List Event → Outcome
task_event_loop p cfg events = event_loop p cfg events initial
