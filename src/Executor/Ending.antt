-- ===== src/Executor/Ending.antt =====
-- Which events end taskEventLoop, and with which report (executor.go).
use mesos_executor.Common.{
  Option, none, some, List, [], ◌∷◌, ◌++◌, Str, Bool, true, false, ◌≡◌, refl, ◌≢◌, subst,
}
use mesos_executor.Mesos.{TaskInfo, task_killed}
use mesos_executor.Executor.{
  Platform, Config, Log, Event, Status, updated, healthy, unhealthy, failed_due_to_unhealthy,
  failed_due_to_expired_certificate, command_exited, kill, shutdown, subscribed, launch,
  with_message,
}
use mesos_executor.Executor.Loop.{
  State, Outcome, waiting, returned, crashed, continue, return_with, report_shutdown_of,
  report_shutdown, shutdown_message, kill_message, shut_down, handle, event_loop,
}
use mesos_executor.Executor.Effects.{shut_down_rule}

-- The loop has returned with this report as the last thing done, or a hook has dereferenced nil.
abbrev pub EndsWith : Status → Outcome → Type 0
EndsWith status (waiting s) = ⊥
EndsWith status (crashed log) = Unit
EndsWith status (returned s) = (rest : Log) × (s.log ≡ updated status ∷ rest)

-- The loop waits, with this report as the last thing done, or a hook has dereferenced nil.
abbrev pub WaitsWith : Status → Outcome → Type 0
WaitsWith status (waiting s) = (rest : Log) × (s.log ≡ updated status ∷ rest)
WaitsWith status (crashed log) = Unit
WaitsWith status (returned s) = ⊥

-- CommandExited, Kill and the two failures end the loop.
abbrev pub is_ending : Event → Bool
is_ending (failed_due_to_unhealthy m) = true
is_ending (failed_due_to_expired_certificate m) = true
is_ending (command_exited m) = true
is_ending (kill id) = true
is_ending _ = false

abbrev Ends : Outcome → Type 0
Ends (waiting s) = ⊥
Ends (returned s) = Unit
Ends (crashed log) = Unit

module _ (p : Platform) (cfg : Config) where
  -- A Kill event ends the loop in every state, also before a launch, and the last report is
  -- TASK_KILLED for the task id that the event names (unless a hook dereferences nil).
  kill-EndsWith :
      (id : Str) (s : State)
      → EndsWith (with_message id task_killed kill_message) (handle p cfg (kill id) s)
  unfolding handle
  kill-EndsWith id s =
      shut_down_rule p cfg (EndsWith (with_message id task_killed kill_message)) s
        (return_with (with_message id task_killed kill_message)) (s.log, refl) (λ t c. (_, refl))
        (λ t. tt)

  shutdown_report :
      (task : Option TaskInfo) (t : TaskInfo) (s : State)
      → task ≡ some t
      → WaitsWith (with_message [] task_killed shutdown_message) (report_shutdown_of p cfg task s)
  shutdown_report none t s e = cc
  shutdown_report (some _) t s e = (s.log, refl)

  -- A Shutdown event does not end the loop. Where a task was launched it is stopped, and the
  -- report is TASK_KILLED for the empty task id instead of the task's.
  pub shutdown-WaitsWith :
      (s : State) (t : TaskInfo)
      → s.task ≡ some t
      → WaitsWith (with_message [] task_killed shutdown_message) (handle p cfg shutdown s)
  unfolding handle
  shutdown-WaitsWith s t e =
      shut_down_rule p cfg (WaitsWith (with_message [] task_killed shutdown_message)) s
        (report_shutdown p cfg) (shutdown_report s.task t s e)
        (λ t' c. shutdown_report s.task t _ e) (λ t'. tt)

  shut_down-Ends : (status : Status) (s : State) → Ends (shut_down p cfg s (return_with status))
  shut_down-Ends status s =
      shut_down_rule p cfg Ends s (return_with status) tt (λ t c. tt) (λ t. tt)

  handle-Ends : (event : Event) (s : State) → is_ending event ≡ true → Ends (handle p cfg event s)
  unfolding handle
  handle-Ends healthy s h = cc
  handle-Ends (launch t) s h = cc
  handle-Ends (unhealthy m) s h = cc
  handle-Ends (failed_due_to_unhealthy m) s h = shut_down-Ends _ _
  handle-Ends (failed_due_to_expired_certificate m) s h = shut_down-Ends _ _
  handle-Ends (command_exited m) s h = shut_down-Ends _ _
  handle-Ends (kill id) s h = shut_down-Ends _ _
  handle-Ends shutdown s h = cc
  handle-Ends (subscribed cs) s h = cc

  continue-Ends : (o : Outcome) (next : State → Outcome) → Ends o → Ends (continue o next)
  continue-Ends (waiting s) next h = absurd h
  continue-Ends (returned s) next h = tt
  continue-Ends (crashed log) next h = tt

  continue-next :
      (o : Outcome) (next : State → Outcome)
      → ((s : State) → Ends (next s))
      → Ends (continue o next)
  continue-next (waiting s) next h = h s
  continue-next (returned s) next h = tt
  continue-next (crashed log) next h = tt

  event_loop-Ends :
      (before : List Event) (event : Event) (later : List Event) (s : State)
      → is_ending event ≡ true
      → Ends (event_loop p cfg (before ++ event ∷ later) s)
  unfolding event_loop
  event_loop-Ends [] event later s h =
      continue-Ends (handle p cfg event s) (λ s'. event_loop p cfg later s') (handle-Ends event s h)
  event_loop-Ends (first ∷ before) event later s h =
      continue-next (handle p cfg first s) (λ s'. event_loop p cfg (before ++ event ∷ later) s')
        (λ s'. event_loop-Ends before event later s' h)

  -- Once an ending event has arrived (CommandExited, Kill, FailedDueToUnhealthy or
  -- FailedDueToExpiredCertificate), the loop no longer waits, whatever came before or comes later.
  pub event_loop-ends :
      (before : List Event) (event : Event) (later : List Event) (s s' : State)
      → is_ending event ≡ true
      → event_loop p cfg (before ++ event ∷ later) s ≢ waiting s'
  event_loop-ends before event later s s' h e =
      subst Ends e (event_loop-Ends before event later s h)
