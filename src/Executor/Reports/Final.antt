-- ===== src/Executor/Reports/Final.antt =====
-- The final report of a run of taskEventLoop (executor.go).
use mesos_executor.Common.{
  ℕ, Option, none, some, List, [], ◌∷◌, Str, Bool, true, false, if◌then◌else◌, Result, ok, err,
  panic, ◌≡◌, refl, ◌∙◌, ap, subst, All, Result-cases, was_ok, was_err, was_panic,
}
use mesos_executor.Mesos.{TaskInfo, task_starting}
use mesos_executor.Hook.{before_terminate, after_task_healthy}
use mesos_executor.Command.{Command}
use mesos_executor.Executor.{
  Platform, Config, Log, Status, updated, Event, healthy, unhealthy, failed_due_to_unhealthy,
  failed_due_to_expired_certificate, command_exited, kill, shutdown, subscribed, launch, plain,
}
use mesos_executor.Executor.Launch.{run_hooks, launch_task}
use mesos_executor.Executor.Loop.{
  State, Outcome, continue, waiting, returned, crashed, announce_killing, return_with,
  report_healthy, shut_down, first_healthy, handle, event_loop, initial, task_event_loop,
}
use mesos_executor.Executor.Reports.{
  reports, is_final, final_count, reports-run_hooks, final_count-announce_killing,
}
use mesos_executor.Executor.Effects.{shut_down_rule}
use mesos_executor.Executor.Reports.Launching.{on_success, launch_task-reports}

abbrev finals : Log → ℕ
finals log = final_count (reports log)

-- `n` final reports so far; where the loop has returned, one more, which is the last thing done.
abbrev pub Counted : ℕ → Outcome → Type 0
Counted n (waiting s) = final_count (reports s.log) ≡ n
Counted n (crashed log) = final_count (reports log) ≡ n
Counted n (returned s) =
    (status : Status) × (rest : Log) × (s.log ≡ updated status ∷ rest)
    × (is_final status.state ≡ true)
    × (final_count (reports rest) ≡ n)

abbrev pub is_shutdown : Event → Bool
is_shutdown shutdown = true
is_shutdown _ = false

continue-Counted :
    (n : ℕ) (o : Outcome) (next : State → Outcome)
    → Counted n o
    → ((s : State) → finals s.log ≡ n → Counted n (next s))
    → Counted n (continue o next)
continue-Counted n (waiting s) next c h = h s c
continue-Counted n (returned s) next c h = c
continue-Counted n (crashed log) next c h = c

finals-on_success :
    (id : Str) (before : List Status) (r : Result Command)
    → final_count (on_success id (plain id task_starting ∷ before) r) ≡ final_count before
finals-on_success id before (ok c) = refl
finals-on_success id before (err e) = refl
finals-on_success id before panic = refl

module _ (p : Platform) (cfg : Config) where
  finals-run_hooks :
      (type : _) (t : TaskInfo) (ignore : Bool) (log : Log)
      → finals (run_hooks p cfg type t ignore log).0 ≡ finals log
  finals-run_hooks type t ignore log = ap final_count (reports-run_hooks p cfg type t ignore log)

  finals-hooks_log :
      (t : TaskInfo) (s : State)
      → finals
          (run_hooks p cfg before_terminate t true (announce_killing t.task_id s.framework s.log)).0
        ≡ finals s.log
  finals-hooks_log t s =
      finals-run_hooks before_terminate t true (announce_killing t.task_id s.framework s.log)
      ∙ final_count-announce_killing t.task_id s.framework s.log

  -- Behind shutDown the loop returns with a final report.
  shut_down-Counted :
      (status : Status) (s : State) (n : ℕ)
      → is_final status.state ≡ true
      → finals s.log ≡ n
      → Counted n (shut_down p cfg s (return_with status))
  shut_down-Counted status s n f e =
      shut_down_rule p cfg (Counted n) s (return_with status) (status, s.log, refl, f, e)
        (λ t c. (status, _, refl, f, finals-hooks_log t s ∙ e)) (λ t. finals-hooks_log t s ∙ e)

  finals-launch_task : (t : TaskInfo) (log : Log) → finals (launch_task p cfg t log).0 ≡ finals log
  finals-launch_task t log =
      ap final_count (launch_task-reports p cfg t log)
      ∙ finals-on_success t.task_id (reports log) (launch_task p cfg t log).1

  launched-Counted : (t : TaskInfo) (s : State) → Counted (finals s.log) (handle p cfg (launch t) s)
  unfolding handle
  launched-Counted t s = elim (Result-cases (launch_task p cfg t s.log).1) [
    | was_ok c e ↦ rw e (finals-launch_task t s.log)
    | was_err m e ↦ rw e (_, _, refl, refl, finals-launch_task t s.log)
    | was_panic e ↦ rw e (finals-launch_task t s.log)
  ]

  first_healthy-Counted :
      (task : Option TaskInfo) (s : State) → Counted (finals s.log) (first_healthy p cfg task s)
  unfolding first_healthy
  first_healthy-Counted none s = refl
  first_healthy-Counted (some t) s =
      let same = finals-run_hooks after_task_healthy t false s.log in
      elim (Result-cases (run_hooks p cfg after_task_healthy t false s.log).1) [
        | was_ok env e ↦ rw e same
        | was_err m e ↦ rw e (shut_down-Counted _ _ _ refl same)
        | was_panic e ↦ rw e same
      ]

  healthy-Counted :
      (first : Bool) (s : State)
      → Counted
          (finals s.log)
          (if first then first_healthy p cfg s.task s else report_healthy p cfg s)
  healthy-Counted true s = first_healthy-Counted s.task s
  healthy-Counted false s = refl

  handle-Counted :
      (event : Event) (s : State)
      → is_shutdown event ≡ false
      → Counted (finals s.log) (handle p cfg event s)
  unfolding handle
  handle-Counted healthy s h = healthy-Counted s.fire_healthy_hook s
  handle-Counted (launch t) s h = launched-Counted t s
  handle-Counted (unhealthy m) s h = refl
  handle-Counted (failed_due_to_unhealthy m) s h = shut_down-Counted _ _ _ refl refl
  handle-Counted (failed_due_to_expired_certificate m) s h = shut_down-Counted _ _ _ refl refl
  handle-Counted (command_exited m) s h = shut_down-Counted _ _ _ refl refl
  handle-Counted (kill id) s h = shut_down-Counted _ _ _ refl refl
  handle-Counted shutdown s h = cc
  handle-Counted (subscribed cs) s h = refl

  event_loop-Counted :
      (events : List Event) (s : State) (n : ℕ)
      → All (λ event. is_shutdown event ≡ false) events
      → finals s.log ≡ n
      → Counted n (event_loop p cfg events s)
  unfolding event_loop
  event_loop-Counted [] s n h e = e
  event_loop-Counted (event ∷ events) s n h e =
      continue-Counted n (handle p cfg event s) (λ s'. event_loop p cfg events s')
        (subst (λ k. Counted k (handle p cfg event s)) e (handle-Counted event s h.0))
        (λ s' e'. event_loop-Counted events s' n h.1 e')

-- Without a Shutdown event, a run reports no final state (TASK_FAILED, TASK_KILLED or
-- TASK_FINISHED) while it waits or where it dereferences nil; where it has returned it has
-- reported exactly one, as the last thing it did.
pub task_event_loop-Counted :
    (p : Platform) (cfg : Config) (events : List Event)
    → All (λ event. is_shutdown event ≡ false) events
    → Counted 0 (task_event_loop p cfg events)
unfolding task_event_loop
task_event_loop-Counted p cfg events h = event_loop-Counted p cfg events initial 0 h refl
