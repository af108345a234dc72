-- ===== src/Executor/Hooks.antt =====
-- How often the hooks hear that the task is healthy (executor.go).
use mesos_executor.Common.{
  ℕ, zero, suc, ◌+◌, ◌≤◌, ◌<◌, Option, none, some, List, [], ◌∷◌, Str, Bool, true, false, ◌&&◌,
  if◌then◌else◌, Result-cases, was_ok, was_err, was_panic, ◌≡◌, refl, ◌∙◌, arith, count_by,
  count_by-append, ◌==◌,
}
use mesos_executor.Mesos.{TaskInfo, task_killing}
use mesos_executor.Hook
use mesos_executor.Hook.{Env, EventType, before_task_start, after_task_healthy, before_terminate}
use mesos_executor.Hook.Command.{type_eq}
use mesos_executor.Executor.{
  Platform, Config, Log, Action, Event, updated, hooked, started, stopped, scheduled, checking,
  healthy, unhealthy, failed_due_to_unhealthy, failed_due_to_expired_certificate, command_exited,
  kill, shutdown, subscribed, launch, plain,
}
use mesos_executor.Executor.Launch.{run_hooks, launch_task}
use mesos_executor.Executor.Loop.{
  State, Outcome, waiting, returned, crashed, continue, announce_killing, report_healthy,
  report_shutdown_of, shut_down, first_healthy, handle, event_loop, initial, task_event_loop,
}
use mesos_executor.Executor.Keeps.{launch_task-keeps}
use mesos_executor.Executor.Effects.{called, run_hooks-called, shut_down_rule}

-- A call of hook `n` with AfterTaskHealthy.
abbrev pub is_healthy_call : ℕ → Action → Bool
is_healthy_call n (hooked m event) = m == n && type_eq event.type after_task_healthy
is_healthy_call n (updated s) = false
is_healthy_call n (started c) = false
is_healthy_call n (stopped pid g es) = false
is_healthy_call n (scheduled d e) = false
is_healthy_call n (checking h) = false

abbrev pub healthy_calls : ℕ → Log → ℕ
healthy_calls n log = count_by (is_healthy_call n) log

called-above : (n k m : ℕ) (event : Hook.Event) → n < k → healthy_calls n (called k m event) ≡ 0
called-above n k zero event h = refl
called-above n k (suc m) event h =
    count_by-append (is_healthy_call n) (called (suc k) m event) (hooked k event ∷ [])
    ∙ ground (arith, called-above n (suc k) m event (omega arith))

called-once : (n k m : ℕ) (event : Hook.Event) → healthy_calls n (called k m event) ≤ 1
called-once n k zero event = omega arith
called-once n k (suc m) event =
    rw (count_by-append (is_healthy_call n) (called (suc k) m event) (hooked k event ∷ []))
      (ground (arith, called-once n (suc k) m event, called-above n (suc k) m event))

called-other :
    (n k m : ℕ) (event : Hook.Event)
    → type_eq event.type after_task_healthy ≡ false
    → healthy_calls n (called k m event) ≡ 0
called-other n k zero event h = refl
called-other n k (suc m) event h =
    count_by-append (is_healthy_call n) (called (suc k) m event) (hooked k event ∷ [])
    ∙ ground (arith, called-other n (suc k) m event h)

module _ (p : Platform) (cfg : Config) (n : ℕ) where
  run_hooks-once :
      (t : TaskInfo) (ignore : Bool) (log : Log)
      → healthy_calls n (run_hooks p cfg after_task_healthy t ignore log).0
        ≤ healthy_calls n log + 1
  run_hooks-once t ignore log =
      let (m, e) = run_hooks-called p cfg after_task_healthy t ignore log in
      let event : Hook.Event = record { type = after_task_healthy; task_info = t } in
      rw (e, count_by-append (is_healthy_call n) (called 0 m event) log)
        (omega (arith, called-once n 0 m event))

  run_hooks-other :
      (type : EventType) (t : TaskInfo) (ignore : Bool) (log : Log)
      → type_eq type after_task_healthy ≡ false
      → healthy_calls n (run_hooks p cfg type t ignore log).0 ≡ healthy_calls n log
  run_hooks-other type t ignore log h =
      let (m, e) = run_hooks-called p cfg type t ignore log in
      let event : Hook.Event = record { type = type; task_info = t } in
      rw (e, count_by-append (is_healthy_call n) (called 0 m event) log)
        (omega (arith, called-other n 0 m event h))

  launch_task-healthy :
      (t : TaskInfo) (log : Log) → healthy_calls n (launch_task p cfg t log).0 ≡ healthy_calls n log
  launch_task-healthy t log =
      launch_task-keeps p cfg (λ l. healthy_calls n l ≡ healthy_calls n log)
        (record {
          updates = λ s l e. e;
          schedules = λ d ev l e. e;
          starts = λ c l e. e;
          checks = λ h l e. e;
          calls = λ t' l e. run_hooks-other before_task_start t' false l refl ∙ e;
        })
        t log refl

  -- One call is left while the hooks have not been called.
  abbrev pub budget : Bool → ℕ
  budget true = 1
  budget false = 0

  abbrev pub AtMostOnce : Outcome → Type 0
  AtMostOnce (waiting s) = healthy_calls n s.log + budget s.fire_healthy_hook ≤ 1
  AtMostOnce (returned s) = healthy_calls n s.log ≤ 1
  AtMostOnce (crashed log) = healthy_calls n log ≤ 1

  announce_killing-healthy :
      (id : Str) (capabilities : List Bool) (log : Log)
      → healthy_calls n (announce_killing id capabilities log) ≡ healthy_calls n log
  unfolding announce_killing
  announce_killing-healthy id [] log = refl
  announce_killing-healthy id (true ∷ rest) log =
      announce_killing-healthy id rest (updated (plain id task_killing) ∷ log)
  announce_killing-healthy id (false ∷ rest) log = announce_killing-healthy id rest log

  hooks_log-healthy :
      (t : TaskInfo) (s : State)
      → healthy_calls n
          (run_hooks p cfg before_terminate t true (announce_killing t.task_id s.framework s.log)).0
        ≡ healthy_calls n s.log
  hooks_log-healthy t s =
      run_hooks-other before_terminate t true (announce_killing t.task_id s.framework s.log) refl
      ∙ announce_killing-healthy t.task_id s.framework s.log

  -- shutDown, where what follows adds no call.
  shut_down-once :
      (s : State) (next : State → Outcome)
      → ((s' : State)
          → s'.fire_healthy_hook ≡ s.fire_healthy_hook
          → healthy_calls n s'.log ≡ healthy_calls n s.log
          → AtMostOnce (next s'))
      → healthy_calls n s.log ≤ 1
      → AtMostOnce (shut_down p cfg s next)
  shut_down-once s next h b =
      shut_down_rule p cfg AtMostOnce s next (h s refl refl)
        (λ t c. h _ refl (hooks_log-healthy t s)) (λ t. omega (arith, hooks_log-healthy t s))

  first_healthy-once :
      (task : Option TaskInfo) (s : State)
      → healthy_calls n s.log ≡ 0
      → AtMostOnce (first_healthy p cfg task s)
  unfolding first_healthy
  first_healthy-once none s h = omega arith
  first_healthy-once (some t) s h =
      let one = run_hooks-once t false s.log in
      elim (Result-cases (run_hooks p cfg after_task_healthy t false s.log).1) [
        | was_ok env e ↦ rw e (omega arith)
        | was_err m e ↦ rw e (shut_down-once _ _ (λ s' f c. omega arith) (omega arith))
        | was_panic e ↦ rw e (omega arith)
      ]

  report_shutdown-once :
      (task : Option TaskInfo) (s : State)
      → healthy_calls n s.log + budget s.fire_healthy_hook ≤ 1
      → AtMostOnce (report_shutdown_of p cfg task s)
  report_shutdown-once none s h = h
  report_shutdown-once (some t) s h = h

  healthy-once :
      (first : Bool) (s : State)
      → healthy_calls n s.log + budget first ≤ 1
      → s.fire_healthy_hook ≡ first
      → AtMostOnce (if first then first_healthy p cfg s.task s else report_healthy p cfg s)
  healthy-once true s h e = first_healthy-once s.task s (omega arith)
  healthy-once false s h e = rw e h

  handle-once :
      (event : Event) (s : State)
      → healthy_calls n s.log + budget s.fire_healthy_hook ≤ 1
      → AtMostOnce (handle p cfg event s)
  unfolding handle
  handle-once healthy s h = healthy-once s.fire_healthy_hook s h refl
  handle-once (launch t) s h = elim (Result-cases (launch_task p cfg t s.log).1) [
    | was_ok c e ↦ rw e (omega (arith, launch_task-healthy t s.log))
    | was_err m e ↦ rw e (omega (arith, launch_task-healthy t s.log))
    | was_panic e ↦ rw e (omega (arith, launch_task-healthy t s.log))
  ]
  handle-once (unhealthy m) s h = h
  handle-once (failed_due_to_unhealthy m) s h =
      shut_down-once _ _ (λ s' f c. omega arith) (omega arith)
  handle-once (failed_due_to_expired_certificate m) s h =
      shut_down-once _ _ (λ s' f c. omega arith) (omega arith)
  handle-once (command_exited m) s h = shut_down-once _ _ (λ s' f c. omega arith) (omega arith)
  handle-once (kill id) s h = shut_down-once _ _ (λ s' f c. omega arith) (omega arith)
  handle-once shutdown s h =
      shut_down-once _ _ (λ s' f c. report_shutdown-once s'.task s' (rw (f, c) h)) (omega arith)
  handle-once (subscribed cs) s h = h

  continue-once :
      (o : Outcome) (next : State → Outcome)
      → AtMostOnce o
      → ((s : State) → healthy_calls n s.log + budget s.fire_healthy_hook ≤ 1 → AtMostOnce (next s))
      → AtMostOnce (continue o next)
  continue-once (waiting s) next c h = h s c
  continue-once (returned s) next c h = c
  continue-once (crashed log) next c h = c

  event_loop-once :
      (events : List Event) (s : State)
      → healthy_calls n s.log + budget s.fire_healthy_hook ≤ 1
      → AtMostOnce (event_loop p cfg events s)
  unfolding event_loop
  event_loop-once [] s h = h
  event_loop-once (event ∷ events) s h =
      continue-once (handle p cfg event s) (λ s'. event_loop p cfg events s')
        (handle-once event s h) (λ s' h'. event_loop-once events s' h')

abbrev pub log_of : Outcome → Log
log_of (waiting s) = s.log
log_of (returned s) = s.log
log_of (crashed log) = log

once_of_outcome :
    (p : Platform) (cfg : Config) (n : ℕ) (o : Outcome)
    → AtMostOnce p cfg n o
    → healthy_calls n (log_of o) ≤ 1
once_of_outcome p cfg n (waiting s) h = omega arith
once_of_outcome p cfg n (returned s) h = h
once_of_outcome p cfg n (crashed log) h = h

-- Whatever events arrive, and however the hooks answer, no hook is called with AfterTaskHealthy
-- more than once in a run of the event loop.
pub task_event_loop-healthy_once :
    (p : Platform) (cfg : Config) (n : ℕ) (events : List Event)
    → healthy_calls n (log_of (task_event_loop p cfg events)) ≤ 1
unfolding task_event_loop
task_event_loop-healthy_once p cfg n events =
    once_of_outcome p cfg n (event_loop p cfg events initial)
      (event_loop-once p cfg n events initial (omega arith))
