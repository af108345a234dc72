-- ===== src/Executor/Reports.antt =====
-- What the executor reports to the agent: the states that launchTask and the event loop send
-- (executor.go).
pub mod Launching
pub mod Final
use mesos_executor.Common.{
  ℕ, zero, suc, ◌+◌, ◌≤◌, List, [], ◌∷◌, ◌++◌, Str, Bool, true, false, if◌then◌else◌, Result, ok,
  err, panic, ◌≡◌, refl, sym, ◌∙◌, ap, arith, Bool-cases, inl, inr,
}
use mesos_executor.Mesos.{
  TaskInfo, TaskState, task_starting, task_running, task_killing, task_finished, task_failed,
  task_killed,
}
use mesos_executor.Hook
use mesos_executor.Executor.{
  Platform, Config, Log, Status, Action, updated, hooked, started, stopped, scheduled, checking,
  plain,
}
use mesos_executor.Executor.Launch.{run_hooks}
use mesos_executor.Executor.Loop.{announce_killing}
use mesos_executor.Executor.Effects.{called, called-suc, run_hooks-called}

-- The statuses handed to the state updater, newest first.
abbrev pub reports : Log → List Status
reports [] = []
reports (updated s ∷ log) = s ∷ reports log
reports (hooked n e ∷ log) = reports log
reports (started c ∷ log) = reports log
reports (stopped pid g es ∷ log) = reports log
reports (scheduled d e ∷ log) = reports log
reports (checking h ∷ log) = reports log

-- The states after which the agent expects no more of the task.
abbrev pub is_final : TaskState → Bool
is_final task_starting = false
is_final task_running = false
is_final task_killing = false
is_final task_finished = true
is_final task_failed = true
is_final task_killed = true

abbrev pub final_count : List Status → ℕ
final_count [] = 0
final_count (s ∷ ss) = let rest = final_count ss in if is_final s.state then suc rest else rest

reports-called :
    (k m : ℕ) (event : Hook.Event) (log : Log) → reports (called k m event ++ log) ≡ reports log
reports-called k zero event log = refl
reports-called k (suc m) event log =
    ap reports (sym (called-suc k m event log))
    ∙ reports-called (suc k) m event (hooked k event ∷ log)

pub reports-run_hooks :
    (p : Platform) (cfg : Config) (type : Hook.EventType) (t : TaskInfo) (ignore : Bool) (log : Log)
    → reports (run_hooks p cfg type t ignore log).0 ≡ reports log
reports-run_hooks p cfg type t ignore log =
    let (m, e) = run_hooks-called p cfg type t ignore log in
    ap reports e ∙ reports-called 0 m (record { type = type; task_info = t }) log

pub final_count-announce_killing :
    (id : Str) (capabilities : List Bool) (log : Log)
    → final_count (reports (announce_killing id capabilities log)) ≡ final_count (reports log)
unfolding announce_killing
final_count-announce_killing id [] log = refl
final_count-announce_killing id (true ∷ rest) log =
    final_count-announce_killing id rest (updated (plain id task_killing) ∷ log)
final_count-announce_killing id (false ∷ rest) log = final_count-announce_killing id rest log
