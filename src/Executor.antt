-- ===== src/Executor.antt =====
-- executor.go: configuration, events, and the effects of the executor's event loop. The effects
-- are kept in a log, newest first.
pub mod Cert
pub mod Launch
pub mod Loop
pub mod Effects
pub mod Reports
pub mod Keeps
pub mod Hooks
pub mod Ending
pub mod Environment
pub mod Sanitize
pub mod Agent
pub mod Start
pub mod Channel
pub mod Unhealthy
pub mod Scraping
mod Tests
use mesos_executor.Common.{
  ℕ, Option, none, some, List, [], ◌∷◌, ◌++◌, Str, codes, Bool, true, false, if◌then◌else◌, Result,
  ok, err, panic, ◌>>=◌, ltb, ◌+◌, has_prefix, trim_prefix, suc,
}
use mesos_executor.Mesos.{TaskState, TaskInfo, HealthCheck, CommandInfo}
use mesos_executor.Hook
use mesos_executor.Hook.{Env, Hook, before_terminate, handle_event}
use mesos_executor.Command.{Cmd, Command, TaskExitState, success_code, failed_code, killed_code}

-- A call of the state updater: Update, or UpdateWithOptions with its OptionalInfo.
pub record Status : Type 0 where
  pub task_id : Str
  pub state : TaskState
  pub message : Option Str
  pub healthy : Option Bool

-- The events with what the code reads of them.
pub data Event : Type 0 where
  healthy : Event
  unhealthy failed_due_to_unhealthy failed_due_to_expired_certificate command_exited : Str → Event
  -- the task id of the kill message
  kill : Str → Event
  shutdown : Event
  -- whether each capability of the framework is TASK_KILLING_STATE
  subscribed : List Bool → Event
  launch : TaskInfo → Event

pub data Action : Type 0 where
  -- the state updater was called
  updated : Status → Action
  -- the hook at this position was called
  hooked : ℕ → Hook.Event → Action
  -- the command was started
  started : Cmd → Action
  -- cmd.Stop returned, for this pid, grace period and names to exclude
  stopped : ℕ → ℕ → List Str → Action
  -- time.AfterFunc sends the event after this time
  scheduled : ℕ → Event → Action
  -- DoHealthChecks was called
  checking : HealthCheck → Action

abbrev pub Log : Type 0
Log = List Action

-- What the executor asks of its surroundings. An answer may depend on all that happened before.
pub record Platform : Type 0 where
  -- the hooks of the manager
  pub hooks : List (Hook.Event → Log → Result Env)
  -- os.Environ and os.Args[0]
  pub environ : List Str
  pub program : Str
  -- the bytes of the first PEM block, or none
  pub pem_decode : Str → Option Str
  -- x509.ParseCertificate: the NotAfter time in nanoseconds
  pub parse_certificate : Str → Result ℕ
  -- a time as fmt prints it
  pub format_time : ℕ → Str
  -- the time, and random.Duration(max)
  pub now : Log → ℕ
  pub random : ℕ → Log → ℕ
  -- appender.LogstashAppenderFromEnv
  pub appender : Result (Unit {0})
  -- exec.Cmd.Start: the pid
  pub run : Log → Cmd → Result ℕ

pub record Config : Type 0 where
  pub kill_policy_grace_period : ℕ
  pub random_expiration_range : ℕ
  pub sigterm_exclude_processes : List Str

-- The hooks as the manager calls them: each call is logged.
unfoldable pub numbered : ℕ → List (Hook.Event → Log → Result Env) → List (Hook Log)
numbered n [] = []
numbered n (answer ∷ answers) =
    (λ event log. (hooked n event ∷ log, answer event (hooked n event ∷ log)))
    ∷ numbered (suc n) answers

abbrev pub plain : Str → TaskState → Status
plain id state = record { task_id = id; state = state; message = none; healthy = none }

abbrev pub with_message : Str → TaskState → Str → Status
with_message id state m = record { task_id = id; state = state; message = some m; healthy = none }

abbrev pub with_health : Str → TaskState → Bool → Option Str → Status
with_health id state h m = record { task_id = id; state = state; message = m; healthy = some h }

abbrev certificate_prefix : Str
certificate_prefix = codes "CERTIFICATE="

abbrev pub exited_with_error : Str
exited_with_error = codes "Task exited with an error: "

exited_with_success : Str
exited_with_success = codes "Task exited with success (zero) exit code"

failed_event : Option Str → Result (Option Event)
failed_event none = panic
failed_event (some e) = ok (some (command_exited (exited_with_error ++ e)))

-- taskExitToEvent: the event that the end of the command sends, if any. A failure without an
-- error is a nil dereference.
unfoldable pub task_exit_to_event : TaskExitState → Result (Option Event)
unfolding failed_event exited_with_success
task_exit_to_event s = elim s.code [
  | success_code ↦ ok (some (command_exited exited_with_success))
  | failed_code ↦ failed_event s.error
  | killed_code ↦ ok none
]

abbrev chmod_prefix : Str → Str
chmod_prefix program =
    codes "chmod ug+rx '" ++ program ++ codes "' && exec '" ++ program ++ codes "' "

-- prepareCommandInfo
unfoldable pub prepare_command_info : Str → CommandInfo → CommandInfo
prepare_command_info program info = record info {
  value = trim_prefix info.value (chmod_prefix program);
}
