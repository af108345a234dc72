-- ===== src/Mesos.antt =====
-- The messages of the Mesos v1 API that the executor reads, each by what its getters return (the
-- library itself, github.com/mesos/mesos-go, is not part of the repository). An optional message
-- is an Option where the code tests it for nil.
use mesos_executor.Common.{ℕ, Option, List, Str, Bool}

pub data TaskState : Type 0 where
  task_starting task_running task_killing task_finished task_failed task_killed : TaskState

pub record Label : Type 0 where
  pub key : Str
  pub value : Str

pub record Port : Type 0 where
  pub number : ℕ
  pub name : Str
  -- none: `Labels` or the list in it is nil
  pub labels : Option (List Label)

pub record Variable : Type 0 where
  pub name : Str
  pub value : Str

pub record CommandInfo : Type 0 where
  pub value : Str
  pub shell : Bool
  pub arguments : List Str
  pub variables : List Variable

pub record HttpCheckInfo : Type 0 where
  pub scheme : Option Str
  pub port : ℕ
  pub path : Str

-- Seconds are float64 in the messages; the model keeps the duration that
-- `mesosutils.Duration` makes of them, in nanoseconds.
pub record HealthCheck : Type 0 where
  pub delay : ℕ
  pub interval : Option ℕ
  pub timeout : Option ℕ
  pub grace_period : ℕ
  pub consecutive_failures : ℕ
  pub command : Option CommandInfo
  pub http : Option HttpCheckInfo
  pub tcp : Option ℕ

pub record TaskInfo : Type 0 where
  pub task_id : Str
  -- a task that reaches the executor has one: the source reads it without a test for nil
  pub executor_id : Str
  -- the executor's command, which the executor runs
  pub executor_command : CommandInfo
  -- the variables of the task's own command
  pub command_variables : List Variable
  pub labels : List Label
  pub ports : List Port
  pub health_check : Option HealthCheck
  -- the grace period of the kill policy in nanoseconds, 0 when it is not set
  pub kill_grace : ℕ
