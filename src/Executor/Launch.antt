-- ===== src/Executor/Launch.antt =====
-- launchTask of executor.go, with createOptionsForLogstashServiceLogScrapping. The scraper, the
-- appender and the extenders that make up the scraping option are not kept: the option is known
-- by the output that it sets.
use mesos_executor.Common.{
  wrap_err, ℤ, Option, none, some, [], ◌∷◌, ◌++◌, Str, codes, str_eq, Bool, false, if◌then◌else◌,
  Result, ok, err, panic, atoi,
}
use mesos_executor.Mesos.{TaskInfo, HealthCheck, task_starting, task_running}
use mesos_executor.MesosUtils.{get_label_value}
use mesos_executor.Hook
use mesos_executor.Hook.{Env, before_task_start, handle_event}
use mesos_executor.Command.{
  Command, CmdOption, new_command, start, forward_cmd_output, scrap_cmd_output,
}
use mesos_executor.Executor.{
  Platform, Config, Log, Action, updated, started, checking, numbered, plain, prepare_command_info,
}
use mesos_executor.Executor.Cert.{get_cert_from_env_variables, check_cert}

-- A step that may fail and adds to the log.
abbrev pub M : Type 0 → Type 0
M A = Log → Log × Result A

-- What follows a step, by what the step returned.
abbrev pub proceed : {A B : Type 0} → Log → Result A → (A → M B) → Log × Result B
proceed log (ok a) f = f a log
proceed log (err e) f = (log, err e)
proceed log panic f = (log, panic)

infixl 5 ◌>>=◌ ◌>>◌
abbrev pub ◌>>=◌ : {A B : Type 0} → M A → (A → M B) → M B
◌>>=◌ m f log = proceed (m log).0 (m log).1 f

abbrev pub ◌>>◌ : {A B : Type 0} → M A → M B → M B
m >> k = m >>= λ _. k

abbrev pub emit : Action → M (Unit {0})
emit a log = (a ∷ log, ok tt)

abbrev pub lift : {A : Type 0} → Result A → M A
lift r log = (log, r)

abbrev pub wrap : {A : Type 0} → Str → M A → M A
wrap prefix m log = ((m log).0, wrap_err prefix (m log).1)

unfoldable pub scid_option : Option ℤ → Result CmdOption
scid_option none = err (codes "cannot parse scid: ")
scid_option (some scid) = ok scrap_cmd_output

abbrev pub check_health : Option HealthCheck → M (Unit {0})
check_health none log = (log, ok tt)
check_health (some h) log = (checking h ∷ log, ok tt)

module _ (p : Platform) (cfg : Config) where
  unfoldable pub validate_certificate : TaskInfo → M (Unit {0})
  validate_certificate t =
      if str_eq (get_label_value t (codes "validate-certificate")) (codes "true")
      then wrap (codes "problem with certificate: ") (do
        not_after ← lift (get_cert_from_env_variables p p.environ)
        check_cert p cfg not_after)
      else lift (ok tt)

  unfoldable pub logstash_option : TaskInfo → Result CmdOption
  unfolding scid_option
  logstash_option t = elim (wrap_err (codes "cannot configure service log scraping: ") p.appender) [
    | ok _ ↦ scid_option (atoi (get_label_value t (codes "scId")))
    | err e ↦ err e
    | panic ↦ panic
  ]

  unfoldable pub cmd_option : TaskInfo → Result CmdOption
  unfolding logstash_option
  cmd_option t =
      if str_eq (get_label_value t (codes "log-scraping")) (codes "logstash")
      then logstash_option t
      else ok forward_cmd_output

  abbrev pub run_hooks : Hook.EventType → TaskInfo → Bool → M Env
  run_hooks type t ignore_errors =
      handle_event (numbered 0 p.hooks) (record { type = type; task_info = t }) ignore_errors

  -- cmd.Start, which is logged where it succeeds.
  unfoldable pub start_command : Command → M Command
  start_command c log = elim c.cmd [
    | none ↦ (log, start (p.run log) c)
    | some cmd ↦ elim (start (p.run log) c) [
      | ok c' ↦ (started cmd ∷ log, ok c')
      | err e ↦ (log, err e)
      | panic ↦ (log, panic)
    ]
  ]

  -- launchTask from NewCommand on.
  unfoldable pub start_task : TaskInfo → CmdOption → Env → M Command
  start_task t option hook_env = do
    created ← wrap (codes "cannot create command: ") (
        lift (
          new_command p.environ (prepare_command_info p.program t.executor_command)
            (p.environ ++ hook_env) (option ∷ [])))
    cmd ← wrap (codes "cannot start command: ") (start_command created)
    emit (updated (plain t.task_id task_running))
    check_health t.health_check
    lift (ok cmd)

  unfoldable pub launch_task : TaskInfo → M Command
  launch_task t = do
    emit (updated (plain t.task_id task_starting))
    validate_certificate t
    option ← lift (cmd_option t)
    hook_env ←
        wrap (codes "error running hooks before task start: ") (run_hooks before_task_start t false)
    start_task t option hook_env
