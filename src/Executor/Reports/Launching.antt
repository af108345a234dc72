-- ===== src/Executor/Reports/Launching.antt =====
-- What launchTask reports and starts (executor.go).
use mesos_executor.Common.{
  ℕ, Option, none, some, List, [], ◌∷◌, ◌++◌, Str, codes, str_eq, false, Result, ok, err, panic,
  ◌≡◌, refl, ◌∙◌, ap, arith, Bool-cases, inl, inr, Option-cases, Result-cases, was_ok, was_err,
  was_panic,
}
use mesos_executor.Mesos.{TaskInfo, HealthCheck, task_starting, task_running}
use mesos_executor.MesosUtils.{get_label_value}
use mesos_executor.Hook.{before_task_start, Env}
use mesos_executor.Command.{Command, CmdOption, new_command}
use mesos_executor.Executor.{Platform, Config, Log, Status, updated, plain, prepare_command_info}
use mesos_executor.Executor.Cert.{check_cert, get_cert_from_env_variables}
use mesos_executor.Executor.Launch.{
  check_health, validate_certificate, cmd_option, run_hooks, start_command, start_task, launch_task,
}
use mesos_executor.Executor.Reports.{reports, reports-run_hooks}

-- The reports on top of `before`, where the result is a command and where it is not.
abbrev pub on_success : Str → List Status → Result Command → List Status
on_success id before (ok c) = plain id task_running ∷ before
on_success id before (err e) = before
on_success id before panic = before

module _ (p : Platform) (cfg : Config) where
  reports-check_cert : (n : ℕ) (log : Log) → reports (check_cert p cfg n log).0 ≡ reports log
  unfolding check_cert
  reports-check_cert n log = ground arith

  reports-validate_certificate :
      (t : TaskInfo) (log : Log) → reports (validate_certificate p cfg t log).0 ≡ reports log
  unfolding validate_certificate
  reports-validate_certificate t log =
      elim (Bool-cases (str_eq (get_label_value t (codes "validate-certificate")) (codes "true"))) [
        | inl asked ↦ rw asked (elim (Result-cases (get_cert_from_env_variables p p.environ)) [
          | was_ok n e ↦ rw e (reports-check_cert n log)
          | was_err m e ↦ rw e
          | was_panic e ↦ rw e
        ])
        | inr skipped ↦ rw skipped
      ]

  reports-start_command :
      (c : Command) (log : Log) → reports (start_command p cfg c log).0 ≡ reports log
  unfolding start_command
  reports-start_command c log = ground arith

  reports-check_health :
      (h : Option HealthCheck) (log : Log) → reports (check_health h log).0 ≡ reports log
  reports-check_health none log = refl
  reports-check_health (some h) log = refl

  start_task-reports :
      (t : TaskInfo) (option : CmdOption) (env : Env) (log : Log)
      → let r = start_task p cfg t option env log in
        reports r.0 ≡ on_success t.task_id (reports log) r.1
  unfolding start_task
  start_task-reports t option env log =
      elim (Result-cases (
        new_command p.environ (prepare_command_info p.program t.executor_command) (p.environ ++ env)
          (option ∷ []))) [
            | was_err m e1 ↦ rw e1
            | was_panic e1 ↦ rw e1
            | was_ok created e1 ↦ rw e1 (elim (Result-cases (start_command p cfg created log).1) [
              | was_err m e2 ↦ rw e2 (reports-start_command created log)
              | was_panic e2 ↦ rw e2 (reports-start_command created log)
              | was_ok c e2 ↦ rw e2 (elim (Option-cases t.health_check) [
                | inl e3 ↦
                    rw e3 (
                      ap (λ l. plain t.task_id task_running ∷ l)
                        (reports-start_command created log))
                | inr (h, e3) ↦
                    rw e3 (
                      ap (λ l. plain t.task_id task_running ∷ l)
                        (reports-start_command created log))
              ])
            ])
          ]

  -- TASK_STARTING is reported in any case, and TASK_RUNNING after it if and only if the task was launched.
  pub launch_task-reports :
      (t : TaskInfo) (log : Log)
      → let r = launch_task p cfg t log in
        reports r.0 ≡ on_success t.task_id (plain t.task_id task_starting ∷ reports log) r.1
  unfolding launch_task
  launch_task-reports t log =
      let log1 : Log = updated (plain t.task_id task_starting) ∷ log in
      let v = reports-validate_certificate t log1 in
      let log2 : Log = (validate_certificate p cfg t log1).0 in
      let h = reports-run_hooks p cfg before_task_start t false log2 ∙ v in
      let log3 : Log = (run_hooks p cfg before_task_start t false log2).0 in
      elim (Result-cases (validate_certificate p cfg t log1).1) [
        | was_err m e1 ↦ rw e1 v
        | was_panic e1 ↦ rw e1 v
        | was_ok u e1 ↦ rw e1 (elim (Result-cases (cmd_option p cfg t)) [
          | was_err m e2 ↦ rw e2 v
          | was_panic e2 ↦ rw e2 v
          | was_ok option e2 ↦
              rw e2 (elim (Result-cases (run_hooks p cfg before_task_start t false log2).1) [
                | was_err m e3 ↦ rw e3 h
                | was_panic e3 ↦ rw e3 h
                | was_ok env e3 ↦ rw e3 (
                    start_task-reports t option env log3
                    ∙ ap (λ l. on_success t.task_id l (start_task p cfg t option env log3).1) h)
              ])
        ])
      ]
