-- ===== src/Executor/Keeps.antt =====
-- What launchTask leaves as it was (executor.go): a statement about the log that holds on through
-- each of its effects holds on through the whole.
use mesos_executor.Common.{
  [], ◌∷◌, ◌++◌, codes, str_eq, false, Result-cases, was_ok, was_err, was_panic, Option-cases,
  Bool-cases, inl, inr, ℕ, leb, ◌+◌,
}
use mesos_executor.Mesos.{TaskInfo, HealthCheck, task_starting}
use mesos_executor.MesosUtils.{get_label_value}
use mesos_executor.Hook.{Env, before_task_start}
use mesos_executor.Command.{Cmd, Command, CmdOption, new_command, start}
use mesos_executor.Executor.{
  Platform, Config, Log, Status, Event, updated, started, scheduled, checking, plain,
  prepare_command_info,
}
use mesos_executor.Executor.Cert.{check_cert, get_cert_from_env_variables}
use mesos_executor.Executor.Launch.{
  run_hooks, launch_task, start_task, start_command, validate_certificate, cmd_option,
}

module _ (p : Platform) (cfg : Config) (P : Log → Type 0) where
  -- The statement holds on through each effect.
  pub record Kept : Type 0 where
    pub updates : (s : Status) (log : Log) → P log → P (updated s ∷ log)
    pub schedules : (d : ℕ) (e : Event) (log : Log) → P log → P (scheduled d e ∷ log)
    pub starts : (c : Cmd) (log : Log) → P log → P (started c ∷ log)
    pub checks : (h : HealthCheck) (log : Log) → P log → P (checking h ∷ log)
    pub calls :
        (t : TaskInfo) (log : Log) → P log → P (run_hooks p cfg before_task_start t false log).0

module _ (p : Platform) (cfg : Config) (P : Log → Type 0) (k : Kept p cfg P) where
  check_cert-keeps : (n : ℕ) (log : Log) → P log → P (check_cert p cfg n log).0
  unfolding check_cert
  check_cert-keeps n log h =
      elim (Bool-cases (leb n (p.now log + p.random cfg.random_expiration_range log))) [
        | inl late ↦ rw late h
        | inr soon ↦ rw soon (k.schedules _ _ log h)
      ]

  validate_certificate-keeps :
      (t : TaskInfo) (log : Log) → P log → P (validate_certificate p cfg t log).0
  unfolding validate_certificate
  validate_certificate-keeps t log h =
      elim (Bool-cases (str_eq (get_label_value t (codes "validate-certificate")) (codes "true"))) [
        | inl asked ↦ rw asked (elim (Result-cases (get_cert_from_env_variables p p.environ)) [
          | was_ok n e ↦ rw e (check_cert-keeps n log h)
          | was_err m e ↦ rw e h
          | was_panic e ↦ rw e h
        ])
        | inr skipped ↦ rw skipped h
      ]

  start_command-keeps : (c : Command) (log : Log) → P log → P (start_command p cfg c log).0
  unfolding start_command
  start_command-keeps c log h = elim (Option-cases c.cmd) [
    | inl e ↦ rw (e, start_command) h
    | inr (cmd, e) ↦
        rw (e, start_command)
          (elim (Result-cases (start (p.run log) c)) [
            | was_ok c' f ↦ rw f (k.starts cmd log h)
            | was_err m f ↦ rw f h
            | was_panic f ↦ rw f h
          ])
  ]

  start_task-keeps :
      (t : TaskInfo) (option : CmdOption) (env : Env) (log : Log)
      → P log
      → P (start_task p cfg t option env log).0
  unfolding start_task
  start_task-keeps t option env log h =
      elim (Result-cases (
        new_command p.environ (prepare_command_info p.program t.executor_command) (p.environ ++ env)
          (option ∷ []))) [
            | was_err m e1 ↦ rw e1 h
            | was_panic e1 ↦ rw e1 h
            | was_ok created e1 ↦
                let s = start_command-keeps created log h in
                rw e1 (elim (Result-cases (start_command p cfg created log).1) [
                  | was_err m e2 ↦ rw e2 s
                  | was_panic e2 ↦ rw e2 s
                  | was_ok c e2 ↦ rw e2 (elim (Option-cases t.health_check) [
                    | inl e3 ↦ rw e3 (k.updates _ _ s)
                    | inr (check, e3) ↦ rw e3 (k.checks check _ (k.updates _ _ s))
                  ])
                ])
          ]

  -- The statement holds of the log that launchTask leaves, if it held before.
  pub launch_task-keeps : (t : TaskInfo) (log : Log) → P log → P (launch_task p cfg t log).0
  unfolding launch_task
  launch_task-keeps t log before =
      let v =
        validate_certificate-keeps t _ (k.updates (plain t.task_id task_starting) log before) in
      let log2 : Log =
        (validate_certificate p cfg t (updated (plain t.task_id task_starting) ∷ log)).0 in
      let h = k.calls t log2 v in
      elim (Result-cases
        (validate_certificate p cfg t (updated (plain t.task_id task_starting) ∷ log)).1) [
          | was_err m e1 ↦ rw e1 v
          | was_panic e1 ↦ rw e1 v
          | was_ok u e1 ↦ rw e1 (elim (Result-cases (cmd_option p cfg t)) [
            | was_err m e2 ↦ rw e2 v
            | was_panic e2 ↦ rw e2 v
            | was_ok option e2 ↦
                rw e2 (elim (Result-cases (run_hooks p cfg before_task_start t false log2).1) [
                  | was_err m e3 ↦ rw e3 h
                  | was_panic e3 ↦ rw e3 h
                  | was_ok env e3 ↦ rw e3 (start_task-keeps t option env _ h)
                ])
          ])
        ]
