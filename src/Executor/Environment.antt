-- ===== src/Executor/Environment.antt =====
-- The environment of the task's command (executor.go, command.go), and the expiry of its
-- certificate (cert.go).
use mesos_executor.Common.{
  trim_prefix-cases, keep, not, has_prefix, ◌≢◌, ok_inj, ℕ, ◌+◌, ◌-◌, ◌≤◌, ◌<◌, Option, some, List,
  [], ◌∷◌, ◌++◌, Str, ok, err, ◌≡◌, refl, sym, ap, ◌⊎◌, inl, inr, arith, In, In-append_left,
  In-append_right, subst, false, Bool-cases, leb, Result-cases, was_ok, was_err, was_panic,
  Option-cases, err≢ok, panic≢ok, str_eq, codes, atoi,
}
use mesos_executor.Mesos.{CommandInfo, TaskInfo, task_starting}
use mesos_executor.MesosUtils.{get_label_value}
use mesos_executor.Hook.{before_task_start}
use mesos_executor.Command.{
  Cmd, Command, CmdOption, Output, forwarded, scraped, start, new_command,
  env_without_executor_config, forward_cmd_output, scrap_cmd_output,
}
use mesos_executor.Executor.{
  prepare_command_info, plain, updated, Platform, Config, Log, scheduled,
  failed_due_to_expired_certificate,
}
use mesos_executor.Executor.Cert.{check_cert, expired_message}
use mesos_executor.Executor.Launch.{
  cmd_option, logstash_option, scid_option, run_hooks, start_command, start_task, launch_task,
  validate_certificate,
}

-- The two output options set nothing but the output.
abbrev KeepsCmd : CmdOption → Type 0
KeepsCmd option = (o : Output) × ((cmd : Cmd) → option cmd ≡ ok (record cmd { output = o }))

forward-KeepsCmd : {option : CmdOption} → ok forward_cmd_output ≡ ok option → KeepsCmd option
forward-KeepsCmd h =
    let e : forward_cmd_output ≡ _ = cc in subst KeepsCmd e (forwarded, λ cmd. refl)

scrap-KeepsCmd : {option : CmdOption} → ok scrap_cmd_output ≡ ok option → KeepsCmd option
scrap-KeepsCmd h = let e : scrap_cmd_output ≡ _ = cc in subst KeepsCmd e (scraped, λ cmd. refl)

module _ (p : Platform) (cfg : Config) where
  logstash-KeepsCmd :
      (t : TaskInfo) {option : CmdOption} → logstash_option p cfg t ≡ ok option → KeepsCmd option
  unfolding logstash_option scid_option
  logstash-KeepsCmd t h = elim (Result-cases p.appender) [
    | was_ok u e ↦ elim (Option-cases (atoi (get_label_value t (codes "scId")))) [
      | inl bad ↦ absurd (err≢ok (rw (e, bad, logstash_option, scid_option) at h))
      | inr (scid, good) ↦ scrap-KeepsCmd (rw (e, good, logstash_option, scid_option) at h)
    ]
    | was_err m e ↦ absurd (err≢ok (rw (e, logstash_option) at h))
    | was_panic e ↦ absurd (panic≢ok (rw (e, logstash_option) at h))
  ]

  cmd_option-KeepsCmd :
      (t : TaskInfo) {option : CmdOption} → cmd_option p cfg t ≡ ok option → KeepsCmd option
  unfolding cmd_option
  cmd_option-KeepsCmd t h =
      elim (Bool-cases (str_eq (get_label_value t (codes "log-scraping")) (codes "logstash"))) [
        | inl scrap ↦ logstash-KeepsCmd t (rw (scrap, cmd_option) at h)
        | inr forward ↦ forward-KeepsCmd (rw (forward, cmd_option) at h)
      ]

  -- What Marathon puts before the command line.
  abbrev pub marathon_prefix : Str
  marathon_prefix =
      codes "chmod ug+rx '" ++ p.program ++ codes "' && exec '" ++ p.program ++ codes "' "

  -- A command line with Marathon's prefix runs without it, any other as it is.
  abbrev pub RunsLine : Str → Str → Type 0
  RunsLine value line =
      ((rest : Str) × (value ≡ marathon_prefix ++ rest) × (line ≡ rest))
      ⊎ (((rest : Str) → value ≢ marathon_prefix ++ rest) × (line ≡ value))

  -- The command line and the environment of a command that was made for the task.
  abbrev pub RunsTask : TaskInfo → List Str → Option Cmd → Type 0
  RunsTask t hook_env c =
      (cmd : Cmd) × (c ≡ some cmd)
      × RunsLine t.executor_command.value cmd.line
      × (cmd.env
          ≡ keep (λ v. not (has_prefix v (codes "ALLEGRO_EXECUTOR"))) p.environ
            ++ (p.environ ++ hook_env))

  prepared-RunsLine :
      (info : CommandInfo) → RunsLine info.value (prepare_command_info p.program info).value
  unfolding prepare_command_info
  prepared-RunsLine info = trim_prefix-cases info.value marathon_prefix

  new_command-RunsTask :
      (t : TaskInfo) (hook_env : List Str) (option : CmdOption) {c : Command}
      → KeepsCmd option
      → new_command p.environ
          (prepare_command_info p.program t.executor_command)
          (p.environ ++ hook_env)
          (option ∷ [])
        ≡ ok c
      → RunsTask t hook_env c.cmd
  unfolding new_command env_without_executor_config
  new_command-RunsTask t hook_env option (output, keeps) h =
      let cmd : Cmd = record {
        line = (prepare_command_info p.program t.executor_command).value;
        env = env_without_executor_config p.environ ++ (p.environ ++ hook_env);
        output = output;
      } in
      let made : ok (record { cmd = some cmd; pid = 0; killing = false }) ≡ _ = rw keeps at h in
      (cmd, sym (ap (λ c. c.cmd) (ok_inj made)), prepared-RunsLine t.executor_command, refl)

  start_command-cmd :
      (created : Command) (log : Log) {c : Command}
      → (start_command p cfg created log).1 ≡ ok c
      → c.cmd ≡ created.cmd
  unfolding start_command start
  start_command-cmd created log h = ground arith

  start_task-RunsTask :
      (t : TaskInfo) (option : CmdOption) (hook_env : List Str) (log : Log) {c : Command}
      → KeepsCmd option
      → (start_task p cfg t option hook_env log).1 ≡ ok c
      → RunsTask t hook_env c.cmd
  unfolding start_task
  start_task-RunsTask t option hook_env log k =
      elim (Result-cases (
        new_command p.environ (prepare_command_info p.program t.executor_command)
          (p.environ ++ hook_env) (option ∷ []))) [
            | was_err m e1 ↦ rw e1 (λ h. absurd (err≢ok h))
            | was_panic e1 ↦ rw e1 (λ h. absurd (panic≢ok h))
            | was_ok created e1 ↦
                let made = new_command-RunsTask t hook_env option k e1 in
                rw e1 (elim (Result-cases (start_command p cfg created log).1) [
                  | was_err m e2 ↦ rw e2 (λ h. absurd (err≢ok h))
                  | was_panic e2 ↦ rw e2 (λ h. absurd (panic≢ok h))
                  | was_ok c e2 ↦
                      let same = start_command-cmd created log e2 in
                      rw e2 (elim (Option-cases t.health_check) [
                        | inl e3 ↦ rw e3 (λ h. rw (← ap (λ c. c.cmd) (ok_inj h), same) made)
                        | inr (check, e3) ↦
                            rw e3 (λ h. rw (← ap (λ c. c.cmd) (ok_inj h), same) made)
                      ])
                ])
          ]

  -- A launched task runs its command line, without Marathon's prefix (chmod ug+rx 'E' && exec 'E' for
  -- the executor E) where that has it; the environment is the
  -- executor's without the entries that have the executor's prefix, then the executor's once more,
  -- whole, and then the variables that the hooks returned for BeforeTaskStart.
  pub launch_task-RunsTask :
      (t : TaskInfo) (log : Log) {c : Command}
      → (launch_task p cfg t log).1 ≡ ok c
      → (before : Log) × (hook_env : List Str) × ((run_hooks p cfg before_task_start t false
            before).1
          ≡ ok hook_env)
        × RunsTask t hook_env c.cmd
  unfolding launch_task
  launch_task-RunsTask t log =
      let log2 : Log =
        (validate_certificate p cfg t (updated (plain t.task_id task_starting) ∷ log)).0 in
      elim (Result-cases
        (validate_certificate p cfg t (updated (plain t.task_id task_starting) ∷ log)).1) [
          | was_err m e1 ↦ rw e1 (λ h. absurd (err≢ok h))
          | was_panic e1 ↦ rw e1 (λ h. absurd (panic≢ok h))
          | was_ok u e1 ↦ rw e1 (elim (Result-cases (cmd_option p cfg t)) [
            | was_err m e2 ↦ rw e2 (λ h. absurd (err≢ok h))
            | was_panic e2 ↦ rw e2 (λ h. absurd (panic≢ok h))
            | was_ok option e2 ↦
                rw e2 (elim (Result-cases (run_hooks p cfg before_task_start t false log2).1) [
                  | was_err m e3 ↦ rw e3 (λ h. absurd (err≢ok h))
                  | was_panic e3 ↦ rw e3 (λ h. absurd (panic≢ok h))
                  | was_ok env e3 ↦ rw e3 (λ h. (
                    log2,
                    env,
                    e3,
                    start_task-RunsTask t option env _ (cmd_option-KeepsCmd t e2) h,
                  ))
                ])
          ])
        ]

  -- So every entry of the executor's environment reaches the task, those with the executor's
  -- prefix included.
  launch_task-inherits :
      (t : TaskInfo) (log : Log) {c : Command} (v : Str)
      → (launch_task p cfg t log).1 ≡ ok c
      → In v p.environ
      → (cmd : Cmd) × (c.cmd ≡ some cmd) × In v cmd.env
  unfolding env_without_executor_config
  launch_task-inherits t log v h m =
      let (before, hook_env, _, (cmd, e, line, env)) = launch_task-RunsTask t log h in
      (
        cmd,
        e,
        rw env (
            In-append_right v (env_without_executor_config p.environ) _
              (In-append_left v p.environ hook_env m)),
      )

module _ (p : Platform) (cfg : Config) where
  abbrev used_time : Log → ℕ
  used_time log = p.now log + p.random cfg.random_expiration_range log

  -- A certificate that is valid for longer than the random delay schedules one kill of the task,
  -- which comes before the certificate expires by exactly that delay; any other is refused, and
  -- nothing is scheduled.
  pub check_cert_lem :
      (not_after : ℕ) (log : Log)
      → ((not_after ≤ used_time log)
          × (check_cert p cfg not_after log ≡ (log, err (expired_message p not_after))))
        ⊎ ((d : ℕ) × (0 < d)
            × (p.now log + d + p.random cfg.random_expiration_range log ≡ not_after)
            × ((check_cert p cfg not_after log).1 ≡ ok tt)
            × ((check_cert p cfg not_after log).0
                ≡ scheduled d (failed_due_to_expired_certificate (codes "Certificate expired"))
                  ∷ log))
  unfolding check_cert
  check_cert_lem not_after log = elim (Bool-cases (leb not_after (used_time log))) [
    | inl late ↦ rw late (inl (ground arith, refl))
    | inr soon ↦ rw soon (inr (not_after - used_time log, ground arith, ground arith, refl, refl))
  ]
