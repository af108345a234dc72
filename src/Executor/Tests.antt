-- ===== src/Executor/Tests.antt =====
-- The executor at the sample task: one hook, which grants a variable, and a command that starts
-- as process 42.
use mesos_executor.Common.{
  ◌++◌, ℕ, str_eq, trim_prefix, has_prefix, none, some, List, [], ◌∷◌, Str, codes, true, false, ◌≡◌,
  refl, ◌≢◌, ◌≤◌, ok, err, Result, print_ℕ,
}
use mesos_executor.Mesos.{task_killing, TaskInfo, task_starting, task_killed}
use mesos_executor.Hook
use mesos_executor.Hook.{handle_event, Env, before_terminate, after_task_healthy, before_task_start}
use mesos_executor.Command.{
  Cmd, Command, forwarded, new_command, start, env_without_executor_config,
}
use mesos_executor.Executor.{
  updated, numbered, prepare_command_info, Platform, Config, Log, Event, healthy, kill, shutdown,
  launch, plain, with_message, stopped,
}
use mesos_executor.Executor.Launch.{
  launch_task, run_hooks, start_task, start_command, validate_certificate, cmd_option,
}
use mesos_executor.Executor.Loop.{
  State, waiting, initial, handle, event_loop, task_event_loop, shut_down, shutdown_message,
}
use mesos_executor.Executor.Effects.{IsGraceOf, called, shut_down-order}
use mesos_executor.Executor.Reports.{reports}
use mesos_executor.Executor.Reports.Launching.{on_success, launch_task-reports}
use mesos_executor.Executor.Reports.Final.{Counted, task_event_loop-Counted}
use mesos_executor.Executor.Hooks.{healthy_calls, task_event_loop-healthy_once, log_of}
use mesos_executor.Executor.Ending.{WaitsWith, shutdown-WaitsWith, event_loop-ends}
use mesos_executor.Executor.Environment.{RunsTask, launch_task-RunsTask}
use mesos_executor.MesosUtils.{get_label_value, find_label}
use mesos_executor.Samples.{web, sleep}

abbrev granting : Hook.Event → Log → Result Env
granting event log = ok (codes "A=1" ∷ [])

abbrev platform : Platform
platform = record {
  hooks = granting ∷ [];
  environ = codes "ALLEGRO_EXECUTOR_DEBUG=1" ∷ codes "HOME=/" ∷ [];
  program = codes "/opt/executor";
  pem_decode = λ s. none;
  parse_certificate = λ s. err (codes "malformed");
  format_time = print_ℕ;
  now = λ log. 100;
  random = λ max log. 7;
  appender = ok tt;
  run = λ log cmd. ok 42;
}

abbrev config : Config
config = record {
  kill_policy_grace_period = 5;
  random_expiration_range = 10;
  sigterm_exclude_processes = [];
}

abbrev started_then_killed : List Event
started_then_killed = launch web ∷ healthy ∷ healthy ∷ kill (codes "web.1") ∷ []

task_event_loop-Counted_example : Counted 0 (task_event_loop platform config started_then_killed)
task_event_loop-Counted_example =
    task_event_loop-Counted platform config started_then_killed (refl, (refl, (refl, (refl, tt))))

task_event_loop-healthy_once_example :
    healthy_calls 0 (log_of (task_event_loop platform config started_then_killed)) ≤ 1
task_event_loop-healthy_once_example =
    task_event_loop-healthy_once platform config 0 started_then_killed

event_loop-ends_example :
    event_loop platform config (launch web ∷ kill (codes "web.1") ∷ healthy ∷ []) initial
    ≢ waiting initial
event_loop-ends_example =
    event_loop-ends platform config (launch web ∷ []) (kill (codes "web.1")) (healthy ∷ []) initial
      initial refl

abbrev command : Command
command = record { cmd = none; pid = 42; killing = false }

abbrev running : State
running = record initial { task = some web; cmd = some command }

abbrev termination : Hook.Event
termination = record { type = before_terminate; task_info = web }

-- A framework with TASK_KILLING_STATE among its capabilities, and a task with a kill policy.
abbrev patient : TaskInfo
patient = record web { kill_grace = 30 }

abbrev announcing : State
announcing = record running { framework = false ∷ true ∷ []; task = some patient }

shut_down-order_example :
    (grace : ℕ) × IsGraceOf config patient grace
    × (shut_down platform config announcing waiting
        ≡ waiting (record announcing {
          cmd = some (record command { killing = true });
          log =
              stopped 42 grace []
              ∷ (called 0 1 (record { type = before_terminate; task_info = patient })
                  ++ updated (plain (codes "web.1") task_killing) ∷ []);
        }))
shut_down-order_example =
    shut_down-order platform config announcing patient command waiting ((λ event log h. cc), tt)
      refl refl

launch_task-reports_example :
    reports (launch_task platform config web []).0
    ≡ on_success
        (codes "web.1")
        (plain (codes "web.1") task_starting ∷ [])
        (launch_task platform config web []).1
launch_task-reports_example = launch_task-reports platform config web []

shutdown-WaitsWith_example :
    WaitsWith
      (with_message [] task_killed shutdown_message)
      (handle platform config shutdown running)
shutdown-WaitsWith_example = shutdown-WaitsWith platform config running web refl

abbrev launched_cmd : Cmd
launched_cmd = record {
  line = codes "sleep 100";
  env = codes "HOME=/" ∷ codes "ALLEGRO_EXECUTOR_DEBUG=1" ∷ codes "HOME=/" ∷ codes "A=1" ∷ [];
  output = forwarded;
}

abbrev launched_command : Command
launched_command = record { cmd = some launched_cmd; pid = 42; killing = false }

-- The task as Marathon starts it.
abbrev marathon : TaskInfo
marathon = record web {
  executor_command = record sleep {
    value = codes "chmod ug+rx '/opt/executor' && exec '/opt/executor' sleep 100";
  };
}

launch_task_runs : (launch_task platform config marathon []).1 ≡ ok launched_command
unfolding launch_task start_task start_command validate_certificate cmd_option new_command start
    numbered prepare_command_info env_without_executor_config handle_event get_label_value
    find_label str_eq trim_prefix has_prefix
launch_task_runs = refl

launch_task-RunsTask_example :
    (before : Log) × (hook_env : List Str) × ((run_hooks platform config before_task_start marathon
        false before).1
      ≡ ok hook_env)
    × RunsTask platform config marathon hook_env (some launched_cmd)
launch_task-RunsTask_example = launch_task-RunsTask platform config marathon [] launch_task_runs
