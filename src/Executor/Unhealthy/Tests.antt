-- ===== src/Executor/Unhealthy/Tests.antt =====
-- A task whose check passes once and then finds no server.
use mesos_executor.Common.{
  ℕ, none, List, [], ◌∷◌, ◌++◌, codes, ◌≢◌, refl, inr, ok, err, print_ℕ, arith,
}
use mesos_executor.Executor.{Platform, Config, launch, Event}
use mesos_executor.Executor.Loop.{initial, waiting, task_event_loop}
use mesos_executor.Executor.Unhealthy.{task_event_loop-do_health_checks}
use mesos_executor.Health.Check.{Network, Response, answered, no_answer, exited}
use mesos_executor.Health.Schedule.{Attempt, AttemptPasses, do_health_checks}
use mesos_executor.Samples.{web, ping}

abbrev network : Response → Network
network answer = record {
  ip = none;
  environ = [];
  run = λ cmd timeout. exited;
  dial = λ address timeout. none;
  get = λ url timeout. answer;
  format_duration = print_ℕ;
  default_timeout = 20000000000;
}

abbrev up : ℕ → Attempt
up time = record { network = network (answered 200); time = time }

abbrev down : ℕ → Attempt
down time = record { network = network (no_answer (codes "refused")); time = time }

up_passes : AttemptPasses ping 5 (up 10)
up_passes = (200, refl, omega arith, omega arith)

down_fails : (time : ℕ) → ¬ AttemptPasses ping 5 (down time)
down_fails time (code, e, low, high) = cc

abbrev platform : Platform
platform = record {
  hooks = [];
  environ = [];
  program = codes "/opt/executor";
  pem_decode = λ s. none;
  parse_certificate = λ s. err (codes "malformed");
  format_time = print_ℕ;
  now = λ log. 100;
  random = λ max log. 7;
  appender = ok tt;
  run = λ log cmd. ok 42;
}

abbrev config : Config
config = record {
  kill_policy_grace_period = 5;
  random_expiration_range = 10;
  sigterm_exclude_processes = [];
}

abbrev checks : List Event
checks = do_health_checks ping 0 (up 10 ∷ (down 40 ∷ down 50 ∷ []) ++ down 60 ∷ [])

task_event_loop-do_health_checks_example :
    task_event_loop platform config (launch web ∷ checks) ≢ waiting initial
task_event_loop-do_health_checks_example =
    task_event_loop-do_health_checks platform config ping 5 0 (up 10) (down 40 ∷ down 50 ∷ [])
      (down 60) [] (launch web ∷ checks) initial refl up_passes (down_fails 40, (down_fails 50, tt))
      (down_fails 60) (omega arith) (omega arith) (λ e h. inr h)
