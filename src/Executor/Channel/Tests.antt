-- ===== src/Executor/Channel/Tests.antt =====
-- A Kill event that arrives before the launch, and one event behind it.
use mesos_executor.Common.{[], codes, none, err, ok, print_ℕ, refl, arith, length, ◌<◌, ◌↔◌}
use mesos_executor.Executor.{Platform, Config, Event, kill, healthy}
use mesos_executor.Executor.Loop.{initial}
use mesos_executor.Executor.Channel.{
  Channel, new_channel, put, take, Moves, move, no_move, sends, receives,
}
use mesos_executor.Executor.Channel.Order.{IsOrdered, Accepts, Moves-Counted}
use mesos_executor.Executor.Channel.Stuck.{IsHalted, ending-IsHalted}
use mesos_executor.Executor.Reports.Final.{Counted}

abbrev platform : Platform
platform = record {
  hooks = [];
  environ = [];
  program = codes "/opt/executor";
  pem_decode = λ s. none;
  parse_certificate = λ s. err (codes "malformed");
  format_time = print_ℕ;
  now = λ log. 100;
  random = λ max log. 7;
  appender = ok tt;
  run = λ log cmd. ok 42;
}

abbrev config : Config
config = record {
  kill_policy_grace_period = 5;
  random_expiration_range = 10;
  sigterm_exclude_processes = [];
}

abbrev last_kill : Event
last_kill = kill (codes "web.1")

abbrev killed : Channel
killed = take platform config last_kill [] initial (put last_kill new_channel)

run_to_killed : Moves platform config new_channel killed
unfolding put
run_to_killed =
    move (move no_move (sends new_channel last_kill (omega arith)))
      (receives (put last_kill new_channel) initial last_kill [] refl refl)

Moves-Counted_example :
    IsOrdered platform config killed
    × Counted 0 killed.outcome
    × ((e : Event) → Accepts platform config killed e ↔ (length killed.queue < 128))
unfolding put take
Moves-Counted_example = Moves-Counted platform config run_to_killed (refl, tt)

ending-IsHalted_example :
    IsHalted killed (put healthy killed)
    × ((e : Event)
        → Accepts platform config (put healthy killed) e
          ↔ (length (put healthy killed).queue < 128))
unfolding put take
ending-IsHalted_example =
    ending-IsHalted platform config [] last_kill [] refl run_to_killed refl
      (move no_move (sends killed healthy (omega arith)))
