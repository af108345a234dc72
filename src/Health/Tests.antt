-- ===== src/Health/Tests.antt =====
-- The health checker at concrete results.
use mesos_executor.Common.{ℕ, none, some, List, [], ◌∷◌, Str, codes, ◌≡◌, refl, ◌↔◌, arith, print_ℕ}
use mesos_executor.Executor.{failed_due_to_unhealthy}
use mesos_executor.Health.{CheckResult, handle_result}
use mesos_executor.Health.Streak.{after, handle_result-history}
use mesos_executor.Health.Check.{
  Network, exited, answered, perform_check, Passes, perform_check-Passes,
}
use mesos_executor.Samples.{ping}

abbrev refused : Str
refused = codes "connection refused"

abbrev failure_at : ℕ → CheckResult
failure_at time = record { error = some refused; time = time }

abbrev pass_at : ℕ → CheckResult
pass_at time = record { error = none; time = time }

-- The failure in the grace period does not count; the two after the pass do.
abbrev before_third : List CheckResult
before_third = failure_at 60 ∷ failure_at 50 ∷ pass_at 40 ∷ failure_at 20 ∷ []

handle_result-history_example :
    (handle_result ping 0 (some refused) 70 (after ping 0 before_third)).1
    ≡ some (failed_due_to_unhealthy refused)
handle_result-history_example =
    handle_result-history ping 0 (failure_at 70) before_third (omega arith)

abbrev network : Network
network = record {
  ip = none;
  environ = [];
  run = λ cmd timeout. exited;
  dial = λ address timeout. none;
  get = λ url timeout. answered 204;
  format_duration = print_ℕ;
  default_timeout = 20000000000;
}

perform_check-Passes_example :
    (perform_check network ping ≡ none) ↔ Passes network ping 5 ping.command ping.http ping.tcp
perform_check-Passes_example = perform_check-Passes network ping 5 refl
