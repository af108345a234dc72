-- ===== src/Health.antt =====
-- health_checker.go: the loop over the results of the health check, and the checks. Times are in
-- nanoseconds; the timers of DoHealthChecks decide when the checks are made.
pub mod Results
pub mod Check
pub mod Streak
pub mod Schedule
mod Tests
use mesos_executor.Common.{
  ℕ, Option, none, some, List, [], ◌∷◌, ◌++◌, Str, Bool, true, false, ◌&&◌, ◌||◌, if◌then◌else◌,
  ltb, leb, ◌==◌, ◌-◌, ◌%◌, ◌+◌, ◌^◌,
}
use mesos_executor.Mesos.{HealthCheck}
use mesos_executor.Executor.{Event, healthy, unhealthy, failed_due_to_unhealthy}

-- A result of the check: none for a pass, or the message of the error; and the time it is handled.
pub record CheckResult : Type 0 where
  pub error : Option Str
  pub time : ℕ

pub record Checker : Type 0 where
  pub never_passed_before : Bool
  -- uint32
  pub consecutive_failures : ℕ

abbrev pub new_checker : Checker
new_checker = record { never_passed_before = true; consecutive_failures = 0 }

-- time.Now().Truncate(delay), for a time since Go's zero time.
unfoldable pub start_time : ℕ → ℕ → ℕ
start_time now delay = if delay == 0 then now else now - now % delay

-- Whether a failure is handled within the grace period.
unfoldable pub in_grace : HealthCheck → ℕ → ℕ → Bool
in_grace check start time = ltb (time - start) check.grace_period

abbrev pub uint32_mod : ℕ
uint32_mod = 4294967296

fail : HealthCheck → Str → Checker → Checker × Option Event
fail check m c =
    let failures = (c.consecutive_failures + 1) % uint32_mod in
    (
      record c { consecutive_failures = failures },
      some (
          if leb check.consecutive_failures failures
          then failed_due_to_unhealthy m
          else unhealthy m),
    )

pass : Checker → Checker × Option Event
pass c = (
  record { never_passed_before = false; consecutive_failures = 0 },
  if c.never_passed_before || ltb 0 c.consecutive_failures then some healthy else none,
)

-- One round of the loop of handleHealthResults: the new state, and the event that is sent.
unfoldable pub handle_result : HealthCheck → ℕ → Option Str → ℕ → Checker → Checker × Option Event
unfolding fail pass
handle_result check start none time c = pass c
handle_result check start (some m) time c =
    if c.never_passed_before && in_grace check start time then (c, none) else fail check m c

abbrev cons_event : Option Event → List Event → List Event
cons_event none events = events
cons_event (some e) events = e ∷ events

-- The events that the loop sends for the results that arrive, oldest first.
unfoldable pub handle_health_results : HealthCheck → ℕ → List CheckResult → Checker → List Event
handle_health_results check start [] c = []
handle_health_results check start (r ∷ rs) c =
    let (c', event) = handle_result check start r.error r.time c in
    cons_event event (handle_health_results check start rs c')
