-- ===== src/Health/Results.antt =====
-- What handleHealthResults (health_checker.go) sends over a whole run of the loop.
use mesos_executor.Common.{
  ℕ, ◌+◌, ◌≤◌, ◌<◌, Option, none, some, List, [], ◌∷◌, ◌++◌, Str, Bool, true, false, ◌&&◌, ◌||◌,
  if◌then◌else◌, ltb, leb, ◌≡◌, arith, length, inl, inr, In, All,
}
use mesos_executor.Mesos.{HealthCheck}
use mesos_executor.Executor.{Event, healthy, unhealthy, failed_due_to_unhealthy}
use mesos_executor.Health.{
  CheckResult, Checker, new_checker, uint32_mod, handle_result, cons_event, handle_health_results,
}

abbrev is_healthy : Event → Bool
is_healthy healthy = true
is_healthy _ = false

abbrev pub starts_healthy : List Event → Bool
starts_healthy [] = false
starts_healthy (e ∷ es) = is_healthy e

-- No two Healthy events stand next to each other.
abbrev pub Alternates : List Event → Type 0
Alternates [] = Unit
Alternates (e ∷ es) = ((is_healthy e && starts_healthy es) ≡ false) × Alternates es

module _ (check : HealthCheck) (start : ℕ) where
  -- Right after a pass the next event is not Healthy.
  abbrev settled : Checker → Bool
  settled c = if c.never_passed_before || ltb 0 c.consecutive_failures then false else true

  abbrev Fits : Checker → List Event → Type 0
  Fits c events = ((settled c && starts_healthy events) ≡ false) × Alternates events

  cons-Fits :
      (e : Option Str) (time : ℕ) (c : Checker) (events : List Event)
      → Fits (handle_result check start e time c).0 events
      → Fits c (cons_event (handle_result check start e time c).1 events)
  unfolding handle_result
  cons-Fits none time c events h = ground arith
  cons-Fits (some m) time c events h = ground arith

  results-Fits :
      (rs : List CheckResult) (c : Checker) → Fits c (handle_health_results check start rs c)
  unfolding handle_health_results
  results-Fits [] c = ground arith
  results-Fits (r ∷ rs) c =
      cons-Fits r.error r.time c _ (results-Fits rs (handle_result check start r.error r.time c).0)

  -- Whatever results arrive and when, Healthy is never sent twice in a row: some failure is sent
  -- between any two of them.
  pub handle_health_results-Alternates :
      (rs : List CheckResult) → Alternates (handle_health_results check start rs new_checker)
  handle_health_results-Alternates rs = (results-Fits rs new_checker).1

  abbrev pub Fails : CheckResult → Type 0
  Fails r = (m : Str) × (r.error ≡ some m)

  -- The event of a counted failure.
  abbrev failure_event : Str → ℕ → Event
  failure_event m n =
      if leb check.consecutive_failures n then failed_due_to_unhealthy m else unhealthy m

  failure-counts :
      (m : Str) (time : ℕ) (c : Checker)
      → c.never_passed_before ≡ false
      → c.consecutive_failures + 1 < uint32_mod
      → handle_result check start (some m) time c ≡ (
        record c { consecutive_failures = c.consecutive_failures + 1 },
        some (failure_event m (c.consecutive_failures + 1)),
      )
  unfolding handle_result
  failure-counts m time c h b = ground arith

  -- Once a check has passed, as many failures in a row as are configured (no pass between them, and
  -- fewer than 2 ^ 32 in all) lead to FailedDueToUnhealthy with the message of the last of them.
  pub failures-kill :
      (rs : List CheckResult) (m : Str) (time : ℕ) (later : List CheckResult) (c : Checker)
      → c.never_passed_before ≡ false
      → All Fails rs
      → check.consecutive_failures ≤ c.consecutive_failures + length rs + 1
      → c.consecutive_failures + length rs + 1 < uint32_mod
      → In (failed_due_to_unhealthy m) (
          handle_health_results check start
            (rs ++ record { error = some m; time = time } ∷ later)
            c)
  unfolding handle_health_results
  failures-kill [] m time later c h f t b =
      rw (failure-counts m time c h (omega arith)) (inl (ground arith))
  failures-kill (r ∷ rs) m time later c h f t b =
      let (n, e) = f.0 in
      rw (e, failure-counts n r.time c h (omega arith))
        (inr (
          failures-kill rs m time later
            (record c { consecutive_failures = c.consecutive_failures + 1 }) h f.1 (omega arith)
            (omega arith)))
