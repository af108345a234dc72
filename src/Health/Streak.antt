-- ===== src/Health/Streak.antt =====
-- The loop of handleHealthResults (health_checker.go) against the history of results: what it
-- sends depends only on whether a check has passed before and on how many failures in a row were
-- counted.
use mesos_executor.Common.{
  ℕ, suc, ◌+◌, ◌≤◌, ◌<◌, Option, none, some, List, [], ◌∷◌, Str, Bool, true, false, ◌&&◌, ◌||◌, not,
  if◌then◌else◌, ltb, leb, ◌≡◌, refl, arith, length,
}
use mesos_executor.Mesos.{HealthCheck}
use mesos_executor.Executor.{Event, healthy, unhealthy, failed_due_to_unhealthy}
use mesos_executor.Health.{CheckResult, Checker, new_checker, in_grace, uint32_mod, handle_result}

abbrev passes : Option Str → Bool
passes none = true
passes (some m) = false

-- Histories are newest first.
abbrev pub has_passed : List CheckResult → Bool
has_passed [] = false
has_passed (r ∷ older) = passes r.error || has_passed older

module _ (check : HealthCheck) (start : ℕ) where
  -- How many failures in a row were counted: those within the grace period are not, as long as no
  -- check has passed.
  abbrev pub streak_from : Option Str → ℕ → Bool → ℕ → ℕ
  streak_from none time passed n = 0
  streak_from (some m) time passed n = if not passed && in_grace check start time then n else suc n

  abbrev pub streak : List CheckResult → ℕ
  streak [] = 0
  streak (r ∷ older) = streak_from r.error r.time (has_passed older) (streak older)

  -- The state of the loop after a history.
  abbrev pub after : List CheckResult → Checker
  after [] = new_checker
  after (r ∷ older) = (handle_result check start r.error r.time (after older)).0

  -- What a result should send, by the history before it.
  abbrev pub expected : Option Str → ℕ → Bool → ℕ → Option Event
  expected none time passed n = if not passed || ltb 0 n then some healthy else none
  expected (some m) time passed n =
      if not passed && in_grace check start time
      then none
      else if leb check.consecutive_failures (suc n)
      then some (failed_due_to_unhealthy m)
      else some (unhealthy m)

  -- The state of the loop agrees with the history.
  abbrev Agrees : Checker → Bool → ℕ → Type 0
  Agrees c passed n = (c.never_passed_before ≡ not passed) × (c.consecutive_failures ≡ n)

  handle_result-Agrees :
      (e : Option Str) (time : ℕ) (c : Checker) (passed : Bool) (n : ℕ)
      → Agrees c passed n
      → n + 1 < uint32_mod
      → Agrees
          (handle_result check start e time c).0
          (passes e || passed)
          (streak_from e time passed n)
  unfolding handle_result
  handle_result-Agrees none time c passed n h b = ground arith
  handle_result-Agrees (some m) time c passed n h b = ground arith

  handle_result-expected :
      (e : Option Str) (time : ℕ) (c : Checker) (passed : Bool) (n : ℕ)
      → Agrees c passed n
      → n + 1 < uint32_mod
      → (handle_result check start e time c).1 ≡ expected e time passed n
  unfolding handle_result
  handle_result-expected none time c passed n h b = ground arith
  handle_result-expected (some m) time c passed n h b = ground arith

  streak_from-le :
      (e : Option Str) (time : ℕ) (passed : Bool) (n : ℕ) → streak_from e time passed n ≤ n + 1
  streak_from-le none time passed n = omega arith
  streak_from-le (some m) time passed n = ground arith

  streak-le : (history : List CheckResult) → streak history ≤ length history
  streak-le [] = omega arith
  streak-le (r ∷ older) =
      omega
        (arith, streak-le older, streak_from-le r.error r.time (has_passed older) (streak older))

  after-Agrees :
      (history : List CheckResult)
      → length history < uint32_mod
      → Agrees (after history) (has_passed history) (streak history)
  after-Agrees [] b = (refl, refl)
  after-Agrees (r ∷ older) b =
      handle_result-Agrees r.error r.time (after older) (has_passed older) (streak older)
        (after-Agrees older (omega arith)) (omega (arith, streak-le older))

  -- What the loop sends for a result, by the history before it (of fewer than 2 ^ 32 - 1 results):
  -- for a pass, Healthy if it is the first pass or the failure before it was counted, and nothing
  -- otherwise; for a failure, nothing within the grace period while no check has passed, and
  -- otherwise FailedDueToUnhealthy if it makes the configured number of counted failures in a row,
  -- and Unhealthy if it does not, with the message of the failure.
  pub handle_result-history :
      (r : CheckResult) (history : List CheckResult)
      → length history + 1 < uint32_mod
      → (handle_result check start r.error r.time (after history)).1
        ≡ expected r.error r.time (has_passed history) (streak history)
  handle_result-history r history b =
      handle_result-expected r.error r.time (after history) (has_passed history) (streak history)
        (after-Agrees history (omega arith)) (omega (arith, streak-le history))
