-- ===== src/Health/Schedule.antt =====
-- DoHealthChecks of health_checker.go: the checks that its timers cause, one after the other, and
-- the loop that their results go to.
use mathlib.Core.List.{map-append}
use mesos_executor.Common.{
  ℕ, Option, none, some, Option-cases, List, [], ◌∷◌, ◌++◌, map, Str, false, ◌≡◌, refl, sym, ap,
  ◌∙◌, ◌+◌, ◌≤◌, ◌<◌, length, All, In, inl, inr, arith, subst,
}
use mesos_executor.Mesos.{HealthCheck}
use mesos_executor.Executor.{Event, healthy, failed_due_to_unhealthy}
use mesos_executor.Health.{
  CheckResult, Checker, new_checker, start_time, uint32_mod, handle_result, pass, cons_event,
  handle_health_results,
}
use mesos_executor.Health.Results.{Fails, failures-kill}
use mesos_executor.Health.Check.{Network, Passes, perform_check, perform_check-Passes}

-- What a check finds, and when its result is handled.
pub record Attempt : Type 0 where
  pub network : Network
  pub time : ℕ

-- `healthResults <- performCheck()`
unfoldable pub result_of : HealthCheck → Attempt → CheckResult
result_of check a = record { error = perform_check a.network check; time = a.time }

-- `now` is the time at which handleHealthResults starts.
unfoldable pub do_health_checks : HealthCheck → ℕ → List Attempt → List Event
do_health_checks check now attempts =
    handle_health_results check (start_time now check.delay) (map (result_of check) attempts)
      new_checker

module _ (check : HealthCheck) where
  abbrev pub AttemptPasses : ℕ → Attempt → Type 0
  AttemptPasses timeout a = Passes a.network check timeout check.command check.http check.tcp

  -- An attempt that does not pass gives an error.
  attempt-Fails :
      (timeout : ℕ) (a : Attempt)
      → check.timeout ≡ some timeout
      → ¬ AttemptPasses timeout a
      → Fails check 0 (result_of check a)
  unfolding result_of
  attempt-Fails timeout a e h = elim (Option-cases (perform_check a.network check)) [
    | inl passed ↦ absurd (h ((perform_check-Passes a.network check timeout e).0 passed))
    | inr failed ↦ failed
  ]

  In-cons_event :
      (e : Event) (event : Option Event) (events : List Event)
      → In e events
      → In e (cons_event event events)
  In-cons_event e none events h = h
  In-cons_event e (some event) events h = inr h

  abbrev passed_checker : Checker
  passed_checker = record { never_passed_before = false; consecutive_failures = 0 }

  handle_result-first :
      (timeout start : ℕ) (a : Attempt)
      → check.timeout ≡ some timeout
      → AttemptPasses timeout a
      → handle_result check start (result_of check a).error a.time new_checker
        ≡ (passed_checker, some healthy)
  unfolding handle_result pass result_of
  handle_result-first timeout start a e p =
      rw ((perform_check-Passes a.network check timeout e).1 p) refl

  attempts-Fail :
      (timeout : ℕ) (attempts : List Attempt)
      → check.timeout ≡ some timeout
      → All (λ a. ¬ AttemptPasses timeout a) attempts
      → All (Fails check 0) (map (result_of check) attempts)
  attempts-Fail timeout [] e h = tt
  attempts-Fail timeout (a ∷ attempts) e h =
      (attempt-Fails timeout a e h.0, attempts-Fail timeout attempts e h.1)

  length-results :
      (attempts : List Attempt) → length (map (result_of check) attempts) ≡ length attempts
  length-results [] = refl
  length-results (a ∷ attempts) = omega (arith, length-results attempts)

  -- The failing checks after a pass.
  failing-kill :
      (timeout start : ℕ) (failing : List Attempt) (last : Attempt) (later : List Attempt) (m : Str)
      → check.timeout ≡ some timeout
      → All (λ a. ¬ AttemptPasses timeout a) failing
      → (result_of check last).error ≡ some m
      → check.consecutive_failures ≤ length failing + 1
      → length failing + 1 < uint32_mod
      → In (failed_due_to_unhealthy m) (
          handle_health_results check start
            (map (result_of check) (failing ++ last ∷ later))
            passed_checker)
  failing-kill timeout start failing last later m e f failed enough bound =
      subst
        (λ rs. In (failed_due_to_unhealthy m) (handle_health_results check start rs passed_checker))
        (sym (
          map-append (result_of check) failing (last ∷ later)
          ∙ ap
              (λ e.
                map (result_of check) failing
                ++ record { error = e; time = (result_of check last).time }
                  ∷ map (result_of check) later)
              failed))
        (failures-kill check start (map (result_of check) failing) m (result_of check last).time
          (map (result_of check) later) passed_checker refl (attempts-Fail timeout failing e f)
          (omega (arith, length-results failing)) (omega (arith, length-results failing)))

  -- Once a check has passed, as many checks in a row that do not pass as are configured (fewer than
  -- 2 ^ 32) lead to FailedDueToUnhealthy, whatever the checks after them find.
  pub do_health_checks-kill :
      (timeout now : ℕ) (first : Attempt) (failing : List Attempt) (last : Attempt)
      (later : List Attempt)
      → check.timeout ≡ some timeout
      → AttemptPasses timeout first
      → All (λ a. ¬ AttemptPasses timeout a) failing
      → ¬ AttemptPasses timeout last
      → check.consecutive_failures ≤ length failing + 1
      → length failing + 1 < uint32_mod
      → (m : Str) × In
          (failed_due_to_unhealthy m)
          (do_health_checks check now (first ∷ failing ++ last ∷ later))
  unfolding do_health_checks handle_health_results result_of
  do_health_checks-kill timeout now first failing last later e p f l enough bound =
      let start = start_time now check.delay in
      let (m, failed) = attempt-Fails timeout last e l in
      let rest = map (result_of check) (failing ++ last ∷ later) in
      (
        m,
        subst
            (λ x.
              In (failed_due_to_unhealthy m)
                (cons_event x.1 (handle_health_results check start rest x.0)))
            (sym (handle_result-first timeout start first e p))
            (In-cons_event (failed_due_to_unhealthy m) (some healthy) _
              (failing-kill timeout start failing last later m e f failed enough bound)),
      )
