-- ===== src/Executor/Unhealthy.antt =====
-- An unhealthy task: the checks of health_checker.go and taskEventLoop of executor.go together.
mod Tests
use mesos_executor.Common.{
  ℕ, Option, some, List, [], ◌∷◌, ◌++◌, Str, Bool, true, ◌≡◌, ◌≢◌, refl, sym, ap, ◌∙◌, ◌+◌, ◌≤◌,
  ◌<◌, length, All, In, inl, inr, subst,
}
use mesos_executor.Mesos.{HealthCheck}
use mesos_executor.Executor.{Platform, Config, Event, failed_due_to_unhealthy}
use mesos_executor.Executor.Loop.{State, waiting, initial, event_loop, task_event_loop}
use mesos_executor.Executor.Ending.{is_ending, event_loop-ends}
use mesos_executor.Health.{uint32_mod}
use mesos_executor.Health.Schedule.{Attempt, AttemptPasses, do_health_checks, do_health_checks-kill}

-- Where an event stands among the others.
around :
    (e : Event) (events : List Event)
    → In e events
    → (before : List Event) × (later : List Event) × (events ≡ before ++ e ∷ later)
around e [] h = absurd h
around e (x ∷ events) (inl same) = ([], events, ap (λ y. y ∷ events) same)
around e (x ∷ events) (inr h) =
    let (before, later, at) = around e events h in (x ∷ before, later, ap (λ es. x ∷ es) at)

module _ (p : Platform) (cfg : Config) (check : HealthCheck) where
  -- Where a check passes and then as many in a row fail to pass as are configured, the event loop
  -- does not go on waiting: it ends, whatever other events come between those of the checks, before
  -- and after them, provided that every event of the checks arrives.
  pub task_event_loop-do_health_checks :
      (timeout now : ℕ) (first : Attempt) (failing : List Attempt) (last : Attempt)
      (later : List Attempt) (events : List Event) (s : State)
      → check.timeout ≡ some timeout
      → AttemptPasses check timeout first
      → All (λ a. ¬ AttemptPasses check timeout a) failing
      → ¬ AttemptPasses check timeout last
      → check.consecutive_failures ≤ length failing + 1
      → length failing + 1 < uint32_mod
      → ((e : Event)
          → In e (do_health_checks check now (first ∷ failing ++ last ∷ later))
          → In e events)
      → task_event_loop p cfg events ≢ waiting s
  unfolding task_event_loop
  task_event_loop-do_health_checks timeout now first failing last later events s e ok f l enough
        bound arrive =
      let (m, sent) =
        do_health_checks-kill check timeout now first failing last later e ok f l enough bound in
      let (before, after, at) = around (failed_due_to_unhealthy m) events (arrive _ sent) in
      subst (λ es. event_loop p cfg es initial ≢ waiting s) (sym at)
        (event_loop-ends p cfg before (failed_due_to_unhealthy m) after initial s refl)
