-- ===== src/Executor/Start/Tests.antt =====
-- A run of Start: one status is reported, and not yet sent when the executor subscribes; then the
-- timer fires and the connection ends.
use mesos_executor.Common.{[], ◌∷◌, codes, All, some, true, false, refl, arith}
use mesos_executor.Mesos.{task_running}
use mesos_executor.Executor.{plain}
use mesos_executor.Updater.{TaskStatus, update, buffered_updater, enqueue}
use mesos_executor.Executor.Start.{
  Start, start, subscribe, running, fired, selecting, connected, stop_and_reset, updates,
  timer_fires, gives_up, returned, drained, recovery_error, subscribes, connection_ends, Moves,
  no_move, move,
}
use mesos_executor.Executor.Start.Subscription.{IsComplete, calls-IsComplete}
use mesos_executor.Executor.Start.Returning.{IsSoundStart, Moves-IsSound}

abbrev running_status : TaskStatus
running_status = record { uuid = codes "u1"; report = plain (codes "web.1") task_running }

abbrev reported : Start
reported = record (start 2) { updater = enqueue running_status (buffered_updater 2) }

abbrev subscribed : Start
subscribed = record reported { place = connected; calls = subscribe reported ∷ [] }

abbrev timed : Start
timed = record subscribed { recovery_timer = fired; timed_out = true }

abbrev ended : Start
ended = record timed { place = selecting; recovery_timer = running; timed_out = false }

run : Moves (codes "1s") (start 2) ended
unfolding start stop_and_reset buffered_updater enqueue
run =
    move
      (move
        (move
          (move no_move (
            updates (start 2) (enqueue running_status (buffered_updater 2))
              (update (buffered_updater 2) running_status (omega arith) (λ x h. absurd h))))
          (subscribes reported refl))
        (timer_fires subscribed refl))
      (connection_ends timed running refl refl)

-- Then the timer fires at the select.
abbrev late : Start
late = record ended { recovery_timer = fired; timed_out = true }

abbrev given_up : Start
given_up = record late {
  place = returned (some (recovery_error (codes "1s")));
  recovery_timer = drained;
}

run_to_given_up : Moves (codes "1s") (start 2) given_up
run_to_given_up = move (move run (timer_fires ended refl)) (gives_up late refl refl)

calls-IsComplete_example : All (IsComplete (codes "1s")) ended.calls
calls-IsComplete_example = calls-IsComplete (codes "1s") 2 run

Moves-IsSound_example : IsSoundStart (codes "1s") given_up
Moves-IsSound_example = Moves-IsSound (codes "1s") 2 run_to_given_up
