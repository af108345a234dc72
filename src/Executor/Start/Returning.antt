-- ===== src/Executor/Start/Returning.antt =====
-- How Start of executor.go ends.
use mesos_executor.Common.{ℕ, none, some, Str, Bool, true, false, ◌≡◌, refl, subst}
use mesos_executor.Updater.{
  Updater, enqueue, acknowledge, remember, requeue, sent, Step, update, receive, remembers, sends,
  requeues, acknowledges, cancel, stops,
}
use mesos_executor.Executor.Start.{
  Timer, running, fired, drained, Place, selecting, connected, awaiting_updates, returned, Start,
  start, stop_and_reset, recovery_error, Move, updates, task_loop_returns, timer_fires, gives_up,
  is_cancelled, subscribes, subscribe_fails, connection_ends, wait_ends, Moves, no_move, move,
}

Step-cancelled : {u v : Updater} → Step u v → u.cancelled ≡ true → v.cancelled ≡ true
unfolding enqueue acknowledge remember requeue sent
Step-cancelled (update u s room fresh) h = h
Step-cancelled (receive u s rest p b) h = h
Step-cancelled (remembers u s p) h = h
Step-cancelled (sends u s response error p) h = h
Step-cancelled (requeues u s p room) h = h
Step-cancelled (acknowledges u id) h = h
Step-cancelled (cancel u) h = refl
Step-cancelled (stops u p c) h = h

-- The timer can be stopped and reset without waiting for ever.
abbrev pub CanReset : Timer → Type 0
CanReset timer = stop_and_reset timer ≡ some running

-- A timer that runs has not fired since it was set, and one that holds the time has.
abbrev pub IsTimed : Timer → Bool → Type 0
IsTimed running timed_out = Unit
IsTimed fired timed_out = timed_out ≡ true
IsTimed drained timed_out = ⊥

stop_and_reset-IsSound :
    (timer after : Timer) → stop_and_reset timer ≡ some after → CanReset after × IsTimed after false
unfolding stop_and_reset
stop_and_reset-IsSound running running e = (refl, tt)
stop_and_reset-IsSound running fired e = cc
stop_and_reset-IsSound running drained e = cc
stop_and_reset-IsSound fired running e = (refl, tt)
stop_and_reset-IsSound fired fired e = cc
stop_and_reset-IsSound fired drained e = cc
stop_and_reset-IsSound drained after e = cc

module _ (timeout : Str) where
  -- By where Start stands: in the loop its timer can be reset; an error is that of the recovery,
  -- whose timer has fired since it was set; otherwise the context is done, and after Wait so is the
  -- updater's.
  abbrev pub IsSound : Place → Timer → Bool → Bool → Bool → Type 0
  IsSound selecting timer timed_out context_done cancelled =
      CanReset timer × IsTimed timer timed_out
  IsSound connected timer timed_out context_done cancelled =
      CanReset timer × IsTimed timer timed_out
  IsSound awaiting_updates timer timed_out context_done cancelled = context_done ≡ true
  IsSound (returned none) timer timed_out context_done cancelled =
      (context_done ≡ true) × (cancelled ≡ true)
  IsSound (returned (some e)) timer timed_out context_done cancelled =
      (timed_out ≡ true) × (e ≡ recovery_error timeout)

  abbrev pub IsSoundStart : Start → Type 0
  IsSoundStart s = IsSound s.place s.recovery_timer s.timed_out s.context_done s.updater.cancelled

  updates-IsSound :
      (place : Place) (timer : Timer) (o d c c' : Bool)
      → (c ≡ true → c' ≡ true)
      → IsSound place timer o d c
      → IsSound place timer o d c'
  updates-IsSound selecting timer o d c c' k h = h
  updates-IsSound connected timer o d c c' k h = h
  updates-IsSound awaiting_updates timer o d c c' k h = h
  updates-IsSound (returned none) timer o d c c' k h = (h.0, k h.1)
  updates-IsSound (returned (some e)) timer o d c c' k h = h

  task_loop_returns-IsSound :
      (place : Place) (timer : Timer) (o d c : Bool)
      → IsSound place timer o d c
      → IsSound place timer o true c
  task_loop_returns-IsSound selecting timer o d c h = h
  task_loop_returns-IsSound connected timer o d c h = h
  task_loop_returns-IsSound awaiting_updates timer o d c h = refl
  task_loop_returns-IsSound (returned none) timer o d c h = (refl, h.1)
  task_loop_returns-IsSound (returned (some e)) timer o d c h = h

  timer_fires-IsSound :
      (place : Place) (timer : Timer) (o d c : Bool)
      → IsSound place timer o d c
      → IsSound place fired true d c
  unfolding stop_and_reset
  timer_fires-IsSound selecting timer o d c h = (refl, refl)
  timer_fires-IsSound connected timer o d c h = (refl, refl)
  timer_fires-IsSound awaiting_updates timer o d c h = h
  timer_fires-IsSound (returned none) timer o d c h = h
  timer_fires-IsSound (returned (some e)) timer o d c h = (refl, h.1)

  -- What holds at a place that is known.
  at_place :
      (s : Start) {place : Place}
      → s.place ≡ place
      → IsSoundStart s
      → IsSound place s.recovery_timer s.timed_out s.context_done s.updater.cancelled
  at_place s p h =
      subst (λ x. IsSound x s.recovery_timer s.timed_out s.context_done s.updater.cancelled) p h

  Move-IsSound : {s t : Start} → Move timeout s t → IsSoundStart s → IsSoundStart t
  Move-IsSound (updates s u step) h =
      updates-IsSound s.place s.recovery_timer s.timed_out s.context_done s.updater.cancelled
        u.cancelled (Step-cancelled step) h
  Move-IsSound (task_loop_returns s) h =
      task_loop_returns-IsSound s.place s.recovery_timer s.timed_out s.context_done
        s.updater.cancelled h
  Move-IsSound (timer_fires s t) h =
      timer_fires-IsSound s.place s.recovery_timer s.timed_out s.context_done s.updater.cancelled h
  Move-IsSound (gives_up s p t) h =
      (subst (λ timer. IsTimed timer s.timed_out) t (at_place s p h).1, refl)
  Move-IsSound (is_cancelled s p d) h = d
  Move-IsSound (subscribes s p) h = at_place s p h
  Move-IsSound (subscribe_fails s p) h = h
  Move-IsSound (connection_ends s timer p e) h = stop_and_reset-IsSound s.recovery_timer timer e
  Move-IsSound (wait_ends s late u v w result p k1 k2 k3 e) h = (at_place s p h, refl)

  -- In every state that Start reaches: while it is in the loop its recovery timer can be stopped and
  -- reset, so that the receive from the timer's channel never waits for ever; it waits for the
  -- updates only after the event loop has returned; it has returned an error only if that is the one
  -- of the recovery timer, which has fired since it was set last; and if it has returned none the event loop has returned
  -- and the updater is cancelled.
  pub Moves-IsSound : (n : ℕ) {s : Start} → Moves timeout (start n) s → IsSoundStart s
  unfolding start stop_and_reset
  Moves-IsSound n no_move = (refl, tt)
  Moves-IsSound n (move r step) = Move-IsSound step (Moves-IsSound n r)
