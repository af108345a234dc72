-- ===== src/Executor/Start/Subscription.antt =====
-- What the subscribe loop of executor.go tells the agent, and how it ends.
use mesos_executor.Common.{
  ℕ, some, List, [], ◌∷◌, map, Str, str_eq, Bool-cases, ◌≡◌, ◌⊎◌, inl, inr, In, All, lookup,
}
use mesos_executor.Updater.{
  TaskStatus, buffered_updater, get_unacknowledged, cancel, Reach, here, next,
}
use mesos_executor.Updater.Delivery.{IsReceived, no_status_lost}
use mesos_executor.Executor.Start.{
  Subscribe, Start, start, subscribe, updates, task_loop_returns, timer_fires, gives_up,
  is_cancelled, subscribes, subscribe_fails, connection_ends, wait_ends, Moves, no_move, move,
}

module _ (timeout : Str) where
  -- The updater takes steps of its own only.
  Moves-Reach :
      (n : ℕ) {s : Start} → Moves timeout (start n) s → Reach (buffered_updater n) s.updater
  unfolding start
  Moves-Reach n no_move = here
  Moves-Reach n (move r (updates s u step)) = next (Moves-Reach n r) step
  Moves-Reach n (move r (task_loop_returns s)) = Moves-Reach n r
  Moves-Reach n (move r (timer_fires s t)) = Moves-Reach n r
  Moves-Reach n (move r (gives_up s p t)) = Moves-Reach n r
  Moves-Reach n (move r (is_cancelled s p d)) = Moves-Reach n r
  Moves-Reach n (move r (subscribes s p)) = Moves-Reach n r
  Moves-Reach n (move r (subscribe_fails s p)) = Moves-Reach n r
  Moves-Reach n (move r (connection_ends s t p d)) = Moves-Reach n r
  Moves-Reach n (move r (wait_ends s late u v w result p k1 k2 k3 d)) =
      next (Moves-Reach n r) (cancel s.updater)

  found-In :
      (key : Str) (x : TaskStatus) (m : List (Str × TaskStatus))
      → lookup key m ≡ some x
      → In x (map (λ b. b.1) m)
  unfolding lookup
  found-In key x [] e = cc
  found-In key x ((k, y) ∷ m) e = elim (Bool-cases (str_eq k key)) [
    | inl same ↦ inl (some_inj (rw (same, lookup) at e))
    | inr differs ↦ inr (found-In key x m (rw (differs, lookup) at e))
  ]
    where
      some_inj : {a b : TaskStatus} → some a ≡ some b → a ≡ b
      some_inj h = cc

  -- The agent is told of every status that it may not know: one that was reported has been
  -- acknowledged, still waits to be sent, or is in the call.
  abbrev pub IsComplete : Subscribe → Type 0
  IsComplete c =
      (x : TaskStatus)
      → In x c.snapshot.given
      → In x.uuid c.snapshot.acknowledged
        ⊎ (In x c.snapshot.buffer ⊎ IsReceived x c.snapshot.phase)
        ⊎ In x c.statuses

  subscribe-IsComplete :
      (n : ℕ) (s : Start) → Reach (buffered_updater n) s.updater → IsComplete (subscribe s)
  unfolding subscribe get_unacknowledged
  subscribe-IsComplete n s r x h = elim (no_status_lost n x r h) [
    | inl a ↦ inl a
    | inr held ↦ elim held [
      | inl b ↦ inr (inl (inl b))
      | inr k ↦ elim k [
        | inl e ↦ inr (inl (inr e))
        | inr l ↦ inr (inr (found-In x.uuid x s.updater.un_ack_statuses l))
      ]
    ]
  ]

  -- However the updater, the event loop, the timer and the subscribe loop interleave: at each
  -- SUBSCRIBE call every status that had been handed to the updater had been acknowledged, still
  -- waited to be sent, or is one of the unacknowledged statuses in the call.
  pub calls-IsComplete : (n : ℕ) {s : Start} → Moves timeout (start n) s → All IsComplete s.calls
  unfolding start
  calls-IsComplete n no_move = tt
  calls-IsComplete n (move r (updates s u step)) = calls-IsComplete n r
  calls-IsComplete n (move r (task_loop_returns s)) = calls-IsComplete n r
  calls-IsComplete n (move r (timer_fires s t)) = calls-IsComplete n r
  calls-IsComplete n (move r (gives_up s p t)) = calls-IsComplete n r
  calls-IsComplete n (move r (is_cancelled s p d)) = calls-IsComplete n r
  calls-IsComplete n (move r (subscribes s p)) =
      (subscribe-IsComplete n s (Moves-Reach n r), calls-IsComplete n r)
  calls-IsComplete n (move r (subscribe_fails s p)) =
      (subscribe-IsComplete n s (Moves-Reach n r), calls-IsComplete n r)
  calls-IsComplete n (move r (connection_ends s t p d)) = calls-IsComplete n r
  calls-IsComplete n (move r (wait_ends s late u v w result p k1 k2 k3 d)) = calls-IsComplete n r
