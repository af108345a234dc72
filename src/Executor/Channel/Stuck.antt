-- ===== src/Executor/Channel/Stuck.antt =====
-- A full channel of events after the end of taskEventLoop (executor.go).
use mesos_executor.Common.{
  List, ◌++◌, ◌≢◌, ap, true, [], ◌∷◌, length, ◌≤◌, ◌<◌, ◌↔◌, ◌+◌, ◌≡◌, refl, sym, ◌∙◌, arith, subst,
  length-append,
}
use mesos_executor.Executor.{Platform, Config, Event}
use mesos_executor.Executor.Loop.{
  State, Outcome, waiting, returned, crashed, initial, event_loop, task_event_loop,
}
use mesos_executor.Executor.Ending.{is_ending, event_loop-ends}
use mesos_executor.Executor.Channel.Order.{Accepts, Accepts-room, Moves-IsOrdered}
use mesos_executor.Executor.Channel.{
  new_channel, Channel, put, Move, sends, receives, Moves, no_move, move,
}

-- The loop has ended.
abbrev pub IsOver : Outcome → Type 0
IsOver (waiting s) = ⊥
IsOver (returned s) = Unit
IsOver (crashed log) = Unit

-- Nothing is received any more, and what is sent stays in the channel.
pub record IsHalted (c d : Channel) : Type 0 where
  pub outcome : d.outcome ≡ c.outcome
  pub received : d.received ≡ c.received
  pub kept : length d.sent + length c.queue ≡ length c.sent + length d.queue
  pub bounded : length d.queue ≤ 128

module _ (p : Platform) (cfg : Config) where
  Move-IsHalted :
      {c d e : Channel} → Move p cfg d e → IsOver c.outcome → IsHalted c d → IsHalted c e
  unfolding put
  Move-IsHalted (sends d x room) over h = record {
    outcome = h.outcome;
    received = h.received;
    kept = omega (arith, h.kept, length-append d.sent (x ∷ []), length-append d.queue (x ∷ []));
    bounded = omega (arith, length-append d.queue (x ∷ []));
  }
  Move-IsHalted (receives d s x rest w q) over h = absurd (subst IsOver (sym h.outcome ∙ w) over)

  Moves-IsHalted :
      {c d : Channel} → Moves p cfg c d → IsOver c.outcome → length c.queue ≤ 128 → IsHalted c d
  Moves-IsHalted no_move over fits = record {
    outcome = refl;
    received = refl;
    kept = omega arith;
    bounded = fits;
  }
  Moves-IsHalted (move r m) over fits = Move-IsHalted m over (Moves-IsHalted r over fits)

  not_waiting-IsOver : (o : Outcome) → ((s : State) → o ≢ waiting s) → IsOver o
  not_waiting-IsOver (waiting s) h = h s refl
  not_waiting-IsOver (returned s) h = tt
  not_waiting-IsOver (crashed log) h = tt

  -- Once a CommandExited, Kill, FailedDueToUnhealthy or FailedDueToExpiredCertificate event has been
  -- received nothing is received any more: in every later state the outcome is the same, what is
  -- sent stays in the channel, at most 128 events stand there, and another is taken exactly while
  -- there are fewer. So a sender that meets 128 waits for ever.
  pub ending-IsHalted :
      {c d : Channel} (before : List Event) (event : Event) (after : List Event)
      → is_ending event ≡ true
      → Moves p cfg new_channel c
      → c.received ≡ before ++ event ∷ after
      → Moves p cfg c d
      → IsHalted c d × ((e : Event) → Accepts p cfg d e ↔ (length d.queue < 128))
  unfolding task_event_loop
  ending-IsHalted {c} {d} before event after ends r received later =
      let o = Moves-IsOrdered p cfg r in
      let over = not_waiting-IsOver c.outcome (λ s e.
        event_loop-ends p cfg before event after initial s ends
          (sym (ap (λ events. event_loop p cfg events initial) received) ∙ sym o.runs ∙ e)) in
      (Moves-IsHalted later over o.bounded, Accepts-room p cfg d)
