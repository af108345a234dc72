-- ===== src/Executor/Channel/Order.antt =====
-- The concurrent executor does what the event loop does for one list of events.
use mathlib.Core.List.{append_assoc}
use mesos_executor.Common.{
  All, false, subst, List, [], ◌∷◌, ◌++◌, length, ◌<◌, ◌≤◌, ◌≡◌, refl, sym, ap, ◌∙◌, ◌↔◌, arith,
  length-append,
}
use mesos_executor.Executor.{Platform, Config, Event}
use mesos_executor.Executor.Loop.{
  State, Outcome, waiting, returned, crashed, continue, initial, handle, event_loop,
  task_event_loop,
}
use mesos_executor.Executor.Reports.Final.{is_shutdown, Counted, task_event_loop-Counted}
use mesos_executor.Executor.Channel.{
  events_capacity, Channel, new_channel, put, take, Move, sends, receives, Moves, no_move, move,
}

continue-waiting : (o : Outcome) → continue o waiting ≡ o
continue-waiting (waiting s) = refl
continue-waiting (returned s) = refl
continue-waiting (crashed log) = refl

continue-continue :
    (o : Outcome) (f g h : State → Outcome)
    → ((s : State) → h s ≡ continue (f s) g)
    → continue o h ≡ continue (continue o f) g
continue-continue (waiting s) f g h e = e s
continue-continue (returned s) f g h e = refl
continue-continue (crashed log) f g h e = refl

module _ (p : Platform) (cfg : Config) where
  event_loop-concat :
      (events : List Event) (e : Event) (s : State)
      → event_loop p cfg (events ++ e ∷ []) s
        ≡ continue (event_loop p cfg events s) (handle p cfg e)
  unfolding event_loop
  event_loop-concat [] e s = continue-waiting (handle p cfg e s)
  event_loop-concat (x ∷ events) e s =
      continue-continue (handle p cfg x s) (event_loop p cfg events) (handle p cfg e)
        (event_loop p cfg (events ++ e ∷ [])) (event_loop-concat events e)

  -- What the loop has received is a beginning of what was sent, in order, and the loop stands where
  -- it stands after these events.
  pub record IsOrdered (c : Channel) : Type 0 where
    pub fifo : c.sent ≡ c.received ++ c.queue
    pub bounded : length c.queue ≤ 128
    pub runs : c.outcome ≡ task_event_loop p cfg c.received

  put-IsOrdered :
      (c : Channel) (e : Event)
      → length c.queue < events_capacity
      → IsOrdered c
      → IsOrdered (put e c)
  unfolding put
  put-IsOrdered c e room h = record {
    fifo = ap (λ es. es ++ e ∷ []) h.fifo ∙ append_assoc c.received c.queue (e ∷ []);
    bounded = omega (arith, length-append c.queue (e ∷ []));
    runs = h.runs;
  }

  take-IsOrdered :
      (c : Channel) (s : State) (e : Event) (rest : List Event)
      → c.outcome ≡ waiting s
      → c.queue ≡ e ∷ rest
      → IsOrdered c
      → IsOrdered (take p cfg e rest s c)
  unfolding take task_event_loop
  take-IsOrdered c s e rest w q h = record {
    fifo = h.fifo ∙ ap (λ es. c.received ++ es) q ∙ sym (append_assoc c.received (e ∷ []) rest);
    bounded = omega (arith, h.bounded, ap length q);
    runs =
        ap (λ o. continue o (handle p cfg e)) (sym w ∙ h.runs)
        ∙ sym (event_loop-concat c.received e initial);
  }

  -- In every interleaving.
  pub Moves-IsOrdered : {c : Channel} → Moves p cfg new_channel c → IsOrdered c
  unfolding task_event_loop event_loop
  Moves-IsOrdered no_move = record { fifo = refl; bounded = omega arith; runs = refl }
  Moves-IsOrdered (move r (sends c e room)) = put-IsOrdered c e room (Moves-IsOrdered r)
  Moves-IsOrdered (move r (receives c s e rest w q)) =
      take-IsOrdered c s e rest w q (Moves-IsOrdered r)

  -- The channel takes the event of a sender at once.
  abbrev pub Accepts : Channel → Event → Type 0
  Accepts c e = (d : Channel) × Move p cfg c d × (d.sent ≡ c.sent ++ e ∷ [])

  Move-room :
      {c d : Channel} (e : Event)
      → Move p cfg c d
      → d.sent ≡ c.sent ++ e ∷ []
      → length c.queue < 128
  unfolding take
  Move-room e (sends c x room) same = room
  Move-room e (receives c s x rest w q) same =
      absurd (omega (arith, ap length same, length-append c.sent (e ∷ [])))

  pub Accepts-room : (c : Channel) (e : Event) → Accepts c e ↔ (length c.queue < 128)
  unfolding put
  Accepts-room c e = (λ (d, m, same). Move-room e m same, λ room. (put e c, sends c e room, refl))

  All-append_left : (P : Event → Type 0) (xs ys : List Event) → All P (xs ++ ys) → All P xs
  All-append_left P [] ys h = tt
  All-append_left P (x ∷ xs) ys h = (h.0, All-append_left P xs ys h.1)

  -- However the senders and the loop interleave: the events received are a beginning of those sent,
  -- in order, the rest stands in the channel, which never holds more than 128 and takes another
  -- event exactly while it holds fewer, and the loop stands where a run over the received events
  -- alone ends. So, where no Shutdown is sent, no final state
  -- of the task has been reported while the loop waits, and exactly one, as the last thing the loop
  -- did, once it has returned.
  pub Moves-Counted :
      {c : Channel}
      → Moves p cfg new_channel c
      → All (λ event. is_shutdown event ≡ false) c.sent
      → IsOrdered c × Counted 0 c.outcome × ((e : Event) → Accepts c e ↔ (length c.queue < 128))
  Moves-Counted {c} r h =
      let o = Moves-IsOrdered r in
      (
        o,
        subst (Counted 0) (sym o.runs) (
            task_event_loop-Counted p cfg c.received (
              All-append_left (λ event. is_shutdown event ≡ false) c.received c.queue
                (subst (All (λ event. is_shutdown event ≡ false)) o.fifo h))),
        Accepts-room c,
      )
