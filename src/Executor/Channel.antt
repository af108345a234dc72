-- ===== src/Executor/Channel.antt =====
-- The channel of events of executor.go (NewExecutor makes it), between the goroutines that send to
-- it (handleMesosEvent, the health checks, the timer of the certificate, the wait for the command)
-- and taskEventLoop, the only one that receives. The handling of an event is one step: it neither
-- reads nor writes the channel.
pub mod Order
pub mod Stuck
mod Tests
use mesos_executor.Common.{ℕ, List, [], ◌∷◌, ◌++◌, length, ◌<◌, ◌≡◌}
use mesos_executor.Executor.{Platform, Config, Event}
use mesos_executor.Executor.Loop.{State, Outcome, waiting, initial, handle}

-- `make(chan Event, 128)`
abbrev pub events_capacity : ℕ
events_capacity = 128

pub record Channel : Type 0 where
  -- oldest first
  pub queue : List Event
  pub outcome : Outcome
  -- for the proofs: all events that were sent, and all that were received, oldest first
  pub sent : List Event
  pub received : List Event

abbrev pub new_channel : Channel
new_channel = record { queue = []; outcome = waiting initial; sent = []; received = [] }

unfoldable pub put : Event → Channel → Channel
put e c = record c { queue = c.queue ++ e ∷ []; sent = c.sent ++ e ∷ [] }

module _ (p : Platform) (cfg : Config) where
  unfoldable pub take : Event → List Event → State → Channel → Channel
  take e rest s c = record c {
    queue = rest;
    outcome = handle p cfg e s;
    received = c.received ++ e ∷ [];
  }

  -- A send waits while the channel is full, and the loop receives only while it waits.
  pub data Move : Channel → Channel → Type 0 where
    sends : (c : Channel) (e : Event) → length c.queue < events_capacity → Move c (put e c)
    receives :
        (c : Channel) (s : State) (e : Event) (rest : List Event)
        → c.outcome ≡ waiting s
        → c.queue ≡ e ∷ rest
        → Move c (take e rest s c)

  pub data Moves (c : Channel) : Channel → Type 0 where
    no_move : Moves c c
    move : {d e : Channel} → Moves c d → Move d e → Moves c e
