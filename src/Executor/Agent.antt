-- ===== src/Executor/Agent.antt =====
-- eventLoop and handleMesosEvent of executor.go: the messages of the agent on one connection. A
-- turn of the loop finds the executor's context cancelled, or decodes a message, or fails to. That a
-- send waits while the channel of events is full is not modelled.
mod Tests
use mesos_executor.Common.{
  Option, none, some, List, [], ◌∷◌, ◌++◌, map, Str, codes, Bool, true, false, ◌≡◌, refl, ap, ◌∙◌,
  All,
}
use mesos_executor.Mesos.{TaskInfo}
use mesos_executor.Executor.{Platform, Config, Event, subscribed, launch, kill, shutdown}
use mesos_executor.Executor.Loop.{task_event_loop}
use mesos_executor.Executor.Reports.Final.{Counted, is_shutdown, task_event_loop-Counted}

-- executor.Event by its type, with what the executor reads of it.
pub data Message : Type 0 where
  subscribed_message : List Bool → Message
  launch_message : TaskInfo → Message
  kill_message : Str → Message
  shutdown_message error_message unknown_message : Message
  acknowledged_message : Str → Message

pub data Turn : Type 0 where
  cancelled : Turn
  decoded : Message → Turn
  undecodable : Str → Turn

-- What was done, oldest first: the events sent to taskEventLoop, and the UUIDs acknowledged; and
-- the error with which the loop returns, if it does.
pub record Connection : Type 0 where
  pub sent : List Event
  pub acknowledged : List Str
  pub error : Option Str

abbrev pub err_must_abort : Str
err_must_abort = codes "received abort signal from mesos, will attempt to re-subscribe"

abbrev quiet : Connection
quiet = record { sent = []; acknowledged = []; error = none }

abbrev pub send : Event → Connection → Connection
send e rest = record rest { sent = e ∷ rest.sent }

-- handleMesosEvent, and then the rest of the loop, which an error leaves out.
unfoldable pub handle_mesos_event : Message → Connection → Connection
handle_mesos_event (subscribed_message capabilities) rest = send (subscribed capabilities) rest
handle_mesos_event (launch_message t) rest = send (launch t) rest
handle_mesos_event (kill_message id) rest = send (kill id) rest
handle_mesos_event shutdown_message rest = send shutdown rest
handle_mesos_event error_message rest = record quiet { error = some err_must_abort }
handle_mesos_event (acknowledged_message id) rest = record rest {
  acknowledged = id ∷ rest.acknowledged;
}
handle_mesos_event unknown_message rest = rest

-- eventLoop, until the turns end.
unfoldable pub mesos_event_loop : List Turn → Connection
mesos_event_loop [] = quiet
mesos_event_loop (cancelled ∷ turns) = quiet
mesos_event_loop (decoded m ∷ turns) = handle_mesos_event m (mesos_event_loop turns)
mesos_event_loop (undecodable e ∷ turns) = record quiet { error = some e }

-- The event for a message, and the UUID in an acknowledgement.
abbrev pub events_of : List Message → List Event
events_of [] = []
events_of (subscribed_message capabilities ∷ ms) = subscribed capabilities ∷ events_of ms
events_of (launch_message t ∷ ms) = launch t ∷ events_of ms
events_of (kill_message id ∷ ms) = kill id ∷ events_of ms
events_of (shutdown_message ∷ ms) = shutdown ∷ events_of ms
events_of (error_message ∷ ms) = events_of ms
events_of (acknowledged_message id ∷ ms) = events_of ms
events_of (unknown_message ∷ ms) = events_of ms

abbrev pub acknowledged_in : List Message → List Str
acknowledged_in [] = []
acknowledged_in (acknowledged_message id ∷ ms) = id ∷ acknowledged_in ms
acknowledged_in (subscribed_message capabilities ∷ ms) = acknowledged_in ms
acknowledged_in (launch_message t ∷ ms) = acknowledged_in ms
acknowledged_in (kill_message id ∷ ms) = acknowledged_in ms
acknowledged_in (shutdown_message ∷ ms) = acknowledged_in ms
acknowledged_in (error_message ∷ ms) = acknowledged_in ms
acknowledged_in (unknown_message ∷ ms) = acknowledged_in ms

abbrev pub is_error : Message → Bool
is_error error_message = true
is_error _ = false

-- The turns up to an ERROR message: every message before it is forwarded or acknowledged, in order,
-- the loop returns with the error that makes the executor subscribe again, and nothing behind it
-- is handled.
pub mesos_event_loop-abort :
    (before : List Message) (later : List Turn)
    → All (λ m. is_error m ≡ false) before
    → mesos_event_loop (map decoded before ++ decoded error_message ∷ later) ≡ record {
      sent = events_of before;
      acknowledged = acknowledged_in before;
      error = some err_must_abort;
    }
unfolding mesos_event_loop handle_mesos_event
mesos_event_loop-abort [] later h = refl
mesos_event_loop-abort (subscribed_message capabilities ∷ ms) later h =
    ap (send (subscribed capabilities)) (mesos_event_loop-abort ms later h.1)
mesos_event_loop-abort (launch_message t ∷ ms) later h =
    ap (send (launch t)) (mesos_event_loop-abort ms later h.1)
mesos_event_loop-abort (kill_message id ∷ ms) later h =
    ap (send (kill id)) (mesos_event_loop-abort ms later h.1)
mesos_event_loop-abort (shutdown_message ∷ ms) later h =
    ap (send shutdown) (mesos_event_loop-abort ms later h.1)
mesos_event_loop-abort (error_message ∷ ms) later h = cc
mesos_event_loop-abort (acknowledged_message id ∷ ms) later h =
    ap (handle_mesos_event (acknowledged_message id)) (mesos_event_loop-abort ms later h.1)
mesos_event_loop-abort (unknown_message ∷ ms) later h = mesos_event_loop-abort ms later h.1

abbrev pub is_shutdown_turn : Turn → Bool
is_shutdown_turn (decoded shutdown_message) = true
is_shutdown_turn _ = false

no_shutdown :
    (turns : List Turn)
    → All (λ turn. is_shutdown_turn turn ≡ false) turns
    → All (λ event. is_shutdown event ≡ false) (mesos_event_loop turns).sent
unfolding mesos_event_loop handle_mesos_event
no_shutdown [] h = tt
no_shutdown (cancelled ∷ turns) h = tt
no_shutdown (undecodable e ∷ turns) h = tt
no_shutdown (decoded (subscribed_message capabilities) ∷ turns) h = (refl, no_shutdown turns h.1)
no_shutdown (decoded (launch_message t) ∷ turns) h = (refl, no_shutdown turns h.1)
no_shutdown (decoded (kill_message id) ∷ turns) h = (refl, no_shutdown turns h.1)
no_shutdown (decoded shutdown_message ∷ turns) h = cc
no_shutdown (decoded error_message ∷ turns) h = tt
no_shutdown (decoded (acknowledged_message id) ∷ turns) h = no_shutdown turns h.1
no_shutdown (decoded unknown_message ∷ turns) h = no_shutdown turns h.1

-- Where the agent sends no SHUTDOWN, the run of the event loop over the events that its messages
-- cause alone reports exactly one final state if it returns, and none otherwise.
mesos_event_loop-Counted :
    (p : Platform) (cfg : Config) (turns : List Turn)
    → All (λ turn. is_shutdown_turn turn ≡ false) turns
    → Counted 0 (task_event_loop p cfg (mesos_event_loop turns).sent)
mesos_event_loop-Counted p cfg turns h =
    task_event_loop-Counted p cfg (mesos_event_loop turns).sent (no_shutdown turns h)
