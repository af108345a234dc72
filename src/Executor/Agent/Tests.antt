-- ===== src/Executor/Agent/Tests.antt =====
-- A connection on which the agent launches a task, acknowledges a status and then sends an ERROR.
use mesos_executor.Common.{some, List, [], ◌∷◌, ◌++◌, map, codes, ◌≡◌, refl}
use mesos_executor.Executor.{subscribed, launch}
use mesos_executor.Executor.Agent.{
  Message, Turn, subscribed_message, launch_message, kill_message, error_message,
  acknowledged_message, decoded, mesos_event_loop, err_must_abort, mesos_event_loop-abort,
}
use mesos_executor.Samples.{web}

abbrev before_error : List Message
before_error = subscribed_message [] ∷ launch_message web ∷ acknowledged_message (codes "u1") ∷ []

abbrev after_error : List Turn
after_error = decoded (kill_message (codes "web.1")) ∷ []

mesos_event_loop-abort_example :
    mesos_event_loop (map decoded before_error ++ decoded error_message ∷ after_error) ≡ record {
      sent = subscribed [] ∷ launch web ∷ [];
      acknowledged = codes "u1" ∷ [];
      error = some err_must_abort;
    }
mesos_event_loop-abort_example =
    mesos_event_loop-abort before_error after_error (refl, (refl, (refl, tt)))
