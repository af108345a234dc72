-- ===== src/Command/Exit.antt =====
-- Stop, and what Wait delivers before and after it (command.go).
use mesos_executor.Common.{ℕ, Option, none, some, List, [], Str, Bool, true, false, ◌≡◌, arith}
use mesos_executor.Kill.{Os}
use mesos_executor.Command.{
  Command, stop, exit_state, TaskExitCode, success_code, failed_code, killed_code,
}

-- Whatever a first Stop did, a second one does nothing: no signal, no wait, no change.
stop_twice :
    (now later now' later' : Os) (c : Command) (grace grace' : ℕ) (exclude exclude' : List Str)
    → let stopped = (stop now later c grace exclude).0 in
      stop now' later' stopped grace' exclude' ≡ (stopped, [])
unfolding stop
stop_twice now later now' later' c grace grace' exclude exclude' = ground arith

abbrev pub outcome : Option Str → Bool → TaskExitCode → TaskExitCode
outcome none true failure = success_code
outcome none false failure = failure
outcome (some e) success failure = failure

-- An exit without an error and with a zero code is a success in any case. Any other exit is a
-- failure before Stop is called, and counts as killed from then on.
pub exit_state-stop :
    (now later : Os) (c : Command) (grace : ℕ) (exclude : List Str) (error : Option Str)
    (success : Bool)
    → c.killing ≡ false
    → ((exit_state c error success).code ≡ outcome error success failed_code)
      × ((exit_state (stop now later c grace exclude).0 error success).code
          ≡ outcome error success killed_code)
unfolding stop exit_state
exit_state-stop now later c grace exclude none success h = ground arith
exit_state-stop now later c grace exclude (some e) success h = ground arith
