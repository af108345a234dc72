-- ===== src/Command.antt =====
-- command.go: the command that runs the task. Starting a process (os/exec) is a parameter, and so
-- is what the system answers to the signals (Kill.Os), once when SIGTERM is sent and once, after
-- the grace period, when SIGKILL is.
pub mod Exit
use mesos_executor.Common.{
  ℕ, Option, none, some, List, [], ◌∷◌, ◌++◌, Str, codes, has_prefix, Bool, true, false, ◌&&◌,
  if◌then◌else◌, Result, ok, err, panic, ◌>>=◌, not, keep,
}
use mesos_executor.Mesos.{CommandInfo}
use mesos_executor.Kill.{Os, Sent, sig_term, sig_kill, kill_tree, kill_tree_with_excludes}

-- Where the output of the task goes.
pub data Output : Type 0 where
  discarded forwarded scraped : Output

-- The fields of exec.Cmd that the executor sets; the program is always `sh -c line`.
pub record Cmd : Type 0 where
  pub line : Str
  pub env : List Str
  pub output : Output

pub record Command : Type 0 where
  pub cmd : Option Cmd
  pub pid : ℕ
  pub killing : Bool

-- strings.ToUpper(EnvironmentPrefix)
abbrev pub environment_prefix : Str
environment_prefix = codes "ALLEGRO_EXECUTOR"

unfoldable pub env_without_executor_config : List Str → List Str
env_without_executor_config environ = keep (λ v. not (has_prefix v environment_prefix)) environ

abbrev pub CmdOption : Type 0
CmdOption = Cmd → Result Cmd

apply_options : List CmdOption → Cmd → Result Cmd
apply_options [] cmd = ok cmd
apply_options (option ∷ options) cmd = elim (option cmd) [
  | ok cmd' ↦ apply_options options cmd'
  | err e ↦ err (codes "invalid config option: " ++ e)
  | panic ↦ panic
]

-- `environ` is what os.Environ returns.
unfoldable pub new_command : List Str → CommandInfo → List Str → List CmdOption → Result Command
unfolding apply_options
new_command environ info env options = do
  cmd ← apply_options options (record {
    line = info.value;
    env = env_without_executor_config environ ++ env;
    output = discarded;
  })
  ok (record { cmd = some cmd; pid = 0; killing = false })

abbrev pub forward_cmd_output : CmdOption
forward_cmd_output cmd = ok (record cmd { output = forwarded })

abbrev pub scrap_cmd_output : CmdOption
scrap_cmd_output cmd = ok (record cmd { output = scraped })

start_cmd : (Cmd → Result ℕ) → Command → Option Cmd → Result Command
start_cmd run c none = err (codes "missing command to run")
start_cmd run c (some cmd) = run cmd >>= λ pid. ok (record c { pid = pid })

-- `run` is exec.Cmd.Start, which gives the process its pid.
unfoldable pub start : (Cmd → Result ℕ) → Command → Result Command
unfolding start_cmd
start run c = start_cmd run c c.cmd

pub data TaskExitCode : Type 0 where
  success_code failed_code killed_code : TaskExitCode

pub record TaskExitState : Type 0 where
  pub code : TaskExitCode
  pub error : Option Str

-- What Wait delivers: `error` is the error of exec.Cmd.Wait, `success` that of the process state.
unfoldable pub exit_state : Command → Option Str → Bool → TaskExitState
exit_state c (some e) success =
    if c.killing
    then record { code = killed_code; error = none }
    else record { code = failed_code; error = some e }
exit_state c none success =
    if success
    then record { code = success_code; error = none }
    else if c.killing
    then record { code = killed_code; error = none }
    else record { code = failed_code; error = none }

-- What Stop does to the system, in order.
pub data StopAction : Type 0 where
  signalled : Sent → StopAction
  waited : ℕ → StopAction

kill_actions : Result Sent → List StopAction
kill_actions (ok sent) = signalled sent ∷ []
kill_actions (err e) = []
kill_actions panic = []

term_actions : Result Sent → Os → ℕ → ℕ → List StopAction
unfolding kill_actions
term_actions (ok sent) later pid grace_period =
    signalled sent ∷ waited grace_period ∷ kill_actions (kill_tree later sig_kill pid)
term_actions (err e) later pid grace_period = []
term_actions panic later pid grace_period = []

-- `now` answers while SIGTERM is sent, `later` after the grace period.
unfoldable pub stop : Os → Os → Command → ℕ → List Str → Command × List StopAction
unfolding term_actions
stop now later c grace_period exclude = if c.killing then (c, []) else (
  record c { killing = true },
  term_actions (kill_tree_with_excludes now sig_term c.pid exclude) later c.pid grace_period,
)
