-- ===== src/Hook/Command.antt =====
-- hook/exec/hook.go: one external command for each event type. Running a command (os/exec) is a
-- parameter: it changes the state `W`, and returns an error or none.
use mesos_executor.Common.{
  Option, none, some, List, [], ◌∷◌, ◌++◌, Str, Bool, true, false, if◌then◌else◌, Result, ok, err,
  ◌≡◌, refl, arith,
}
use mesos_executor.Hook.{
  EventType, before_task_start, after_task_healthy, before_terminate, Hook, Event, Env,
}

pub record ExecCmd : Type 0 where
  pub name : Str
  pub args : List Str

abbrev pub type_eq : EventType → EventType → Bool
type_eq before_task_start before_task_start = true
type_eq after_task_healthy after_task_healthy = true
type_eq before_terminate before_terminate = true
type_eq _ _ = false

-- The map of the hook: a command or none for each event type.
abbrev pub Commands : Type 0
Commands = EventType → Option ExecCmd

pub hook_command : EventType → Str → List Str → Commands → Commands
hook_command type name args commands =
    λ t. if type_eq type t then some (record { name = name; args = args }) else commands t

apply_all : List (Commands → Commands) → Commands → Commands
apply_all [] c = c
apply_all (f ∷ fs) c = apply_all fs (f c)

pub new_hook : List (Commands → Commands) → Commands
unfolding apply_all
new_hook commands = apply_all commands (λ t. none)

abbrev error_result : Option Str → Result Env
error_result none = ok []
error_result (some e) = err e

module _ {W : Type 0} (run : ExecCmd → W → W × Option Str) where
  run_command : Option ExecCmd → W → W × Result Env
  run_command none w = (w, ok [])
  run_command (some cmd) w = let (w', e) = run cmd w in (w', error_result e)

  pub command_hook : Commands → Hook W
  unfolding run_command
  command_hook commands event w = run_command (commands event.type) w

apply_all-append :
    (fs gs : List (Commands → Commands)) (c : Commands)
    → apply_all (fs ++ gs) c ≡ apply_all gs (apply_all fs c)
unfolding apply_all
apply_all-append [] gs c = refl
apply_all-append (f ∷ fs) gs c = apply_all-append fs gs (f c)

-- The hook runs the command that was configured last for the event's type, and returns its
-- error; an event of another type is handled as it was before that option was given.
command_hook-new_hook :
    {W : Type 0} (run : ExecCmd → W → W × Option Str) (options : List (Commands → Commands))
    (type : EventType) (name : Str) (args : List Str) (event : Event) (w : W)
    → let cmd : ExecCmd = record { name = name; args = args } in
      command_hook run (new_hook (options ++ hook_command type name args ∷ [])) event w ≡ (
        if type_eq type event.type
        then ((run cmd w).0, error_result (run cmd w).1)
        else command_hook run (new_hook options) event w)
unfolding new_hook hook_command command_hook
command_hook-new_hook run options type name args event w =
    rw (apply_all-append options (hook_command type name args ∷ []) (λ t. none)) (ground arith)
