-- ===== src/Hook.antt =====
-- hook/hook.go, hook/manager.go and hook/exec/hook.go. A hook works on a state `W`, which stands
-- for all that its call can change; it returns the new state and a (Env, error) pair.
pub mod Manager
pub mod Command
mod Tests
use mesos_executor.Common.{
  ℕ, Option, none, some, List, [], ◌∷◌, ◌++◌, Str, codes, Bool, true, false, if◌then◌else◌, Result,
  ok, err, panic, ◌==◌,
}
use mesos_executor.Mesos.{TaskInfo}

pub data EventType : Type 0 where
  before_task_start after_task_healthy before_terminate : EventType

pub record Event : Type 0 where
  pub type : EventType
  pub task_info : TaskInfo

-- Entries of the form VAR=value.
abbrev pub Env : Type 0
Env = List Str

abbrev pub Hook : Type 0 → Type 0
Hook W = Event → W → W × Result Env

unfoldable pub noop_hook : {W : Type 0} → Hook W
noop_hook event w = (w, ok [])

-- The loop of Manager.HandleEvent from `combinedEnv` on. A panic of a hook unwinds the loop.
unfoldable pub handle_from : {W : Type 0} → List (Hook W) → Event → Bool → Env → W → W × Result Env
handle_from [] event ignore_errors combined w = (w, ok combined)
handle_from (hook ∷ hooks) event ignore_errors combined w =
    let (w', result) = hook event w in
    elim result [
      | ok more ↦ handle_from hooks event ignore_errors (combined ++ more) w'
      | err e ↦
          let rest = handle_from hooks event ignore_errors combined w' in
          if ignore_errors then rest else (w', err e)
      | panic ↦ (w', panic)
    ]

unfoldable pub handle_event : {W : Type 0} → List (Hook W) → Event → Bool → W → W × Result Env
unfolding handle_from
handle_event hooks event ignore_errors w = handle_from hooks event ignore_errors [] w
