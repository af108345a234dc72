-- ===== src/Hook/Manager.antt =====
-- What Manager.HandleEvent promises (hook/manager.go), against the answers that the hooks give
-- when they are simply called one after the other.
use mathlib.Core.List.{append_assoc, append-nil}
use mesos_executor.Common.{
  List, [], ◌∷◌, ◌++◌, Str, true, false, Result, ok, err, panic, Result-cases, was_ok, was_err,
  was_panic, ◌≡◌, ◌∙◌, All,
}
use mesos_executor.Hook.{Hook, Event, Env, handle_from, handle_event}

module _ {W : Type 0} where
  -- The state after every hook was called in turn, and their answers.
  abbrev pub after_all : List (Hook W) → Event → W → W
  after_all [] event w = w
  after_all (hook ∷ hooks) event w = after_all hooks event (hook event w).0

  abbrev pub answers : List (Hook W) → Event → W → List (Result Env)
  answers [] event w = []
  answers (hook ∷ hooks) event w = (hook event w).1 ∷ answers hooks event (hook event w).0

-- The variables of the answers that succeed, in order.
abbrev pub granted : List (Result Env) → Env
granted [] = []
granted (ok env ∷ rs) = env ++ granted rs
granted (err e ∷ rs) = granted rs
granted (panic ∷ rs) = granted rs

abbrev pub Succeeds : Result Env → Type 0
Succeeds (ok env) = Unit
Succeeds (err e) = ⊥
Succeeds panic = ⊥

abbrev pub Returns : Result Env → Type 0
Returns (ok env) = Unit
Returns (err e) = Unit
Returns panic = ⊥

module _ {W : Type 0} where
  handle_from-ignore :
      (hooks : List (Hook W)) (event : Event) (env : Env) (w : W)
      → All Returns (answers hooks event w)
      → handle_from hooks event true env w
        ≡ (after_all hooks event w, ok (env ++ granted (answers hooks event w)))
  unfolding handle_from
  handle_from-ignore [] event env w h = rw (append-nil env)
  handle_from-ignore (hook ∷ hooks) event env w h = elim (Result-cases (hook event w).1) [
    | was_ok more e ↦
        rw e (handle_from-ignore hooks event (env ++ more) (hook event w).0 h.1 ∙ simp append_assoc)
    | was_err m e ↦ rw e (handle_from-ignore hooks event env (hook event w).0 h.1)
    | was_panic e ↦ absurd (rw e at h.0)
  ]

  -- With errors ignored every hook is called, in order, whatever the others return; the result is
  -- the variables of those that succeed, in order, and never an error. (No hook panics.)
  pub handle_event-ignore :
      (hooks : List (Hook W)) (event : Event) (w : W)
      → All Returns (answers hooks event w)
      → handle_event hooks event true w
        ≡ (after_all hooks event w, ok (granted (answers hooks event w)))
  unfolding handle_event
  handle_event-ignore hooks event w h = handle_from-ignore hooks event [] w h

  handle_from-ok :
      (hooks : List (Hook W)) (event : Event) (env : Env) (w : W)
      → All Succeeds (answers hooks event w)
      → handle_from hooks event false env w
        ≡ (after_all hooks event w, ok (env ++ granted (answers hooks event w)))
  unfolding handle_from
  handle_from-ok [] event env w h = rw (append-nil env)
  handle_from-ok (hook ∷ hooks) event env w h = elim (Result-cases (hook event w).1) [
    | was_ok more e ↦
        rw e (handle_from-ok hooks event (env ++ more) (hook event w).0 h.1 ∙ simp append_assoc)
    | was_err m e ↦ absurd (rw e at h.0)
    | was_panic e ↦ absurd (rw e at h.0)
  ]

  handle_from-stop :
      (before : List (Hook W)) (hook : Hook W) (later : List (Hook W)) (event : Event) (env : Env)
      (w : W) (m : Str)
      → All Succeeds (answers before event w)
      → (hook event (after_all before event w)).1 ≡ err m
      → handle_from (before ++ hook ∷ later) event false env w
        ≡ ((hook event (after_all before event w)).0, err m)
  unfolding handle_from
  handle_from-stop [] hook later event env w m h fails = rw fails
  handle_from-stop (first ∷ before) hook later event env w m h fails =
      elim (Result-cases (first event w).1) [
        | was_ok more e ↦
            rw e
              (handle_from-stop before hook later event (env ++ more) (first event w).0 m h.1 fails)
        | was_err n e ↦ absurd (rw e at h.0)
        | was_panic e ↦ absurd (rw e at h.0)
      ]

  -- Without ignoring errors, where all hooks succeed each is called, in order, and the result is
  -- their variables, in order.
  handle_event-ok :
      (hooks : List (Hook W)) (event : Event) (w : W)
      → All Succeeds (answers hooks event w)
      → handle_event hooks event false w
        ≡ (after_all hooks event w, ok (granted (answers hooks event w)))
  unfolding handle_event
  handle_event-ok hooks event w h = handle_from-ok hooks event [] w h

  -- Without ignoring errors, the first hook that fails ends the round: its error is the result,
  -- and whatever hooks stand behind it are not called.
  pub handle_event-stop :
      (before : List (Hook W)) (hook : Hook W) (later : List (Hook W)) (event : Event) (w : W)
      (m : Str)
      → All Succeeds (answers before event w)
      → (hook event (after_all before event w)).1 ≡ err m
      → handle_event (before ++ hook ∷ later) event false w
        ≡ ((hook event (after_all before event w)).0, err m)
  unfolding handle_event
  handle_event-stop before hook later event w m h fails =
      handle_from-stop before hook later event [] w m h fails
