-- ===== src/Executor/Effects.antt =====
-- What the hook manager leaves in the executor's log, and in which order shutDown acts
-- (executor.go, with hook/manager.go).
use mathlib.Core.List.{append_assoc}
use mesos_executor.Common.{
  Str, ltb, Bool-cases, ◌<◌, ◌⊎◌, inl, inr, arith, ℕ, zero, suc, Option, none, some, List, [], ◌∷◌,
  ◌++◌, Bool, true, false, Result, ok, panic, Result-cases, was_ok, was_err, was_panic, ◌≡◌, refl,
  sym, ap, ◌∙◌, ◌≢◌, All, length,
}
use mesos_executor.Mesos.{TaskInfo, task_killing}
use mesos_executor.Hook
use mesos_executor.Hook.{Env, Hook, handle_from, handle_event, before_terminate}
use mesos_executor.Command.{Command}
use mesos_executor.Executor.{Platform, Config, Log, hooked, stopped, numbered, updated, plain}
use mesos_executor.Executor.Launch.{run_hooks}
use mesos_executor.Executor.Loop.{
  State, Outcome, crashed, shut_down, shut_down_task, announce_killing, grace_period,
}

-- The calls of `m` hooks from number `k` on, newest first.
abbrev pub called : ℕ → ℕ → Hook.Event → Log
called k zero event = []
called k (suc m) event = called (suc k) m event ++ hooked k event ∷ []

abbrev pub Answers : Type 0
Answers = List (Hook.Event → Log → Result Env)

pub called-suc :
    (k m : ℕ) (event : Hook.Event) (log : Log)
    → called (suc k) m event ++ hooked k event ∷ log ≡ called k (suc m) event ++ log
called-suc k m event log = sym (append_assoc (called (suc k) m event) (hooked k event ∷ []) log)

handle_from-called :
    (k : ℕ) (answers : Answers) (event : Hook.Event) (ignore : Bool) (env : Env) (log : Log)
    → (m : ℕ) × ((handle_from (numbered k answers) event ignore env log).0
        ≡ called k m event ++ log)
unfolding handle_from numbered
handle_from-called k [] event ignore env log = (0, refl)
handle_from-called k (answer ∷ answers) event true env log =
    elim (Result-cases (answer event (hooked k event ∷ log))) [
      | was_ok more e ↦
          let (m, h) =
            handle_from-called (suc k) answers event true (env ++ more) (hooked k event ∷ log) in
          (suc m, rw e (h ∙ called-suc k m event log))
      | was_err x e ↦
          let (m, h) = handle_from-called (suc k) answers event true env (hooked k event ∷ log) in
          (suc m, rw e (h ∙ called-suc k m event log))
      | was_panic e ↦ (1, rw e)
    ]
handle_from-called k (answer ∷ answers) event false env log =
    elim (Result-cases (answer event (hooked k event ∷ log))) [
      | was_ok more e ↦
          let (m, h) =
            handle_from-called (suc k) answers event false (env ++ more) (hooked k event ∷ log) in
          (suc m, rw e (h ∙ called-suc k m event log))
      | was_err x e ↦ (1, rw e)
      | was_panic e ↦ (1, rw e)
    ]

-- Whatever the answers are, the manager calls some of the hooks, from the first on, each once, and
-- does nothing else.
pub run_hooks-called :
    (p : Platform) (cfg : Config) (type : Hook.EventType) (t : TaskInfo) (ignore : Bool) (log : Log)
    → (m : ℕ) × ((run_hooks p cfg type t ignore log).0
        ≡ called 0 m (record { type = type; task_info = t }) ++ log)
unfolding handle_event
run_hooks-called p cfg type t ignore log = handle_from-called 0 p.hooks _ ignore [] log

-- No hook dereferences nil.
abbrev pub NoPanic : Answers → Type 0
NoPanic = All (λ answer. (event : Hook.Event) (log : Log) → answer event log ≢ panic)

-- All hooks are called, and no error is returned.
abbrev AllCalled : ℕ → Answers → Hook.Event → Log → Log × Result Env → Type 0
AllCalled k answers event log r =
    (env : Env) × (r ≡ (called k (length answers) event ++ log, ok env))

handle_from-all :
    (k : ℕ) (answers : Answers) (event : Hook.Event) (env : Env) (log : Log)
    → NoPanic answers
    → AllCalled k answers event log (handle_from (numbered k answers) event true env log)
unfolding handle_from numbered
handle_from-all k [] event env log n = (env, refl)
handle_from-all k (answer ∷ answers) event env log n =
    elim (Result-cases (answer event (hooked k event ∷ log))) [
      | was_ok more e ↦
          let (env', h) =
            handle_from-all (suc k) answers event (env ++ more) (hooked k event ∷ log) n.1 in
          (env', rw e (h ∙ ap (λ l. (l, ok env')) (called-suc k (length answers) event log)))
      | was_err x e ↦
          let (env', h) = handle_from-all (suc k) answers event env (hooked k event ∷ log) n.1 in
          (env', rw e (h ∙ ap (λ l. (l, ok env')) (called-suc k (length answers) event log)))
      | was_panic e ↦ absurd (n.0 event (hooked k event ∷ log) e)
    ]

-- As many reports of TASK_KILLING as capabilities TASK_KILLING_STATE among those of the framework.
abbrev pub killings : Str → List Bool → Log
killings id [] = []
killings id (true ∷ rest) =
    updated (record { task_id = id; state = task_killing; message = none; healthy = none })
    ∷ killings id rest
killings id (false ∷ rest) = killings id rest

killings-next :
    (id : Str) (rest : List Bool) (log : Log)
    → killings id rest ++ updated (plain id task_killing) ∷ log
      ≡ updated (plain id task_killing) ∷ (killings id rest ++ log)
killings-next id [] log = refl
killings-next id (true ∷ rest) log =
    ap (λ l. updated (plain id task_killing) ∷ l) (killings-next id rest log)
killings-next id (false ∷ rest) log = killings-next id rest log

announce_killing-killings :
    (id : Str) (capabilities : List Bool) (log : Log)
    → announce_killing id capabilities log ≡ killings id capabilities ++ log
unfolding announce_killing
announce_killing-killings id [] log = refl
announce_killing-killings id (true ∷ rest) log =
    announce_killing-killings id rest (updated (plain id task_killing) ∷ log)
    ∙ killings-next id rest log
announce_killing-killings id (false ∷ rest) log = announce_killing-killings id rest log

-- The grace period of the task's kill policy, or the configured one where it has none.
abbrev pub IsGraceOf : Config → TaskInfo → ℕ → Type 0
IsGraceOf cfg t grace =
    ((0 < t.kill_grace) × (grace ≡ t.kill_grace))
    ⊎ ((t.kill_grace ≡ 0) × (grace ≡ cfg.kill_policy_grace_period))

grace_period-IsGraceOf : (cfg : Config) (t : TaskInfo) → IsGraceOf cfg t (grace_period cfg t)
unfolding grace_period
grace_period-IsGraceOf cfg t = elim (Bool-cases (ltb 0 t.kill_grace)) [
  | inl given ↦ rw given (inl (ground arith, refl))
  | inr missing ↦ rw missing (inr (ground arith, refl))
]

-- shutDown with a task and a command, where no hook panics: the framework is told of the killing
-- first, once for each of its capabilities TASK_KILLING_STATE; then every hook is called once, in
-- order, with BeforeTerminate, whether or not others fail; and last the command is stopped, with
-- the grace period of the task's kill policy, or the configured one where it has none. After that
-- the loop goes on as the caller asks.
pub shut_down-order :
    (p : Platform) (cfg : Config) (s : State) (t : TaskInfo) (c : Command) (next : State → Outcome)
    → NoPanic p.hooks
    → s.task ≡ some t
    → s.cmd ≡ some c
    → let event : Hook.Event = record { type = before_terminate; task_info = t } in
      (grace : ℕ) × IsGraceOf cfg t grace
      × (shut_down p cfg s next
          ≡ next (record s {
            cmd = some (record c { killing = true });
            log =
                stopped c.pid grace cfg.sigterm_exclude_processes
                ∷ (called 0 (length p.hooks) event ++ (killings t.task_id s.framework ++ s.log));
          }))
unfolding shut_down handle_event
shut_down-order p cfg s t c next n ht hc =
    let event : Hook.Event = record { type = before_terminate; task_info = t } in
    let (env, h) =
      handle_from-all 0 p.hooks event [] (announce_killing t.task_id s.framework s.log) n in
    let told = announce_killing-killings t.task_id s.framework s.log in
    (grace_period cfg t, grace_period-IsGraceOf cfg t, rw (ht, hc, h, told) refl)

module _ (p : Platform) (cfg : Config) (P : Outcome → Type 0) (s : State)
    (next : State → Outcome) where
  -- The log when the hooks have been called.
  abbrev hooks_log : TaskInfo → Log
  hooks_log t =
      (run_hooks p cfg before_terminate t true (announce_killing t.task_id s.framework s.log)).0

  -- The state after the stop.
  abbrev stopped_state : TaskInfo → Command → State
  stopped_state t c = record s {
    cmd = some (record c { killing = true });
    log = stopped c.pid (grace_period cfg t) cfg.sigterm_exclude_processes ∷ hooks_log t;
  }

  shut_down_task_rule :
      (task : Option TaskInfo) (cmd : Option Command)
      → P (next s)
      → ((t : TaskInfo) (c : Command) → P (next (stopped_state t c)))
      → ((t : TaskInfo) → P (crashed (hooks_log t)))
      → P (shut_down_task p cfg task cmd s next)
  unfolding shut_down_task
  shut_down_task_rule none cmd idle stops crash = idle
  shut_down_task_rule (some t) none idle stops crash = idle
  shut_down_task_rule (some t) (some c) idle stops crash =
      elim (Result-cases
        (run_hooks p cfg before_terminate t true
          (announce_killing t.task_id s.framework s.log)).1) [
            | was_ok env g ↦ rw g (stops t c)
            | was_err m g ↦ rw g (stops t c)
            | was_panic g ↦ rw g (crash t)
          ]

  -- A statement about what shutDown leads to holds if it holds of what follows where there is
  -- nothing to stop, of what follows after the stop, and of a hook's panic.
  pub shut_down_rule :
      P (next s)
      → ((t : TaskInfo) (c : Command) → P (next (stopped_state t c)))
      → ((t : TaskInfo) → P (crashed (hooks_log t)))
      → P (shut_down p cfg s next)
  unfolding shut_down
  shut_down_rule = shut_down_task_rule s.task s.cmd
