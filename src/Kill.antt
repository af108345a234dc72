-- ===== src/Kill.antt =====
-- os/kill.go: signals to a whole process tree. What the system answers is the parameter `os`:
-- the process table, pgrep and syscall.Getpgid; the signals sent are returned in order, since the
-- result of syscall.Kill is only logged.
pub mod Groups
pub mod Excludes
mod Tests
use mesos_executor.Common.{
  ℕ, Option, none, some, List, [], ◌∷◌, ◌++◌, map, Str, codes, str_eq, Bool, true, false, ◌||◌,
  if◌then◌else◌, Result, ok, err, panic, ◌>>=◌, ◌>>◌, ◌==◌, leb, ◌&&◌, ◌+◌, print_ℕ, parse_digits,
  atoi, ℤ, pos, negsuc, ltb, ◌-◌,
}

pub data Signal : Type 0 where
  sig_stop sig_term sig_kill sig_cont : Signal

-- `group g` is the pid argument -g of syscall.Kill.
pub data Target : Type 0 where
  group : ℕ → Target
  process : ℤ → Target

abbrev pub Sent : Type 0
Sent = List (Signal × Target)

-- A process with the processes that `Children` answers for it, all the way down.
mutual
  pub data Proc : Type 0 where
    proc : ℕ → Procs → Proc

  pub data Procs : Type 0 where
    nil : Procs
    cons : Proc → Procs → Procs

pub record Os : Type 0 where
  -- process.NewProcess, with what Children answers below it
  pub new_process : ℕ → Result Proc
  pub getpid : ℕ
  pub getpgid : ℕ → Result ℕ
  -- the lines that `pgrep -g` prints
  pub pgrep : ℕ → Result (List Str)
  -- the error of process.NewProcess for a pid that pgrep printed, or none
  pub gone : ℤ → Option Str
  -- (*process.Process).Name, none on an error
  pub name : ℤ → Option Str

abbrev pid_of : Proc → ℕ
pid_of (proc pid cs) = pid

abbrev pids : Procs → List ℕ
pids nil = []
pids (cons c cs) = pid_of c ∷ pids cs

mutual
  pub get_all_children : Proc → List ℕ
  get_all_children (proc pid cs) = pids cs ++ children_of_all cs

  pub children_of_all : Procs → List ℕ
  children_of_all nil = []
  children_of_all (cons c cs) = get_all_children c ++ children_of_all cs

abbrev pub elem : ℕ → List ℕ → Bool
elem a [] = false
elem a (x ∷ xs) = x == a || elem a xs

abbrev pub map_err {ℓ} : {A : Type ℓ} → Str → Result A → Result A
map_err prefix (ok a) = ok a
map_err prefix (err e) = err (prefix ++ e)
map_err prefix panic = panic

-- One round of the loop over the processes; `pgidsSeen` holds the members of `pgids`.
add_group : ℕ → ℕ → List ℕ → List ℕ
add_group cur_pgid pgid pgids =
    if pgid == cur_pgid then pgids else if elem pgid pgids then pgids else pgids ++ pgid ∷ []

abbrev child_error : Str
child_error = codes "error getting child process pgid: "

abbrev current_error : Str
current_error = codes "error getting current process pgid: "

abbrev pub wrap_with_stop_and_cont : Signal → List Signal
wrap_with_stop_and_cont sig_kill = sig_stop ∷ sig_kill ∷ []
wrap_with_stop_and_cont signal = sig_stop ∷ signal ∷ sig_cont ∷ []

-- Both loops of sendSignalsToProcessGroups and of sendSignalsToProcesses.
pub send_signals : List Signal → List Target → Sent
send_signals [] targets = []
send_signals (s ∷ signals) targets = map (λ t. (s, t)) targets ++ send_signals signals targets

-- strings.ToLower on ASCII text.
abbrev lower_byte : ℕ → ℕ
lower_byte c = if leb b'A' c && leb c b'Z' then c + 32 else c

pub to_lower : Str → Str
to_lower s = map lower_byte s

pub is_excluded : Str → List Str → Bool
unfolding to_lower
is_excluded name [] = false
is_excluded name (e ∷ es) = str_eq (to_lower name) (to_lower e) || is_excluded name es

-- The scanner loop of findProcessesInGroups over the lines of one pgrep.
parse_pids : List Str → Result (List ℤ)
parse_pids [] = ok []
parse_pids (line ∷ lines) = elim (atoi line) [
  | none ↦ err (codes "cannot convert pgrep output: " ++ line)
  | some pid ↦ parse_pids lines >>= λ rest. ok (pid ∷ rest)
]

abbrev pgrep_error : ℕ → Str
pgrep_error pgid = codes "'pgrep -g " ++ print_ℕ pgid ++ codes "' failed: "

-- What one round of the loop of excludeProcesses keeps.
retain : ℤ → Option Str → List Str → List ℤ → List ℤ
unfolding is_excluded
retain pid none exclude rest = pid ∷ rest
retain pid (some name) exclude rest = if is_excluded name exclude then rest else pid ∷ rest

module _ (os : Os) where
  pub collect_groups : ℕ → List ℕ → List ℕ → Result (List ℕ)
  unfolding add_group
  collect_groups cur_pgid [] pgids = ok pgids
  collect_groups cur_pgid (pid ∷ rest) pgids = do
    pgid ← map_err child_error (os.getpgid pid)
    collect_groups cur_pgid rest (add_group cur_pgid pgid pgids)

  pub get_process_groups_in_tree : ℕ → Result (List ℕ)
  get_process_groups_in_tree pid = do
    root ← os.new_process pid
    cur_pgid ← map_err current_error (os.getpgid os.getpid)
    collect_groups cur_pgid (get_all_children root ++ pid_of root ∷ []) []

  pub kill_tree : Signal → ℕ → Result Sent
  kill_tree signal pid = do
    pgids ← get_process_groups_in_tree pid
    ok (send_signals (wrap_with_stop_and_cont signal) (map group pgids))

  pub find_processes_in_groups : List ℕ → Result (List ℤ)
  unfolding parse_pids
  find_processes_in_groups [] = ok []
  find_processes_in_groups (pgid ∷ pgids) = do
    lines ← map_err (pgrep_error pgid) (os.pgrep pgid)
    pids ← parse_pids lines
    rest ← find_processes_in_groups pgids
    ok (pids ++ rest)

  pub exclude_processes : List ℤ → List Str → Result (List ℤ)
  unfolding retain
  exclude_processes [] exclude = ok []
  exclude_processes (pid ∷ pids) exclude = elim (os.gone pid) [
    | some e ↦ err e
    | none ↦ exclude_processes pids exclude >>= λ rest. ok (retain pid (os.name pid) exclude rest)
  ]

  pub kill_tree_with_excludes : Signal → ℕ → List Str → Result Sent
  unfolding kill_tree
  kill_tree_with_excludes signal pid [] = kill_tree signal pid
  kill_tree_with_excludes signal pid (e ∷ es) = do
    pgids ← get_process_groups_in_tree pid
    pids ← find_processes_in_groups pgids
    kept ← exclude_processes pids (e ∷ es)
    ok (send_signals (wrap_with_stop_and_cont signal) (map process kept))
