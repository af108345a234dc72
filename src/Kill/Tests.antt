-- ===== src/Kill/Tests.antt =====
-- A process tree of three processes in two groups; the executor is process 1 in group 1.
use mesos_executor.Common.{
  atoi, str_eq, parse_digits, ℕ, ℤ, pos, Option, none, some, List, [], ◌∷◌, map, Str, codes, Result,
  ok, ◌≡◌, refl, ◌↔◌, In, Distinct, ◌==◌, if◌then◌else◌, negsuc,
}
use mesos_executor.Kill.{
  get_process_groups_in_tree, collect_groups, get_all_children, children_of_all, add_group,
  exclude_processes, parse_pids, retain, is_excluded, to_lower, Os, Proc, proc, nil, cons, sig_stop,
  sig_term, sig_kill, sig_cont, group, process, kill_tree, kill_tree_with_excludes,
  find_processes_in_groups, send_signals, wrap_with_stop_and_cont, Sent,
}
use mesos_executor.Kill.Groups.{GroupsOf, kill_tree-exact}
use mesos_executor.Kill.Excludes.{IsSpared, kill_tree_with_excludes-exact}

abbrev shell_tree : Proc
shell_tree = proc 7 (cons (proc 8 nil) (cons (proc 9 nil) nil))

abbrev group_of : ℕ → Result ℕ
group_of pid = if pid == 9 then ok 9 else if pid == 1 then ok 1 else ok 7

abbrev listed : ℕ → Result (List Str)
listed g = if g == 9 then ok (codes "9" ∷ []) else ok (codes "7" ∷ codes "8" ∷ [])

abbrev name_of : ℤ → Option Str
name_of (pos pid) = if pid == 8 then some (codes "Nginx") else some (codes "sh")
name_of (negsuc n) = none

abbrev machine : Os
machine = record {
  new_process = λ pid. ok shell_tree;
  getpid = 1;
  getpgid = group_of;
  pgrep = listed;
  gone = λ pid. none;
  name = name_of;
}

abbrev term_sent : Sent
term_sent =
    (sig_stop, group 7)
    ∷ (sig_stop, group 9)
    ∷ (sig_term, group 7)
    ∷ (sig_term, group 9)
    ∷ (sig_cont, group 7)
    ∷ (sig_cont, group 9)
    ∷ []

kill_tree_runs : kill_tree machine sig_term 7 ≡ ok term_sent
unfolding kill_tree get_process_groups_in_tree collect_groups get_all_children children_of_all
    send_signals add_group
kill_tree_runs = refl

kill_tree-exact_example :
    (groups : List ℕ) × (term_sent
      ≡ send_signals (wrap_with_stop_and_cont sig_term) (map group groups))
    × Distinct groups
    × GroupsOf machine 7 groups
kill_tree-exact_example = kill_tree-exact machine sig_term 7 kill_tree_runs

abbrev kill_sent : Sent
kill_sent =
    (sig_stop, process (pos 7))
    ∷ (sig_stop, process (pos 9))
    ∷ (sig_kill, process (pos 7))
    ∷ (sig_kill, process (pos 9))
    ∷ []

kill_tree_with_excludes_runs :
    kill_tree_with_excludes machine sig_kill 7 (codes "nginx" ∷ []) ≡ ok kill_sent
unfolding kill_tree_with_excludes get_process_groups_in_tree collect_groups get_all_children
    children_of_all send_signals add_group find_processes_in_groups exclude_processes parse_pids
    retain is_excluded to_lower atoi parse_digits str_eq
kill_tree_with_excludes_runs = refl

kill_tree_with_excludes-exact_example :
    (groups : List ℕ) × (pids : List ℤ) × (kept : List ℤ) × GroupsOf machine 7 groups
    × (find_processes_in_groups machine groups ≡ ok pids)
    × (kill_sent ≡ send_signals (wrap_with_stop_and_cont sig_kill) (map process kept))
    × ((a : ℤ) → In a kept ↔ (In a pids × (¬ IsSpared machine (codes "nginx" ∷ []) a)))
kill_tree_with_excludes-exact_example =
    kill_tree_with_excludes-exact machine sig_kill 7 (codes "nginx") [] kill_tree_with_excludes_runs
