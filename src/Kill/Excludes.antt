-- ===== src/Kill/Excludes.antt =====
-- Which processes KillTreeWithExcludes signals (os/kill.go).
use mesos_executor.Common.{
  ℕ, ℤ, Option, none, some, List, [], ◌∷◌, map, Str, str_eq, str_eq_iff, true, false, ok, ◌≡◌, refl,
  ap, ◌⊎◌, inl, inr, ◌↔◌, arith, In, Bool-cases, Option-cases, err≢ok, >>=-eq_ok, subst, sym, ◌∙◌,
}
use mesos_executor.Kill.{
  Os, Signal, Sent, process, to_lower, is_excluded, retain, exclude_processes,
  find_processes_in_groups, get_process_groups_in_tree, kill_tree_with_excludes, send_signals,
  wrap_with_stop_and_cont,
}
use mesos_executor.Kill.Groups.{GroupsOf, get_process_groups_in_tree_lem}

-- Some entry of the list is the name, letter case aside.
abbrev pub Excluded : Str → List Str → Type 0
Excluded name es = (e : Str) × In e es × (to_lower name ≡ to_lower e)

is_excluded-Excluded : (name : Str) (es : List Str) → is_excluded name es ≡ true → Excluded name es
unfolding is_excluded
is_excluded-Excluded name [] h = cc
is_excluded-Excluded name (e ∷ es) h = elim (Bool-cases (str_eq (to_lower name) (to_lower e))) [
  | inl same ↦ (e, inl refl, (str_eq_iff (to_lower name) (to_lower e)).0 same)
  | inr other ↦ let (f, m, p) = is_excluded-Excluded name es (ground arith) in (f, inr m, p)
]

Excluded-is_excluded : (name : Str) (es : List Str) → Excluded name es → is_excluded name es ≡ true
unfolding is_excluded
Excluded-is_excluded name [] (f, m, p) = absurd m
Excluded-is_excluded name (e ∷ es) (f, inl same, p) =
    rw ((str_eq_iff (to_lower name) (to_lower e)).1 (p ∙ ap to_lower (sym same)))
Excluded-is_excluded name (e ∷ es) (f, inr m, p) =
    ground (arith, Excluded-is_excluded name es (f, m, p))

module _ (os : Os) (es : List Str) where
  -- The process has a name, and the name is on the list.
  abbrev pub IsSpared : ℤ → Type 0
  IsSpared pid = (name : Str) × (os.name pid ≡ some name) × Excluded name es

  not-IsSpared :
      {pid : ℤ} (name : Str)
      → is_excluded name es ≡ false
      → os.name pid ≡ some name
      → ¬ IsSpared pid
  not-IsSpared name miss e (other, e', (f, m, p)) =
      let same : name ≡ other = cc in cc (Excluded-is_excluded name es (f, m, ap to_lower same ∙ p))

  retain_to :
      (pid a : ℤ) (rest : List ℤ) (o : Option Str)
      → os.name pid ≡ o
      → In a (retain pid o es rest)
      → ((pid ≡ a) × (¬ IsSpared pid)) ⊎ In a rest
  unfolding retain
  retain_to pid a rest none e (inl same) = inl (same, λ s. cc (s.1))
  retain_to pid a rest none e (inr m) = inr m
  retain_to pid a rest (some name) e m = elim (Bool-cases (is_excluded name es)) [
    | inl hit ↦ inr (rw hit at m)
    | inr miss ↦ elim (kept_or miss) [
      | inl same ↦ inl (same, not-IsSpared name miss e)
      | inr r ↦ inr r
    ]
  ]
    where
      kept_or : is_excluded name es ≡ false → (pid ≡ a) ⊎ In a rest
      kept_or miss = rw miss at m

  retain_from :
      (pid a : ℤ) (rest : List ℤ) (o : Option Str)
      → os.name pid ≡ o
      → ((pid ≡ a) × (¬ IsSpared pid)) ⊎ In a rest
      → In a (retain pid o es rest)
  unfolding retain
  retain_from pid a rest none e (inl (same, n)) = inl same
  retain_from pid a rest none e (inr m) = inr m
  retain_from pid a rest (some name) e (inl (same, n)) = elim (Bool-cases (is_excluded name es)) [
    | inl hit ↦ absurd (n (name, e, is_excluded-Excluded name es hit))
    | inr miss ↦ rw miss (inl same)
  ]
  retain_from pid a rest (some name) e (inr m) = elim (Bool-cases (is_excluded name es)) [
    | inl hit ↦ rw hit m
    | inr miss ↦ rw miss (inr m)
  ]

  exclude_processes_lem :
      (pids kept : List ℤ)
      → exclude_processes os pids es ≡ ok kept
      → (a : ℤ) → In a kept ↔ (In a pids × (¬ IsSpared a))
  unfolding exclude_processes
  exclude_processes_lem [] kept h a =
      let e : [] ≡ kept = cc in rw (← e) (λ m. absurd m, λ m. absurd m.0)
  exclude_processes_lem (pid ∷ pids) kept h a = elim (Option-cases (os.gone pid)) [
    | inr (m, e) ↦ absurd (err≢ok (rw (e, exclude_processes) at h))
    | inl e ↦
        let (rest, h1, h2) =
          >>=-eq_ok (exclude_processes os pids es) _ (rw (e, exclude_processes) at h) in
        let same : retain pid (os.name pid) es rest ≡ kept = cc in
        let ih = exclude_processes_lem pids rest h1 a in rw (← same) (to rest ih, from rest ih)
  ]
    where
      to :
          (rest : List ℤ)
          → (In a rest ↔ (In a pids × (¬ IsSpared a)))
          → In a (retain pid (os.name pid) es rest)
          → In a (pid ∷ pids) × (¬ IsSpared a)
      to rest ih m = elim (retain_to pid a rest (os.name pid) refl m) [
        | inl (same, n) ↦ (inl same, subst (λ x. ¬ IsSpared x) same n)
        | inr r ↦ (inr (ih.0 r).0, (ih.0 r).1)
      ]

      from :
          (rest : List ℤ)
          → (In a rest ↔ (In a pids × (¬ IsSpared a)))
          → In a (pid ∷ pids) × (¬ IsSpared a)
          → In a (retain pid (os.name pid) es rest)
      from rest ih (inl same, n) =
          retain_from pid a rest (os.name pid) refl
            (inl (same, subst (λ x. ¬ IsSpared x) (sym same) n))
      from rest ih (inr m, n) = retain_from pid a rest (os.name pid) refl (inr (ih.1 (m, n)))

-- With names to exclude, where KillTreeWithExcludes succeeds it has found the groups of the tree
-- and the processes that pgrep lists in them, and has sent SIGSTOP, the signal and SIGCONT (the
-- last one not after SIGKILL) to processes alone: to a process if and only if pgrep listed it and
-- it has no name that is on the list, letter case aside.
pub kill_tree_with_excludes-exact :
    (os : Os) (signal : Signal) (pid : ℕ) (e : Str) (es : List Str) {sent : Sent}
    → kill_tree_with_excludes os signal pid (e ∷ es) ≡ ok sent
    → (groups : List ℕ) × (pids : List ℤ) × (kept : List ℤ) × GroupsOf os pid groups
      × (find_processes_in_groups os groups ≡ ok pids)
      × (sent ≡ send_signals (wrap_with_stop_and_cont signal) (map process kept))
      × ((a : ℤ) → In a kept ↔ (In a pids × (¬ IsSpared os (e ∷ es) a)))
unfolding kill_tree_with_excludes
kill_tree_with_excludes-exact os signal pid e es h =
    let (groups, g, h1) = >>=-eq_ok (get_process_groups_in_tree os pid) _ h in
    let (pids, p, h2) = >>=-eq_ok (find_processes_in_groups os groups) _ h1 in
    let (kept, k, h3) = >>=-eq_ok (exclude_processes os pids (e ∷ es)) _ h2 in
    (
      groups,
      pids,
      kept,
      (get_process_groups_in_tree_lem os pid groups g).1,
      p,
      cc,
      exclude_processes_lem os (e ∷ es) pids kept k,
    )
