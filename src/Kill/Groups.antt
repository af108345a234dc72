-- ===== src/Kill/Groups.antt =====
-- Which process groups KillTree signals (os/kill.go), against the process tree itself.
use mesos_executor.Common.{
  ℕ, List, [], ◌∷◌, ◌++◌, map, true, Result, ok, err, panic, Result-cases, was_ok, was_err,
  was_panic, ◌≡◌, refl, ap, ◌≢◌, ◌⊎◌, inl, inr, ◌↔◌, arith, In, Distinct, In-append_left,
  In-append_right, In-append_cases, Distinct-concat, Bool-cases, ◌==◌, subst, Str, err≢ok, panic≢ok,
  >>=-eq_ok,
}
use mesos_executor.Kill.{
  Os, Proc, Procs, proc, nil, cons, pid_of, pids, get_all_children, children_of_all, elem,
  add_group, collect_groups, get_process_groups_in_tree, kill_tree, send_signals,
  wrap_with_stop_and_cont, Signal, Sent, group, map_err, current_error,
}

-- The process `p` stands in a tree, or in one of several.
mutual
  pub data InTree (p : ℕ) : Proc → Type 0 where
    root : {q : ℕ} {cs : Procs} → q ≡ p → InTree p (proc q cs)
    below : {q : ℕ} {cs : Procs} → InForest p cs → InTree p (proc q cs)

  pub data InForest (p : ℕ) : Procs → Type 0 where
    head : {c : Proc} {cs : Procs} → InTree p c → InForest p (cons c cs)
    tail : {c : Proc} {cs : Procs} → InForest p cs → InForest p (cons c cs)

mutual
  unfolding get_all_children children_of_all

  descendants_complete :
      (p : ℕ) (c : Proc) → InTree p c → (pid_of c ≡ p) ⊎ In p (get_all_children c)
  descendants_complete p (proc q cs) (root e) = inl e
  descendants_complete p (proc q cs) (below f) = inr (elim (forest_complete p cs f) [
    | inl h ↦ In-append_left p (pids cs) (children_of_all cs) h
    | inr h ↦ In-append_right p (pids cs) (children_of_all cs) h
  ])

  forest_complete :
      (p : ℕ) (cs : Procs) → InForest p cs → In p (pids cs) ⊎ In p (children_of_all cs)
  forest_complete p nil f = elim f [ ]
  forest_complete p (cons c cs) (head t) = elim (descendants_complete p c t) [
    | inl e ↦ inl (inl e)
    | inr h ↦ inr (In-append_left p (get_all_children c) (children_of_all cs) h)
  ]
  forest_complete p (cons c cs) (tail f) = elim (forest_complete p cs f) [
    | inl h ↦ inl (inr h)
    | inr h ↦ inr (In-append_right p (get_all_children c) (children_of_all cs) h)
  ]

root_of : (c : Proc) → InTree (pid_of c) c
root_of (proc q cs) = root refl

pids_sound : (p : ℕ) (cs : Procs) → In p (pids cs) → InForest p cs
pids_sound p nil h = absurd h
pids_sound p (cons c cs) (inl e) = head (subst (λ x. InTree x c) e (root_of c))
pids_sound p (cons c cs) (inr h) = tail (pids_sound p cs h)

mutual
  unfolding get_all_children children_of_all

  descendants_sound : (p : ℕ) (c : Proc) → In p (get_all_children c) → InTree p c
  descendants_sound p (proc q cs) h = elim (In-append_cases p (pids cs) (children_of_all cs) h) [
    | inl l ↦ below (pids_sound p cs l)
    | inr r ↦ below (forest_sound p cs r)
  ]

  forest_sound : (p : ℕ) (cs : Procs) → In p (children_of_all cs) → InForest p cs
  forest_sound p nil h = absurd h
  forest_sound p (cons c cs) h =
      elim (In-append_cases p (get_all_children c) (children_of_all cs) h) [
        | inl l ↦ head (descendants_sound p c l)
        | inr r ↦ tail (forest_sound p cs r)
      ]

-- The list that KillTree walks holds the processes of the tree.
processes_iff : (p : ℕ) (c : Proc) → In p (get_all_children c ++ pid_of c ∷ []) ↔ InTree p c
processes_iff p c = (
  λ h. elim (In-append_cases p (get_all_children c) (pid_of c ∷ []) h) [
    | inl l ↦ descendants_sound p c l
    | inr r ↦ elim r [ inl e ↦ subst (λ x. InTree x c) e (root_of c) | inr z ↦ absurd z ]
  ],
  λ t. elim (descendants_complete p c t) [
    | inl e ↦ In-append_right p (get_all_children c) (pid_of c ∷ []) (inl e)
    | inr h ↦ In-append_left p (get_all_children c) (pid_of c ∷ []) h
  ],
)

elem_iff : (a : ℕ) (xs : List ℕ) → (elem a xs ≡ true) ↔ In a xs
elem_iff a [] = ground arith
elem_iff a (x ∷ xs) = ground (arith, elem_iff a xs)

add_group-In_to :
    (cur g : ℕ) (gs : List ℕ) (a : ℕ) → In a (add_group cur g gs) → In a gs ⊎ ((g ≡ a) × (a ≢ cur))
unfolding add_group
add_group-In_to cur g gs a = elim (Bool-cases (g == cur)) [
  | inl own ↦ rw own (λ h. inl h)
  | inr other ↦ rw other (elim (Bool-cases (elem g gs)) [
    | inl seen ↦ rw seen (λ h. inl h)
    | inr new ↦ rw new (λ h. elim (In-append_cases a gs (g ∷ []) h) [
      | inl l ↦ inl l
      | inr r ↦ elim r [ inl e ↦ inr (e, ground arith) | inr z ↦ absurd z ]
    ])
  ])
]

add_group-In_from :
    (cur g : ℕ) (gs : List ℕ) (a : ℕ) → In a gs ⊎ ((g ≡ a) × (a ≢ cur)) → In a (add_group cur g gs)
unfolding add_group
add_group-In_from cur g gs a (inl h) = ground (arith, In-append_left a gs (g ∷ []) h)
add_group-In_from cur g gs a (inr (e, n)) =
    rw (← e) (ground (arith, elem_iff g gs, In-append_right g gs (g ∷ []) (inl refl)))

add_group-Distinct : (cur g : ℕ) (gs : List ℕ) → Distinct gs → Distinct (add_group cur g gs)
unfolding add_group
add_group-Distinct cur g gs d = elim (Bool-cases (g == cur)) [
  | inl own ↦ rw own d
  | inr other ↦ rw other (elim (Bool-cases (elem g gs)) [
    | inl seen ↦ rw seen d
    | inr new ↦ rw new (Distinct-concat g gs d (λ h. cc ((elem_iff g gs).1 h)))
  ])
]

map_err-eq_ok {ℓ} : {A : Type ℓ} (m : Str) (r : Result A) {a : A} → map_err m r ≡ ok a → r ≡ ok a
map_err-eq_ok m (ok a) h = h
map_err-eq_ok m (err e) h = cc
map_err-eq_ok m panic h = cc

module _ (os : Os) (cur : ℕ) where
  -- What the loop finds among `ps`.
  abbrev Found : ℕ → List ℕ → Type 0
  Found a ps = (p : ℕ) × In p ps × (os.getpgid p ≡ ok a) × (a ≢ cur)

  Found-to :
      (p g : ℕ) (ps gs : List ℕ) (a : ℕ)
      → os.getpgid p ≡ ok g
      → In a (add_group cur g gs) ⊎ Found a ps
      → In a gs ⊎ Found a (p ∷ ps)
  Found-to p g ps gs a e (inl h) = elim (add_group-In_to cur g gs a h) [
    | inl old ↦ inl old
    | inr (same, other) ↦ inr (p, inl refl, cc, other)
  ]
  Found-to p g ps gs a e (inr (q, m, f, n)) = inr (q, inr m, f, n)

  Found-from :
      (p g : ℕ) (ps gs : List ℕ) (a : ℕ)
      → os.getpgid p ≡ ok g
      → In a gs ⊎ Found a (p ∷ ps)
      → In a (add_group cur g gs) ⊎ Found a ps
  Found-from p g ps gs a e (inl h) = inl (add_group-In_from cur g gs a (inl h))
  Found-from p g ps gs a e (inr (q, inl same, f, n)) =
      inl (add_group-In_from cur g gs a (inr (group_eq, n)))
    where
      group_eq : g ≡ a
      group_eq = cc (ap os.getpgid same)
  Found-from p g ps gs a e (inr (q, inr m, f, n)) = inr (q, m, f, n)

  collect_groups_lem :
      (ps gs : List ℕ) {out : List ℕ}
      → collect_groups os cur ps gs ≡ ok out
      → Distinct gs
      → Distinct out × ((a : ℕ) → In a out ↔ (In a gs ⊎ Found a ps))
  unfolding collect_groups
  collect_groups_lem [] gs {out} h d =
      let e : gs ≡ out = cc in
      rw (← e) (d, λ a. (λ m. inl m, λ m. elim m [ inl old ↦ old | inr (q, z, f, n) ↦ absurd z ]))
  collect_groups_lem (p ∷ ps) gs h d = elim (Result-cases (os.getpgid p)) [
    | was_ok g e ↦
        let ih =
          collect_groups_lem ps (add_group cur g gs) (rw e at h) (add_group-Distinct cur g gs d) in
        (
          ih.0,
          λ a. (
            λ m. Found-to p g ps gs a e ((ih.1 a).0 m),
            λ m. (ih.1 a).1 (Found-from p g ps gs a e m),
          ),
        )
    | was_err m e ↦ absurd (err≢ok (rw e at h))
    | was_panic e ↦ absurd (panic≢ok (rw e at h))
  ]

-- The groups of the processes of a tree, but for the executor's own.
abbrev pub GroupsOf : Os → ℕ → List ℕ → Type 0
GroupsOf os pid groups =
    (tree : Proc) × (own : ℕ) × (os.new_process pid ≡ ok tree)
    × (os.getpgid os.getpid ≡ ok own)
    × ((g : ℕ) → In g groups ↔ ((p : ℕ) × InTree p tree × (os.getpgid p ≡ ok g) × (g ≢ own)))

pub get_process_groups_in_tree_lem :
    (os : Os) (pid : ℕ) (groups : List ℕ)
    → get_process_groups_in_tree os pid ≡ ok groups
    → Distinct groups × GroupsOf os pid groups
unfolding get_process_groups_in_tree
get_process_groups_in_tree_lem os pid groups h =
    let (tree, t, h1) = >>=-eq_ok (os.new_process pid) _ h in
    let (own, o, h2) = >>=-eq_ok (map_err current_error (os.getpgid os.getpid)) _ h1 in
    let (d, exact) =
      collect_groups_lem os own (get_all_children tree ++ pid_of tree ∷ []) [] h2 tt in
    (
      d,
      (
        tree,
        own,
        t,
        map_err-eq_ok current_error (os.getpgid os.getpid) o,
        λ g. (
          λ m. elim ((exact g).0 m) [
            | inl z ↦ absurd z
            | inr (p, m', e, n) ↦ (p, (processes_iff p tree).0 m', e, n)
          ],
          λ f. (exact g).1 (inr (f.0, (processes_iff f.0 tree).1 f.1, f.2, f.3)),
        ),
      ),
    )

-- Where KillTree succeeds it has sent, to each group of a list without repeats, SIGSTOP first,
-- then the signal, and last SIGCONT unless the signal is SIGKILL. The list holds exactly the
-- groups of the processes of the tree from the given one down, but for the executor's own group.
pub kill_tree-exact :
    (os : Os) (signal : Signal) (pid : ℕ) {sent : Sent}
    → kill_tree os signal pid ≡ ok sent
    → (groups : List ℕ) × (sent ≡ send_signals (wrap_with_stop_and_cont signal) (map group groups))
      × Distinct groups
      × GroupsOf os pid groups
unfolding kill_tree
kill_tree-exact os signal pid h =
    let (groups, found, e) = >>=-eq_ok (get_process_groups_in_tree os pid) _ h in
    let (d, exact) = get_process_groups_in_tree_lem os pid groups found in (groups, cc, d, exact)
