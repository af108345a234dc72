-- ===== src/Consul/Register.antt =====
-- What RegisterIntoConsul does (hook/consul/hook.go): the calls that it makes, what the hook
-- remembers of them, and where it indexes the first of no ports.
use mathlib.Core.List.{append_assoc, append-nil}
use mesos_executor.Common.{
  codes, none, some, List, [], ◌∷◌, ◌++◌, Str, Result, ok, err, panic, ◌≡◌, ◌≢◌, refl, sym, ap, ◌∙◌,
  ◌↔◌, inl, inr, Option-cases, Result-cases, was_ok, was_err, was_panic, panic≢ok, subst,
}
use mesos_executor.Mesos.{Port, TaskInfo}
use mesos_executor.MesosUtils.{find_label}
use mesos_executor.Hook.{Env}
use mesos_executor.Consul.{
  Consul, State, Call, register, registration_of, register_all, instances_to_register,
  register_into_consul,
}
use mesos_executor.Consul.Services.{Instance, consul_key, port_instances, instances_or_default}

module _ (c : Consul) (t : TaskInfo) where
  -- The calls that register these instances, after earlier calls.
  abbrev pub requests : List Instance → List Call → List Call
  requests [] calls = calls
  requests (i ∷ is) calls = requests is (register (registration_of c t i) ∷ calls)

  -- How far a round over the instances came. Without an error, all were registered and are
  -- remembered behind those that were; with one, all before some instance, whose call failed and
  -- was the last one.
  abbrev pub Progress : List Instance → State → State → Result Env → Type 0
  Progress is s s' (ok env) =
      (s'.service_instances ≡ s.service_instances ++ is) × (s'.calls ≡ requests is s.calls)
  Progress is s s' (err e) =
      (done : List Instance) × (x : Instance) × (more : List Instance) × (is ≡ done ++ x ∷ more)
      × (s'.service_instances ≡ s.service_instances ++ done)
      × (s'.calls ≡ register (registration_of c t x) ∷ requests done s.calls)
      × (c.service_register (requests done s.calls) (registration_of c t x) ≢ none)
  Progress is s s' panic = ⊥

  -- The state after one instance was registered.
  abbrev after_one : Instance → State → State
  after_one i s = record {
    service_instances = s.service_instances ++ i ∷ [];
    calls = register (registration_of c t i) ∷ s.calls;
  }

  Progress-step :
      (i : Instance) (is : List Instance) (s s' : State) (r : Result Env)
      → Progress is (after_one i s) s' r
      → Progress (i ∷ is) s s' r
  Progress-step i is s s' (ok env) h = (h.0 ∙ append_assoc s.service_instances (i ∷ []) is, h.1)
  Progress-step i is s s' (err e) (done, x, more, p, q, calls, failed) = (
    i ∷ done,
    x,
    more,
    ap (λ js. i ∷ js) p,
    q ∙ append_assoc s.service_instances (i ∷ []) done,
    calls,
    failed,
  )
  Progress-step i is s s' panic h = h

  abbrev FarOf : List Instance → State → State × Result Env → Type 0
  FarOf is s o = Progress is s o.0 o.1

  register_all-none :
      (i : Instance) (is : List Instance) (s : State)
      → c.service_register s.calls (registration_of c t i) ≡ none
      → register_all c t (i ∷ is) s ≡ register_all c t is (after_one i s)
  unfolding register_all
  register_all-none i is s fine = rw (fine, register_all) refl

  register_all-some :
      (i : Instance) (is : List Instance) (s : State) (e : Str)
      → c.service_register s.calls (registration_of c t i) ≡ some e
      → register_all c t (i ∷ is) s ≡ (
        record s { calls = register (registration_of c t i) ∷ s.calls },
        err (codes "registration in Consul failed: " ++ e),
      )
  unfolding register_all
  register_all-some i is s e failed = rw (failed, register_all) refl

  register_all-Progress : (is : List Instance) (s : State) → FarOf is s (register_all c t is s)
  unfolding register_all
  register_all-Progress [] s = (sym (append-nil s.service_instances), refl)
  register_all-Progress (i ∷ is) s =
      elim (Option-cases (c.service_register s.calls (registration_of c t i))) [
        | inl fine ↦
            subst (FarOf (i ∷ is) s) (sym (register_all-none i is s fine))
              (Progress-step i is s _ _ (register_all-Progress is (after_one i s)))
        | inr (e, failed) ↦
            subst (FarOf (i ∷ is) s) (sym (register_all-some i is s e failed))
              ([], i, is, refl, sym (append-nil s.service_instances), refl, λ h. cc)
      ]

  register_into_consul-ok :
      (is : List Instance) (s : State)
      → find_label t.labels consul_key ≢ none
      → instances_to_register c t ≡ ok is
      → register_into_consul c t s ≡ register_all c t is s
  unfolding register_into_consul
  register_into_consul-ok is s labelled e = elim (Option-cases (find_label t.labels consul_key)) [
    | inl missing ↦ absurd (labelled missing)
    | inr (l, found) ↦ rw (found, e, register_into_consul) refl
  ]

  -- RegisterIntoConsul, for a task with the label, registers its instances in order and ends at the
  -- first error. The instances that it adds to those it remembers are exactly the ones whose
  -- registration succeeded.
  pub register_into_consul-Progress :
      (is : List Instance) (s : State)
      → find_label t.labels consul_key ≢ none
      → instances_to_register c t ≡ ok is
      → Progress is s (register_into_consul c t s).0 (register_into_consul c t s).1
  register_into_consul-Progress is s labelled e =
      subst (FarOf is s) (sym (register_into_consul-ok is s labelled e))
        (register_all-Progress is s)

  register_all-returns : (is : List Instance) (s : State) → (register_all c t is s).1 ≢ panic
  register_all-returns is s e =
      subst (Progress is s (register_all c t is s).0) e (register_all-Progress is s)

-- Without ports there is nothing to register.
instances_or_default-panic :
    (is : List Instance) (name task_id : Str) (tags : List Str) (ports : List Port)
    → instances_or_default is name task_id tags ports ≡ panic
    → ports ≡ []
unfolding instances_or_default
instances_or_default-panic [] name task_id tags [] e = refl
instances_or_default-panic [] name task_id tags (p ∷ ps) e = cc
instances_or_default-panic (i ∷ is) name task_id tags ports e = cc

instances_to_register-err :
    (is : List Instance) (name task_id : Str) (tags : List Str) (ports : List Port) (m : Str)
    → instances_or_default is name task_id tags ports ≢ err m
unfolding instances_or_default
instances_to_register-err [] name task_id tags [] m e = cc
instances_to_register-err [] name task_id tags (p ∷ ps) m e = cc
instances_to_register-err (i ∷ is) name task_id tags ports m e = cc

instances_or_default-no_ports :
    (name task_id : Str) (tags : List Str) (ports : List Port)
    → ports ≡ []
    → instances_or_default (port_instances task_id tags ports) name task_id tags ports ≡ panic
unfolding instances_or_default port_instances
instances_or_default-no_ports name task_id tags ports e = rw e refl

module _ (c : Consul) (t : TaskInfo) where
  register_into_consul-stuck :
      (s : State)
      → find_label t.labels consul_key ≢ none
      → instances_to_register c t ≡ panic
      → register_into_consul c t s ≡ (s, panic)
  unfolding register_into_consul
  register_into_consul-stuck s labelled e = elim (Option-cases (find_label t.labels consul_key)) [
    | inl missing ↦ absurd (labelled missing)
    | inr (l, found) ↦ rw (found, e, register_into_consul) refl
  ]

  register_into_consul-unlabelled :
      (s : State) → find_label t.labels consul_key ≡ none → register_into_consul c t s ≡ (s, ok [])
  unfolding register_into_consul
  register_into_consul-unlabelled s missing = rw (missing, register_into_consul) refl

  panic_from :
      (s : State)
      → (register_into_consul c t s).1 ≡ panic
      → (find_label t.labels consul_key ≢ none) × (t.ports ≡ [])
  unfolding instances_to_register
  panic_from s p = elim (Option-cases (find_label t.labels consul_key)) [
    | inl missing ↦
        absurd (panic≢ok (sym p ∙ ap (λ o. o.1) (register_into_consul-unlabelled s missing)))
    | inr (l, found) ↦
        let labelled : find_label t.labels consul_key ≢ none = λ missing. cc in
        (
          labelled,
          elim (Result-cases (instances_to_register c t)) [
            | was_ok is e ↦ absurd (
                register_all-returns c t is s
                  (sym (ap (λ o. o.1) (register_into_consul-ok c t is s labelled e)) ∙ p))
            | was_err m e ↦ absurd (instances_to_register-err _ _ _ _ _ m e)
            | was_panic e ↦ instances_or_default-panic _ _ _ _ _ e
          ],
        )
  ]

  -- RegisterIntoConsul dereferences nil for a task that has the label and no port, and for no other
  -- task, whatever the Consul agent answers.
  pub register_into_consul-panic :
      (s : State)
      → ((register_into_consul c t s).1 ≡ panic)
        ↔ ((find_label t.labels consul_key ≢ none) × (t.ports ≡ []))
  unfolding instances_to_register
  register_into_consul-panic s = (
    panic_from s,
    λ h.
        ap (λ o. o.1)
          (register_into_consul-stuck s h.0 (instances_or_default-no_ports _ _ _ t.ports h.1)),
  )
