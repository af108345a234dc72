-- ===== src/Consul/Deregister.antt =====
-- What DeregisterFromConsul does (hook/consul/hook.go), and that it undoes a registration.
use mesos_executor.Common.{
  none, some, List, [], ◌∷◌, ◌++◌, Str, ok, ◌≡◌, ◌≢◌, refl, sym, ap, ◌∙◌, ◌↔◌, ◌⊎◌, inl, inr, In,
  Option-cases, subst,
}
use mesos_executor.Mesos.{TaskInfo}
use mesos_executor.MesosUtils.{find_label}
use mesos_executor.Consul.{
  Consul, State, Call, Registration, register, registration_of, deregister, deregister_all,
  deregister_from_consul, instances_to_register, register_into_consul,
}
use mesos_executor.Consul.Services.{Instance, consul_key}
use mesos_executor.Consul.Register.{requests, Progress, register_into_consul-Progress}

-- The calls that deregister these instances, after earlier calls.
abbrev pub removals : List Instance → List Call → List Call
removals [] calls = calls
removals (i ∷ is) calls = removals is (deregister i.id ∷ calls)

-- The calls that make these registrations, after earlier calls.
abbrev pub registrations : List Registration → List Call → List Call
registrations [] calls = calls
registrations (r ∷ rs) calls = registrations rs (register r ∷ calls)

module _ (c : Consul) where
  -- The instance's call fails, with the calls before it.
  abbrev pub FailsIn : Instance → List Instance → List Call → Type 0
  FailsIn x [] calls = ⊥
  FailsIn x (i ∷ is) calls =
      ((i ≡ x) × (c.service_deregister calls i.id ≢ none)) ⊎ FailsIn x is (deregister i.id ∷ calls)

  deregister_all-calls :
      (is : List Instance) (calls : List Call) → (deregister_all c is calls).1 ≡ removals is calls
  unfolding deregister_all
  deregister_all-calls [] calls = refl
  deregister_all-calls (i ∷ is) calls = elim (Option-cases (c.service_deregister calls i.id)) [
    | inl fine ↦ rw (fine, deregister_all) (deregister_all-calls is (deregister i.id ∷ calls))
    | inr (e, failed) ↦
        rw (failed, deregister_all) (deregister_all-calls is (deregister i.id ∷ calls))
  ]

  deregister_all-none :
      (i : Instance) (is : List Instance) (calls : List Call)
      → c.service_deregister calls i.id ≡ none
      → (deregister_all c (i ∷ is) calls).0 ≡ (deregister_all c is (deregister i.id ∷ calls)).0
  unfolding deregister_all
  deregister_all-none i is calls fine = rw (fine, deregister_all) refl

  deregister_all-some :
      (i : Instance) (is : List Instance) (calls : List Call) (e : Str)
      → c.service_deregister calls i.id ≡ some e
      → (deregister_all c (i ∷ is) calls).0 ≡ i ∷ (deregister_all c is (deregister i.id ∷ calls)).0
  unfolding deregister_all
  deregister_all-some i is calls e failed = rw (failed, deregister_all) refl

  deregister_all-FailsIn :
      (x : Instance) (is : List Instance) (calls : List Call)
      → In x (deregister_all c is calls).0 ↔ FailsIn x is calls
  unfolding deregister_all
  deregister_all-FailsIn x [] calls = (λ h. h, λ h. h)
  deregister_all-FailsIn x (i ∷ is) calls =
      let later = deregister_all-FailsIn x is (deregister i.id ∷ calls) in
      elim (Option-cases (c.service_deregister calls i.id)) [
        | inl fine ↦
            let e = deregister_all-none i is calls fine in
            (
              λ h. inr (later.0 (subst (In x) e h)),
              λ f. elim f [
                | inl (same, bad) ↦ absurd (bad fine)
                | inr g ↦ subst (In x) (sym e) (later.1 g)
              ],
            )
        | inr (m, failed) ↦
            let e = deregister_all-some i is calls m failed in
            let bad : c.service_deregister calls i.id ≢ none = λ fine. cc in
            (
              λ h.
                  elim (split i x (deregister_all c is (deregister i.id ∷ calls)).0
                    (subst (In x) e h)) [ inl same ↦ inl (same, bad) | inr k ↦ inr (later.0 k) ],
              λ f.
                  subst (In x) (sym e)
                    (elim f [ inl (same, b) ↦ inl same | inr g ↦ inr (later.1 g) ]),
            )
      ]
    where
      split : (i x : Instance) (is : List Instance) → In x (i ∷ is) → (i ≡ x) ⊎ In x is
      split i x is h = h

  -- DeregisterFromConsul calls the agent once for each instance that the hook remembers, in order,
  -- whatever the calls before it answered, and goes on remembering exactly those whose call failed;
  -- it returns no error.
  pub deregister_from_consul-exact :
      (s : State)
      → ((deregister_from_consul c s).1 ≡ ok [])
        × ((deregister_from_consul c s).0.calls ≡ removals s.service_instances s.calls)
        × ((x : Instance)
            → In x (deregister_from_consul c s).0.service_instances
              ↔ FailsIn x s.service_instances s.calls)
  unfolding deregister_from_consul
  deregister_from_consul-exact s = (
    refl,
    deregister_all-calls s.service_instances s.calls,
    λ x. deregister_all-FailsIn x s.service_instances s.calls,
  )

  deregister_all-all :
      (is : List Instance) (calls : List Call)
      → ((earlier : List Call) (id : Str) → c.service_deregister earlier id ≡ none)
      → (deregister_all c is calls).0 ≡ []
  unfolding deregister_all
  deregister_all-all [] calls fine = refl
  deregister_all-all (i ∷ is) calls fine =
      deregister_all-none i is calls (fine calls i.id)
      ∙ deregister_all-all is (deregister i.id ∷ calls) fine

  -- The registrations are those of the instances, one for each, in order, under the instance's id
  -- and name and with its port.
  abbrev pub AreOf : List Registration → List Instance → Type 0
  AreOf [] [] = Unit
  AreOf [] (i ∷ is) = ⊥
  AreOf (r ∷ rs) [] = ⊥
  AreOf (r ∷ rs) (i ∷ is) = (r.id ≡ i.id) × (r.name ≡ i.name) × (r.port ≡ i.port) × AreOf rs is

  requests-AreOf :
      (t : TaskInfo) (is : List Instance) (calls : List Call)
      → (rs : List Registration) × AreOf rs is × (requests c t is calls ≡ registrations rs calls)
  unfolding registration_of
  requests-AreOf t [] calls = ([], tt, refl)
  requests-AreOf t (i ∷ is) calls =
      let (rs, these, e) = requests-AreOf t is (register (registration_of c t i) ∷ calls) in
      (registration_of c t i ∷ rs, (refl, refl, refl, these), e)

  -- Where the hook remembers nothing, a registration that succeeds and then a deregistration whose
  -- calls all succeed register each instance of the task under its own id, with its name and port,
  -- and then deregister each, under the same id and in the same order, and the hook remembers
  -- nothing again.
  pub deregister-register :
      (t : TaskInfo) (is : List Instance) (s : State)
      → find_label t.labels consul_key ≢ none
      → instances_to_register c t ≡ ok is
      → s.service_instances ≡ []
      → (register_into_consul c t s).1 ≡ ok []
      → ((earlier : List Call) (id : Str) → c.service_deregister earlier id ≡ none)
      → let s' : State = (deregister_from_consul c (register_into_consul c t s).0).0 in
        (s'.service_instances ≡ [])
        × (rs : List Registration) × AreOf rs is
        × (s'.calls ≡ removals is (registrations rs s.calls))
  unfolding deregister_from_consul
  deregister-register t is s labelled e empty succeeded fine =
      let s1 : State = (register_into_consul c t s).0 in
      let p : Progress c t is s s1 (ok []) =
        subst (Progress c t is s s1) succeeded
          (register_into_consul-Progress c t is s labelled e) in
      let (rs, these, asked) = requests-AreOf t is s.calls in
      (
        deregister_all-all s1.service_instances s1.calls fine,
        rs,
        these,
        deregister_all-calls s1.service_instances s1.calls
            ∙ ap (λ js. removals js s1.calls) (p.0 ∙ ap (λ js. js ++ is) empty)
            ∙ ap (removals is) (p.1 ∙ asked),
      )
