-- ===== src/Vaas/Forgetting.antt =====
-- What deregistration in hook/vaas/hook.go asks of VaaS, and what it gives back to the hook
-- manager.
use mesos_executor.Common.{
  ℤ, Option, none, some, [], Str, Result, ok, err, panic, Option-cases, ◌≡◌, ◌≢◌, refl, sym, ap,
  subst, ◌⊎◌, inl, inr,
}
use mesos_executor.Hook.{Env}
use mesos_executor.Runenv.{Getenv}
use mesos_executor.Vaas.{State, forget, deregister_backend}
use mesos_executor.Vaas.Client.{Api, Requests, delete_backend}
use mesos_executor.Vaas.Client.Deletion.{Deletes, delete_backend-Deletes}

module _ (api : Api) (parse_ip : Str → Option Str) (getenv : Getenv) where
  forget-env :
      (s : State) (sent : Requests) (r : Result (Unit {0})) (env : Env)
      → (forget api parse_ip getenv s sent r).1 ≡ ok env
      → env ≡ []
  unfolding forget
  forget-env s sent (ok x) env h = cc
  forget-env s sent (err e) env h = cc
  forget-env s sent panic env h = cc

  -- A deregistration grants no variables.
  pub deregister_backend-env :
      (s : State) (env : Env) → (deregister_backend api parse_ip getenv s).1 ≡ ok env → env ≡ []
  unfolding deregister_backend
  deregister_backend-env s env h = elim (Option-cases s.backend_id) [
    | inl unset ↦ nothing_done (rw (unset, deregister_backend) at h)
    | inr (id, set) ↦ forget-env s _ _ env (rw (set, deregister_backend) at h)
  ]
    where
      nothing_done : ok [] ≡ ok env → env ≡ []
      nothing_done e = cc

  -- A hook that remembers no backend does nothing. One that does asks for its deletion, and forgets
  -- it exactly where that succeeds.
  abbrev pub Forgets : State → State → Type 0
  Forgets s s' =
      ((s.backend_id ≡ none) × (s' ≡ s))
      ⊎ ((id : ℤ) × (s.backend_id ≡ some id)
          × (outcome : Requests × Result (Unit {0})) × Deletes api id s.requests outcome
          × (s'.requests ≡ outcome.0)
          × (((outcome.1 ≡ ok tt) × (s'.backend_id ≡ none))
              ⊎ ((outcome.1 ≢ ok tt) × (s'.backend_id ≡ some id))))

  forget-Forgets :
      (s : State) (id : ℤ) (sent : Requests) (r : Result (Unit {0}))
      → s.backend_id ≡ some id
      → Deletes api id s.requests (sent, r)
      → Forgets s (forget api parse_ip getenv s sent r).0
  unfolding forget
  forget-Forgets s id sent (ok x) set d = inr (id, set, (sent, ok x), d, refl, inl (refl, refl))
  forget-Forgets s id sent (err e) set d =
      inr (id, set, (sent, err e), d, refl, inr ((λ h. cc), set))
  forget-Forgets s id sent panic set d = inr (id, set, (sent, panic), d, refl, inr ((λ h. cc), set))

  deregister_backend-none :
      (s : State) → s.backend_id ≡ none → deregister_backend api parse_ip getenv s ≡ (s, ok [])
  unfolding deregister_backend
  deregister_backend-none s unset = simp (unset, deregister_backend)

  deregister_backend-some :
      (s : State) (id : ℤ)
      → s.backend_id ≡ some id
      → let made = delete_backend api id s.requests in
        deregister_backend api parse_ip getenv s ≡ forget api parse_ip getenv s made.0 made.1
  unfolding deregister_backend
  deregister_backend-some s id set = simp (set, deregister_backend)

  pub deregister_backend-Forgets :
      (s : State) (body : Str)
      → api.marshal_nil ≡ ok body
      → ((url : Str) → api.bad_url url ≡ none)
      → Forgets s (deregister_backend api parse_ip getenv s).0
  deregister_backend-Forgets s body encoded good = elim (Option-cases s.backend_id) [
    | inl unset ↦ inl (unset, ap (λ o. o.0) (deregister_backend-none s unset))
    | inr (id, set) ↦
        let made = delete_backend api id s.requests in
        subst (λ o. Forgets s o.0) (sym (deregister_backend-some s id set))
          (forget-Forgets s id made.0 made.1 set
            (delete_backend-Deletes api id s.requests body encoded good))
  ]
