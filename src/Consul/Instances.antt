-- ===== src/Consul/Instances.antt =====
-- Which services the hook registers (hook/consul/hook.go).
use mesos_executor.Common.{
  Option, none, some, List, [], ◌∷◌, map, Str, ◌≡◌, refl, sym, ap, ◌∙◌, ◌↔◌, inl, inr, In,
  In-append_left, In-append_right, In-append_cases, subst,
}
use mesos_executor.Mesos.{Port}
use mesos_executor.Consul.Services.{
  Instance, port_instance, port_instances, instances_of_names, get_service_labels,
}

In-map_to :
    {A B : Type 0} (f : A → B) (b : B) (xs : List A)
    → In b (map f xs)
    → (a : A) × In a xs × (f a ≡ b)
In-map_to f b [] h = absurd h
In-map_to f b (x ∷ xs) (inl e) = (x, inl refl, e)
In-map_to f b (x ∷ xs) (inr h) = let (a, i, e) = In-map_to f b xs h in (a, inr i, e)

In-map_from :
    {A B : Type 0} (f : A → B) (b : B) (xs : List A) (a : A) → In a xs → f a ≡ b → In b (map f xs)
In-map_from f b [] a i e = absurd i
In-map_from f b (x ∷ xs) a (inl s) e = inl (ap f s ∙ e)
In-map_from f b (x ∷ xs) a (inr i) e = inr (In-map_from f b xs a i e)

module _ (task_id : Str) (tags : List Str) where
  -- The instance belongs to a port, under one of the names in the port's label.
  abbrev pub IsFor : Instance → Port → Type 0
  IsFor i p =
      (names : List Str) × (name : Str) × (get_service_labels p ≡ some names)
      × In name names
      × (port_instance task_id tags p name ≡ i)

  IsFor-to :
      (i : Instance) (p : Port) (names : Option (List Str))
      → get_service_labels p ≡ names
      → In i (instances_of_names task_id tags p names)
      → IsFor i p
  IsFor-to i p none e h = absurd h
  IsFor-to i p (some names) e h =
      let (name, n, same) = In-map_to (λ n. port_instance task_id tags p n) i names h in
      (names, name, e, n, same)

  IsFor-from :
      (i : Instance) (p : Port)
      → IsFor i p
      → In i (instances_of_names task_id tags p (get_service_labels p))
  IsFor-from i p (names, name, e, n, same) =
      rw e (In-map_from (λ n. port_instance task_id tags p n) i names name n same)

  -- The loop over the ports collects an instance exactly for each port with the consul label and
  -- each name in that label.
  pub port_instances-In :
      (i : Instance) (ports : List Port)
      → In i (port_instances task_id tags ports) ↔ ((p : Port) × In p ports × IsFor i p)
  unfolding port_instances
  port_instances-In i [] = (λ h. absurd h, λ h. absurd h.1)
  port_instances-In i (p ∷ ps) = (
    λ h.
        elim (In-append_cases i (instances_of_names task_id tags p (get_service_labels p))
          (port_instances task_id tags ps) h) [
            | inl here ↦ (p, inl refl, IsFor-to i p (get_service_labels p) refl here)
            | inr there ↦ let (q, m, r) = (port_instances-In i ps).0 there in (q, inr m, r)
          ],
    λ h. elim h.1 [
      | inl e ↦
          In-append_left i (instances_of_names task_id tags p (get_service_labels p))
            (port_instances task_id tags ps) (IsFor-from i p (subst (IsFor i) (sym e) h.2))
      | inr m ↦
          In-append_right i (instances_of_names task_id tags p (get_service_labels p))
            (port_instances task_id tags ps) ((port_instances-In i ps).1 (h.0, m, h.2))
    ],
  )
