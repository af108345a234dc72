-- ===== src/Vaas/Built.antt =====
-- The backend that RegisterBackend builds for a task (hook/vaas/hook.go).
use mesos_executor.Common.{
  ℤ, Option, none, some, List, [], ◌∷◌, ◌++◌, Str, codes, true, Result, ok, err, panic, atoi,
  print_ℤ, ◌≡◌, ◌≢◌, refl, ◌⊎◌, inl, inr, All,
}
use mesos_executor.Mesos.{Port, TaskInfo}
use mesos_executor.MesosUtils.{
  get_label_value, get_first_port_with_label, get_weight, find_env_value,
}
use mesos_executor.MesosUtils.Lookup.{
  HasLabel, IsFirst, IsAnswer, get_first_port_with_label-IsAnswer,
}
use mesos_executor.Runenv.{Getenv, ip, ip_text}
use mesos_executor.Vaas.Client.{Backend, Dc}
use mesos_executor.Vaas.{
  choose_port, first_port, initial_weight, label_weight, tags, canary_tags, new_backend,
}
use mesos_executor.Vaas.Client.{Api}

-- The first port that has the label frontend-sync:<director>, or else the first of all.
abbrev pub IsPortFor : TaskInfo → Str → Port → Type 0
IsPortFor t director port =
    IsFirst (codes "frontend-sync:" ++ director) port t.ports
    ⊎ (All (λ p. HasLabel (codes "frontend-sync:" ++ director) p → ⊥) t.ports
        × (rest : List Port) × (t.ports ≡ port ∷ rest))

first_port-eq_ok :
    (ps : List Port) (port : Port)
    → first_port ps ≡ ok port
    → (rest : List Port) × (ps ≡ port ∷ rest)
unfolding first_port
first_port-eq_ok [] port h = cc
first_port-eq_ok (p ∷ ps) port h = (ps, cc)

pub choose_port-IsPortFor :
    (t : TaskInfo) (director : Str) (port : Port)
    → choose_port t director ≡ ok port
    → IsPortFor t director port
unfolding choose_port
choose_port-IsPortFor t director port h =
    let key : Str = codes "frontend-sync:" ++ director in
    go (get_first_port_with_label t key) (get_first_port_with_label-IsAnswer t key) h
  where
    go :
        (r : Result Port)
        → IsAnswer (codes "frontend-sync:" ++ director) t.ports r
        → (elim r as (λ x. Result Port) [
          | ok p ↦ ok p
          | err e ↦ first_port t.ports
          | panic ↦ panic
        ])
          ≡ ok port
        → IsPortFor t director port
    go (ok p) a h = let same : p ≡ port = cc in rw (← same) (inl a)
    go (err e) a h = let (rest, q) = first_port-eq_ok t.ports port h in inr (a, rest, q)
    go panic a h = absurd a

-- The weight that the variable gives, or else the tags.
abbrev pub IsWeightBy : Option ℤ → Result ℤ → Option ℤ → Type 0
IsWeightBy variable tagged weight =
    ((w : ℤ) × (variable ≡ some w) × (weight ≡ some w))
    ⊎ ((variable ≡ none)
        × (((w : ℤ) × (tagged ≡ ok w) × (weight ≡ some w))
            ⊎ (((w : ℤ) → tagged ≢ ok w) × (weight ≡ none))))

-- The variable VAAS_INITIAL_WEIGHT where it holds a number, or else the weight of the tags, if any.
abbrev pub IsWeightOf : TaskInfo → Option ℤ → Type 0
IsWeightOf t weight =
    IsWeightBy (atoi (find_env_value t (codes "VAAS_INITIAL_WEIGHT"))) (get_weight t) weight

initial_weight-IsWeightOf : (t : TaskInfo) → IsWeightOf t (initial_weight t)
unfolding initial_weight label_weight
initial_weight-IsWeightOf t =
    go (atoi (find_env_value t (codes "VAAS_INITIAL_WEIGHT"))) (get_weight t)
  where
    go :
        (variable : Option ℤ) (tagged : Result ℤ)
        → IsWeightBy variable tagged
            (elim variable as (λ x. Option ℤ) [ some w ↦ some w | none ↦ label_weight tagged ])
    go (some w) tagged = inl (w, refl, refl)
    go none (ok w) = inr (refl, inl (w, refl, refl))
    go none (err e) = inr (refl, inr ((λ w h. cc), refl))
    go none panic = inr (refl, inr ((λ w h. cc), refl))

-- The one tag of a canary, which has a label of that name.
abbrev pub AreTagsOf : TaskInfo → List Str → Type 0
AreTagsOf t these =
    ((get_label_value t (codes "canary") ≡ []) × (these ≡ []))
    ⊎ ((get_label_value t (codes "canary") ≢ []) × (these ≡ codes "canary" ∷ []))

tags-AreTagsOf : (t : TaskInfo) → AreTagsOf t (tags t)
unfolding tags canary_tags
tags-AreTagsOf t = go (get_label_value t (codes "canary"))
  where
    go :
        (value : Str)
        → ((value ≡ []) × (canary_tags value ≡ []))
          ⊎ ((value ≢ []) × (canary_tags value ≡ codes "canary" ∷ []))
    go [] = inl (refl, refl)
    go (c ∷ s) = inr ((λ h. cc), refl)

module _ (api : Api) (parse_ip : Str → Option Str) (getenv : Getenv) where
  -- The backend of the task at the port, in the data center and under the director.
  abbrev pub IsBackendOf : TaskInfo → Dc → ℤ → Port → Backend → Type 0
  IsBackendOf t dc director_id port b =
      (b.id ≡ none)
      × (b.address ≡ ip_text (ip parse_ip getenv))
      × (b.director ≡ codes "/api/v0.1/director/" ++ (print_ℤ director_id ++ codes "/"))
      × (b.dc ≡ dc)
      × (b.port ≡ port.number)
      × (b.inherit_time_profile ≡ true)
      × IsWeightOf t b.weight
      × AreTagsOf t b.tags

  pub new_backend-IsBackendOf :
      (t : TaskInfo) (dc : Dc) (director_id : ℤ) (port : Port)
      → IsBackendOf t dc director_id port (new_backend api parse_ip getenv t dc director_id port)
  unfolding new_backend
  new_backend-IsBackendOf t dc director_id port =
      (refl, refl, refl, refl, refl, refl, initial_weight-IsWeightOf t, tags-AreTagsOf t)
