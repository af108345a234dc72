-- ===== src/Vaas.antt =====
-- hook/vaas/hook.go: the hook that registers the task as a backend of Varnish, in VaaS.
pub mod Client
pub mod Built
pub mod Registration
pub mod Forgetting
mod Tests
use mesos_executor.Common.{
  wrap_err, ℕ, ℤ, Option, none, some, List, [], ◌∷◌, ◌++◌, Str, codes, str_eq, Bool, true, false,
  if◌then◌else◌, Result, ok, err, panic, atoi, print_ℤ,
}
use mesos_executor.Common.Effect.{Step, ◌>>=◌, ◌>>◌, lift}
use mesos_executor.Mesos.{Port, TaskInfo}
use mesos_executor.MesosUtils.{
  get_label_value, get_first_port_with_label, get_weight, find_env_value,
}
use mesos_executor.Hook
use mesos_executor.Hook.{Env, before_task_start, after_task_healthy, before_terminate}
use mesos_executor.Runenv.{Getenv, datacenter, ip, ip_text}
use mesos_executor.Vaas.Client.{
  Api, Request, Requests, Backend, Dc, director_path, get_dc, find_director_id, add_backend,
  delete_backend,
}

-- The hook's field that changes, and the requests that the client has made.
pub record State : Type 0 where
  pub backend_id : Option ℤ
  pub requests : Requests

abbrev pub director_key : Str
director_key = codes "director"

abbrev frontend_sync_key : Str
frontend_sync_key = codes "frontend-sync"

abbrev canary_key : Str
canary_key = codes "canary"

first_port : List Port → Result Port
first_port [] = err (codes "service has no ports available")
first_port (p ∷ ps) = ok p

-- The port with the director's label, or else the first one.
unfoldable pub choose_port : TaskInfo → Str → Result Port
unfolding first_port
choose_port t director =
    elim (get_first_port_with_label t (frontend_sync_key ++ (codes ":" ++ director))) [
      | ok p ↦ ok p
      | err e ↦ first_port t.ports
      | panic ↦ panic
    ]

label_weight : Result ℤ → Option ℤ
label_weight (ok w) = some w
label_weight (err e) = none
label_weight panic = none

-- The variable VAAS_INITIAL_WEIGHT goes before the tag.
unfoldable pub initial_weight : TaskInfo → Option ℤ
unfolding label_weight
initial_weight t = elim (atoi (find_env_value t (codes "VAAS_INITIAL_WEIGHT"))) [
  | some w ↦ some w
  | none ↦ label_weight (get_weight t)
]

canary_tags : Str → List Str
canary_tags [] = []
canary_tags (c ∷ s) = canary_key ∷ []

unfoldable pub tags : TaskInfo → List Str
unfolding canary_tags
tags t = canary_tags (get_label_value t canary_key)

module _ (api : Api) (parse_ip : Str → Option Str) (getenv : Getenv) where
  unfoldable pub new_backend : TaskInfo → Dc → ℤ → Port → Backend
  new_backend t dc director_id port = record {
    id = none;
    address = ip_text (ip parse_ip getenv);
    director = director_path ++ (print_ℤ director_id ++ codes "/");
    dc = dc;
    port = port.number;
    inherit_time_profile = true;
    weight = initial_weight t;
    tags = tags t;
  }

  post_backend : TaskInfo → Dc → ℤ → Port → Step Requests Backend
  post_backend t dc director_id port = do
    added ← λ sent.
        let (sent', r) = add_backend api (new_backend t dc director_id port) sent in
        (sent', wrap_err (codes "unable to register backend with VaaS, ") r)
    lift (ok added.1)

  -- RegisterBackend up to the answer of AddBackend.
  unfoldable pub request_backend : TaskInfo → Str → Step Requests Backend
  unfolding post_backend
  request_backend t director = do
    runtime_dc ← lift (datacenter getenv)
    dc ← get_dc api runtime_dc
    director_id ← find_director_id api director
    port ← lift (choose_port t director)
    post_backend t dc director_id port

  -- `sh.backendID = backend.ID`, and the log line that reads it.
  remember : State → Requests → Result Backend → State × Result Env
  remember s sent (ok b) = elim b.id [
    | some id ↦ (record { backend_id = some id; requests = sent }, ok [])
    | none ↦ (record { backend_id = none; requests = sent }, panic)
  ]
  remember s sent (err e) = (record s { requests = sent }, err e)
  remember s sent panic = (record s { requests = sent }, panic)

  register_director : TaskInfo → Str → State → State × Result Env
  unfolding remember
  register_director t [] s = (s, ok [])
  register_director t (c ∷ director) s =
      let (sent, r) = request_backend t (c ∷ director) s.requests in remember s sent r

  unfoldable pub register_backend : TaskInfo → State → State × Result Env
  unfolding register_director
  register_backend t s = register_director t (get_label_value t director_key) s

  forget : State → Requests → Result (Unit {0}) → State × Result Env
  forget s sent (ok _) = (record { backend_id = none; requests = sent }, ok [])
  forget s sent (err e) = (record s { requests = sent }, err e)
  forget s sent panic = (record s { requests = sent }, panic)

  unfoldable pub deregister_backend : State → State × Result Env
  unfolding forget
  deregister_backend s = elim s.backend_id [
    | none ↦ (s, ok [])
    | some id ↦ let (sent, r) = delete_backend api id s.requests in forget s sent r
  ]

  -- HandleEvent
  unfoldable pub handle_event : Hook.Event → State → State × Result Env
  handle_event event s = elim event.type [
    | before_task_start ↦ (s, ok [])
    | after_task_healthy ↦ register_backend event.task_info s
    | before_terminate ↦ deregister_backend s
  ]
