-- ===== src/Consul.antt =====
-- hook/consul/hook.go: the hook that registers the ports of a task as services in Consul. The
-- Consul client is known by its answers, which may depend on the calls made before (newest first).
pub mod Names
pub mod Services
pub mod Register
pub mod Instances
pub mod Deregister
mod Tests
use mesos_executor.Common.{
  ℕ, Option, none, some, List, [], ◌∷◌, ◌++◌, map, Str, codes, str_eq, Bool, true, false,
  if◌then◌else◌, ◌&&◌, ◌||◌, Result, ok, err, panic, print_ℕ, insert,
}
use mesos_executor.Mesos.{Label, Port, TaskInfo}
use mesos_executor.MesosUtils.{
  find_label, get_label_value, get_label_keys_by_value, get_health_check, Check, http_type,
  tcp_type, none_type, command_type,
}
use mesos_executor.Hook
use mesos_executor.Hook.{Env, after_task_healthy, before_terminate, before_task_start}
use mesos_executor.Health.Check.{Network, Url, health_check_address}
use mesos_executor.Consul.Services.{
  Instance, consul_key, tag_value, get_placeholders, resolve_placeholders, port_instances,
  instances_or_default, service_name,
}

-- api.AgentServiceCheck, with the fields that the hook sets.
pub record ServiceCheck : Type 0 where
  pub interval : Str
  pub timeout : Str
  pub status : Str
  pub http : Str
  pub tcp : Str

-- api.AgentServiceRegistration
pub record Registration : Type 0 where
  pub id : Str
  pub name : Str
  pub tags : List Str
  pub port : ℕ
  pub address : Str
  pub check : Option ServiceCheck

pub data Call : Type 0 where
  register : Registration → Call
  deregister : Str → Call

-- The configuration, and what the hook asks of its surroundings.
pub record Consul : Type 0 where
  pub global_tag : Str
  pub initial_status : Str
  -- runenv.IP().String()
  pub address : Str
  pub net : Network
  -- (*url.URL).String
  pub url_string : Url → Str
  -- the order in which a range over the map of placeholders goes
  pub order : List (Str × Str) → List (Str × Str)
  -- ServiceRegister and ServiceDeregister: none, or the error
  pub service_register : List Call → Registration → Option Str
  pub service_deregister : List Call → Str → Option Str

pub record State : Type 0 where
  pub service_instances : List Instance
  pub calls : List Call

module _ (c : Consul) where
  unfoldable pub generate_health_check : Check → ℕ → Option ServiceCheck
  generate_health_check check port =
      let blank : ServiceCheck = record {
        interval = c.net.format_duration check.interval;
        timeout = c.net.format_duration check.timeout;
        status = c.initial_status;
        http = [];
        tcp = [];
      } in
      elim check.type [
        | http_type ↦ some (record blank {
          http = c.url_string (record {
            scheme = codes "http";
            host = health_check_address c.net port;
            path = check.http_path;
          });
        })
        | tcp_type ↦ some (record blank { tcp = codes "127.0.0.1:" ++ print_ℕ port })
        | none_type ↦ none
        | command_type ↦ none
      ]

  unfoldable pub registration_of : TaskInfo → Instance → Registration
  registration_of t i = record {
    id = i.id;
    name = i.name;
    tags = resolve_placeholders i.tags (c.order (get_placeholders t.ports));
    port = i.port;
    address = c.address;
    check = generate_health_check (get_health_check t) i.port;
  }

  -- The registration loop: it ends at the first error.
  unfoldable pub register_all : TaskInfo → List Instance → State → State × Result Env
  register_all t [] s = (s, ok [])
  register_all t (i ∷ is) s =
      let r = registration_of t i in
      let calls = register r ∷ s.calls in
      elim (c.service_register s.calls r) [
        | none ↦
            register_all t is
              (record { service_instances = s.service_instances ++ i ∷ []; calls = calls })
        | some e ↦ (record s { calls = calls }, err (codes "registration in Consul failed: " ++ e))
      ]

  abbrev pub global_tags : TaskInfo → List Str
  global_tags t = get_label_keys_by_value t.labels tag_value ++ c.global_tag ∷ []

  -- The services of a task that has the label.
  unfoldable pub instances_to_register : TaskInfo → Result (List Instance)
  instances_to_register t =
      instances_or_default (port_instances t.task_id (global_tags t) t.ports)
        (service_name (get_label_value t consul_key) t.task_id) t.task_id (global_tags t) t.ports

  register_found : TaskInfo → Result (List Instance) → State → State × Result Env
  register_found t (ok is) s = register_all t is s
  register_found t (err e) s = (s, err e)
  register_found t panic s = (s, panic)

  unfoldable pub register_into_consul : TaskInfo → State → State × Result Env
  unfolding register_found
  register_into_consul t s = elim (find_label t.labels consul_key) [
    | none ↦ (s, ok [])
    | some l ↦ register_found t (instances_to_register t) s
  ]

  -- The deregistration loop: the instances that are left, and the calls.
  unfoldable pub deregister_all : List Instance → List Call → List Instance × List Call
  deregister_all [] calls = ([], calls)
  deregister_all (i ∷ is) calls =
      let (ghosts, calls') = deregister_all is (deregister i.id ∷ calls) in
      elim (c.service_deregister calls i.id) [
        | none ↦ (ghosts, calls')
        | some e ↦ (i ∷ ghosts, calls')
      ]

  unfoldable pub deregister_from_consul : State → State × Result Env
  deregister_from_consul s =
      let (ghosts, calls) = deregister_all s.service_instances s.calls in
      (record { service_instances = ghosts; calls = calls }, ok [])

  -- HandleEvent
  unfoldable pub handle_event : Hook.Event → State → State × Result Env
  handle_event event s = elim event.type [
    | before_task_start ↦ (s, ok [])
    | after_task_healthy ↦ register_into_consul event.task_info s
    | before_terminate ↦ deregister_from_consul s
  ]
