-- ===== src/Consul/Tests.antt =====
-- The Consul hook at a task with two ports, one of which has the label.
use mesos_executor.Common.{
  split, none, some, List, [], ◌∷◌, codes, ok, panic, print_ℕ, ◌≡◌, ◌≢◌, ◌↔◌, refl, In, str_eq,
}
use mesos_executor.Mesos.{Label, Port, TaskInfo}
use mesos_executor.MesosUtils.{find_label}
use mesos_executor.Health.Check.{Network, exited, answered}
use mesos_executor.Consul.{
  Consul, State, Registration, instances_to_register, register_into_consul, deregister_from_consul,
  global_tags, register_all,
}
use mesos_executor.Consul.Services.{
  Instance, port_instance, port_instances, get_service_labels, consul_key, instances_or_default,
}
use mesos_executor.Consul.Register.{
  Progress, register_into_consul-Progress, register_into_consul-panic,
}
use mesos_executor.Consul.Deregister.{
  removals, registrations, AreOf, FailsIn, deregister_from_consul-exact, deregister-register,
}
use mesos_executor.Samples.{web, admin_port}

abbrev network : Network
network = record {
  ip = none;
  environ = [];
  run = λ cmd timeout. exited;
  dial = λ address timeout. none;
  get = λ url timeout. answered 204;
  format_duration = print_ℕ;
  default_timeout = 20000000000;
}

abbrev agent : Consul
agent = record {
  global_tag = codes "marathon";
  initial_status = codes "passing";
  address = codes "10.0.0.1";
  net = network;
  url_string = λ url. url.host;
  order = λ placeholders. placeholders;
  service_register = λ calls r. none;
  service_deregister = λ calls id. none;
}

abbrev web_label : Label
web_label = record { key = codes "consul"; value = codes "web" }

abbrev web_port : Port
web_port = record { number = 31002; name = codes "web"; labels = some (web_label ∷ []) }

abbrev service : TaskInfo
service = record web { labels = web_label ∷ []; ports = admin_port ∷ web_port ∷ [] }

abbrev portless : TaskInfo
portless = record service { ports = [] }

abbrev fresh : State
fresh = record { service_instances = []; calls = [] }

abbrev web_instance : Instance
web_instance = port_instance (codes "web.1") (global_tags agent service) web_port (codes "web")

service_is_labelled : find_label service.labels consul_key ≢ none
unfolding find_label str_eq
service_is_labelled h = cc

service_instances_found : instances_to_register agent service ≡ ok (web_instance ∷ [])
unfolding instances_to_register instances_or_default port_instances get_service_labels find_label
    str_eq split
service_instances_found = refl

register_into_consul-Progress_example :
    Progress agent service
      (web_instance ∷ [])
      fresh
      (register_into_consul agent service fresh).0
      (register_into_consul agent service fresh).1
register_into_consul-Progress_example =
    register_into_consul-Progress agent service (web_instance ∷ []) fresh service_is_labelled
      service_instances_found

register_into_consul-panic_example :
    ((register_into_consul agent portless fresh).1 ≡ panic)
    ↔ ((find_label portless.labels consul_key ≢ none) × (portless.ports ≡ []))
register_into_consul-panic_example = register_into_consul-panic agent portless fresh

abbrev registered : State
registered = record { service_instances = web_instance ∷ []; calls = [] }

deregister_from_consul-exact_example :
    ((deregister_from_consul agent registered).1 ≡ ok [])
    × ((deregister_from_consul agent registered).0.calls ≡ removals (web_instance ∷ []) [])
    × ((x : Instance)
        → In x (deregister_from_consul agent registered).0.service_instances
          ↔ FailsIn agent x (web_instance ∷ []) [])
deregister_from_consul-exact_example = deregister_from_consul-exact agent registered

registration_succeeds : (register_into_consul agent service fresh).1 ≡ ok []
unfolding register_into_consul find_label str_eq instances_to_register instances_or_default
    port_instances get_service_labels split register_all
registration_succeeds = refl

deregister-register_example :
    let after : State =
      (deregister_from_consul agent (register_into_consul agent service fresh).0).0 in
    (after.service_instances ≡ [])
    × (rs : List Registration) × AreOf agent rs (web_instance ∷ [])
    × (after.calls ≡ removals (web_instance ∷ []) (registrations rs []))
deregister-register_example =
    deregister-register agent service (web_instance ∷ []) fresh service_is_labelled
      service_instances_found refl registration_succeeds (λ earlier id. refl)
