-- ===== src/Wiring/Tests.antt =====
-- Stopping a task that is registered in both registries, while VaaS answers 404.
use mesos_executor.Common.{pos, some, [], ◌∷◌, codes, true}
use mesos_executor.Hook
use mesos_executor.Consul.Services.{port_instance}
use mesos_executor.Wiring.{Wiring, Registries}
use mesos_executor.Samples.{admin_port, api, consul}

abbrev wiring : Wiring
wiring = record {
  vaas_enabled = true;
  consul_enabled = true;
  api = api;
  parse_ip = λ s. some s;
  getenv = λ name. codes "dc1";
  consul_client = consul;
}

abbrev registered : Registries
registered = record {
  vaas = record { backend_id = some (pos 42); requests = [] };
  consul = record {
    service_instances = port_instance (codes "web.1") [] admin_port (codes "web") ∷ [];
    calls = [];
  };
}
