-- ===== src/Wiring.antt =====
-- createHooks of cmd/executor/main.go, with NewHook of hook/vaas and hook/consul: the hooks that the
-- executor runs with, and the state that they have together. That a Consul client can be made is
-- taken for granted: otherwise the program ends.
mod Tests
use mesos_executor.Common.{
  List, [], ◌∷◌, Str, Option, Bool, true, false, if◌then◌else◌, Result, Returned, ◌≡◌, In, ◌↔◌,
}
use mesos_executor.Hook
use mesos_executor.Hook.{Hook, noop_hook, after_task_healthy}
use mesos_executor.Runenv.{Getenv}
use mesos_executor.Vaas
use mesos_executor.Vaas.{register_backend, deregister_backend}
use mesos_executor.Vaas.Client.{Api}
use mesos_executor.Vaas.Forgetting.{Forgets}
use mesos_executor.Consul
use mesos_executor.Consul.Services.{Instance}
use mesos_executor.Consul.Deregister.{removals, FailsIn}
use mesos_executor.Consul.{Consul, register_into_consul, deregister_from_consul}

pub record Registries : Type 0 where
  pub vaas : Vaas.State
  pub consul : Consul.State

-- The configurations of the hooks, and their libraries.
pub record Wiring : Type 0 where
  pub vaas_enabled : Bool
  pub consul_enabled : Bool
  pub api : Api
  pub parse_ip : Str → Option Str
  pub getenv : Getenv
  pub consul_client : Consul

module _ (m : Wiring) where
  on_vaas : Hook Registries
  on_vaas event w =
      let (v, r) = Vaas.handle_event m.api m.parse_ip m.getenv event w.vaas in
      (record w { vaas = v }, r)

  on_consul : Hook Registries
  on_consul event w =
      let (c, r) = Consul.handle_event m.consul_client event w.consul in
      (record w { consul = c }, r)

  vaas_hook : Bool → Hook Registries
  unfolding on_vaas
  vaas_hook enabled = if enabled then on_vaas else noop_hook

  consul_hook : Bool → Hook Registries
  unfolding on_consul
  consul_hook enabled = if enabled then on_consul else noop_hook

  unfoldable pub create_hooks : List (Hook Registries)
  unfolding vaas_hook consul_hook
  create_hooks = vaas_hook m.vaas_enabled ∷ consul_hook m.consul_enabled ∷ []

  abbrev pub vaas_after : Bool → Registries → Vaas.State
  vaas_after enabled w =
      if enabled then (deregister_backend m.api m.parse_ip m.getenv w.vaas).0 else w.vaas

  abbrev pub consul_after : Bool → Registries → Consul.State
  consul_after enabled w =
      if enabled then (deregister_from_consul m.consul_client w.consul).0 else w.consul

  -- What an enabled VaaS hook leaves: it has asked for the deletion of the backend that it
  -- remembers, and forgets it where that succeeds.
  abbrev pub VaasForgets : Bool → Registries → Vaas.State → Type 0
  VaasForgets true w v = Forgets m.api m.parse_ip m.getenv w.vaas v
  VaasForgets false w v = v ≡ w.vaas

  -- What an enabled Consul hook leaves: it has deregistered each instance that it remembers, and
  -- goes on remembering those whose call failed.
  abbrev pub ConsulForgets : Bool → Registries → Consul.State → Type 0
  ConsulForgets true w c =
      (c.calls ≡ removals w.consul.service_instances w.consul.calls)
      × ((x : Instance)
          → In x c.service_instances
            ↔ FailsIn m.consul_client x w.consul.service_instances w.consul.calls)
  ConsulForgets false w c = c ≡ w.consul
