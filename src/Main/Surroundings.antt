-- ===== src/Main/Surroundings.antt =====
-- The configurations that cmd/executor/main.go reads (of executor.go, hook/consul, hook/vaas and
-- mesos-go), and what it asks of its surroundings.
use mesos_executor.Common.{ℕ, ℤ, Option, List, Str, Bool, Result}
use mesos_executor.Runenv.{Getenv}
use mesos_executor.Metrics.{GraphiteConfig}
use mesos_executor.Vaas.Client.{Api}
use mesos_executor.Consul.{Consul}

-- config.Config of mesos-go.
pub record MesosConfig : Type 0 where
  pub framework_id : Str
  pub executor_id : Str
  pub directory : Str
  pub sandbox : Str
  pub agent_endpoint : Str
  pub executor_shutdown_grace_period : ℤ
  pub checkpoint : Bool
  pub recovery_timeout : ℤ
  pub subscription_backoff_max : ℤ

-- Config of executor.go.
pub record Config : Type 0 where
  pub debug : Bool
  pub api_path : Str
  pub kill_policy_grace_period : ℤ
  pub http_timeout : ℤ
  pub state_update_buffer_size : ℤ
  pub state_update_wait_timeout : ℤ
  pub mesos_config : MesosConfig
  pub sentry_dsn : Str
  pub servicelog_buffer_size : ℕ
  pub servicelog_ignore_keys : List Str
  pub random_expiration_range : ℤ
  pub sigterm_exclude_processes : List Str

-- Config of hook/consul and of hook/vaas.
pub record ConsulConfig : Type 0 where
  pub enabled : Bool
  pub consul_token : Str
  pub consul_global_tag : Str
  pub initial_health_check_status : Str

pub record VaasConfig : Type 0 where
  pub enabled : Bool
  pub vaas_api_host : Str
  pub vaas_api_username : Str
  pub vaas_api_key : Str
  pub vaas_async_timeout : ℤ

-- The levels of the log.
pub data Level : Type 0 where
  panic_level fatal_level error_level info_level debug_level : Level

-- The hook of the log that reports to Sentry, with its raven client.
pub record SentryHook : Type 0 where
  pub dsn : Str
  pub release : Str
  pub environment : Str
  pub levels : List Level
  pub timeout : ℕ

-- What the program asks of its surroundings.
pub record Libraries : Type 0 where
  pub version : Str
  pub getenv : Getenv
  pub os_hostname : Result Str
  -- envconfig.Process for each of the configurations, and config.FromEnv
  pub executor_config : Result Config
  pub mesos_config : Result MesosConfig
  pub graphite_config : Result GraphiteConfig
  pub consul_config : Result ConsulConfig
  pub vaas_config : Result VaasConfig
  -- the errors of raven.New, NewWithClientSentryHook, net.ResolveTCPAddr and api.NewClient, or none
  pub new_raven : Str → Option Str
  pub new_sentry_hook : Str → Option Str
  pub resolve : Str → Option Str
  pub new_consul : Str → Option Str
  -- the clients, but for what the configurations say
  pub consul : Consul
  pub api : Api
  pub parse_ip : Str → Option Str
