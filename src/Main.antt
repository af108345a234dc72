-- ===== src/Main.antt =====
-- cmd/executor/main.go, with NewExecutor and StartExecutor of executor.go: how the program is
-- set up, and with what it starts the executor. An error that ends the program by Fatal is the error
-- that is logged. What envconfig, raven and logrus_sentry answer are parameters.
pub mod Sentry
pub mod Starting
mod Surroundings
mod Tests
pub use Surroundings.{
  MesosConfig, Config, ConsulConfig, VaasConfig, Level, panic_level, fatal_level, error_level,
  info_level, debug_level, SentryHook, Libraries,
}
use mesos_executor.Common.{
  wrap_err, failing, ℕ, ℤ, pos, negsuc, Option, none, some, List, [], ◌∷◌, ◌++◌, Str, codes, Bool,
  if◌then◌else◌, Result, ok, err, panic, ◌>>=◌,
}
use mesos_executor.Runenv.{Env, local_env, dev_env, test_env, prod_env, environment}
use mesos_executor.Metrics
use mesos_executor.Metrics.{Reporter}
use mesos_executor.Executor.Channel.{Channel, new_channel}
use mesos_executor.Executor.Sanitize.{Settings, sanitize_config}
use mesos_executor.Updater.{Updater, buffered_updater}
use mesos_executor.Wiring.{Wiring}

abbrev pub env_text : Env → Str
env_text local_env = codes "local"
env_text dev_env = codes "dev"
env_text test_env = codes "test"
env_text prod_env = codes "prod"

-- Config.MesosConfig.FrameworkID = cfg.FrameworkID, and so on.
abbrev pub with_mesos_config : Config → MesosConfig → Config
with_mesos_config c cfg = record c { mesos_config = cfg }

-- What sanitizeConfig reads and writes.
abbrev pub settings_of : Config → Settings
settings_of c = record {
  random_expiration_range = c.random_expiration_range;
  api_path = c.api_path;
  http_timeout = c.http_timeout;
  recovery_timeout = c.mesos_config.recovery_timeout;
  subscription_backoff_max = c.mesos_config.subscription_backoff_max;
}

abbrev pub with_settings : Config → Settings → Config
with_settings c s = record c {
  random_expiration_range = s.random_expiration_range;
  api_path = s.api_path;
  http_timeout = s.http_timeout;
  mesos_config = record c.mesos_config {
    recovery_timeout = s.recovery_timeout;
    subscription_backoff_max = s.subscription_backoff_max;
  };
}

-- Executor, but for its context, clock and random.
pub record Executor : Type 0 where
  pub config : Config
  pub hook_manager : Wiring
  pub state_updater : Updater
  pub events : Channel

buffered : ℤ → Result Updater
buffered (pos n) = ok (buffered_updater n)
buffered (negsuc n) = panic

-- A channel of a negative size panics.
unfoldable pub new_executor : Config → Wiring → Result Executor
unfolding buffered
new_executor cfg hooks = do
  updater ← buffered cfg.state_update_buffer_size
  ok (record { config = cfg; hook_manager = hooks; state_updater = updater; events = new_channel })

-- StartExecutor, up to its call of Start.
unfoldable pub start_executor : Config → Wiring → Result Executor
start_executor conf hooks =
    new_executor (with_settings conf (sanitize_config (settings_of conf))) hooks

pub record Started : Type 0 where
  pub sentry : Option SentryHook
  pub level : Level
  pub reporter : Reporter
  pub executor : Executor

module _ (libs : Libraries) where
  -- The hook for an environment, by its name.
  new_sentry : Str → Str → Result (Option SentryHook)
  new_sentry dsn name = do
    _ ← wrap_err (codes "unable to setup raven client: ") (failing (libs.new_raven dsn))
    _ ←
        wrap_err (codes "unable to setup sentry hook for logger: ")
          (failing (libs.new_sentry_hook dsn))
    ok (
        some (record {
          dsn = dsn;
          release = libs.version;
          environment = name;
          levels = panic_level ∷ fatal_level ∷ error_level ∷ [];
          timeout = 1000000000;
        }))

  report : Str → Env → Result (Option SentryHook)
  unfolding new_sentry
  report dsn local_env = ok none
  report dsn dev_env = new_sentry dsn (env_text dev_env)
  report dsn test_env = new_sentry dsn (env_text test_env)
  report dsn prod_env = new_sentry dsn (env_text prod_env)

  sentry_for : Str → Result (Option SentryHook)
  sentry_for [] = ok none
  sentry_for (c ∷ dsn) =
      wrap_err (codes "unable to determine runtime environment: ")
        (environment libs.getenv libs.os_hostname)
      >>= report (c ∷ dsn)

  -- The hook that is added to the log, or none.
  unfoldable pub init_sentry : Config → Result (Option SentryHook)
  unfolding sentry_for report new_sentry
  init_sentry config = sentry_for config.sentry_dsn

  -- NewHook of hook/consul.
  new_consul_hook : ConsulConfig → Result (Unit {0})
  new_consul_hook cfg = if cfg.enabled then failing (libs.new_consul cfg.consul_token) else ok tt

  -- createHooks, by the hooks' configurations.
  unfoldable pub create_hooks : Result Wiring
  unfolding new_consul_hook
  create_hooks = do
    consul_config ← libs.consul_config
    _ ← new_consul_hook consul_config
    vaas_config ← libs.vaas_config
    ok (record {
      vaas_enabled = vaas_config.enabled;
      consul_enabled = consul_config.enabled;
      api = record libs.api {
        host = vaas_config.vaas_api_host;
        username = vaas_config.vaas_api_username;
        api_key = vaas_config.vaas_api_key;
      };
      parse_ip = libs.parse_ip;
      getenv = libs.getenv;
      consul_client = record libs.consul {
        global_tag = consul_config.consul_global_tag;
        initial_status = consul_config.initial_health_check_status;
      };
    })

  -- init
  unfoldable pub init : Result (Config × Option SentryHook)
  init = do config ← libs.executor_config; sentry ← init_sentry config; ok (config, sentry)

  unfoldable pub main : Result Started
  main = do
    (config, sentry) ← init
    cfg ← libs.mesos_config
    reporter ←
        Metrics.init libs.graphite_config libs.resolve libs.getenv libs.os_hostname cfg.executor_id
    hooks ← create_hooks
    executor ← start_executor (with_mesos_config config cfg) hooks
    ok (record {
      sentry = sentry;
      level = if config.debug then debug_level else info_level;
      reporter = reporter;
      executor = executor;
    })
