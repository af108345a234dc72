-- ===== src/Main/Tests.antt =====
-- A start of the program on a production host.
use mesos_executor.Common.{
  pos, none, some, [], ◌∷◌, Str, codes, true, false, ok, has_prefix, ◌≡◌, refl,
}
use mesos_executor.Runenv.{hostname, environment, find_env, env_here, or_here, env_or_default}
use mesos_executor.Metrics
use mesos_executor.Metrics.{
  GraphiteConfig, Reporter, graphite, setup_graphite, build_unique_prefix, normalize_value,
}
use mesos_executor.Wiring.{Wiring}
use mesos_executor.Main.{
  Libraries, MesosConfig, Config, SentryHook, Executor, panic_level, fatal_level, error_level,
  info_level, init_sentry, create_hooks, main,
}
use mesos_executor.Main.Sentry.{IsSentryFor, init_sentry-IsSentryFor}
use mesos_executor.Main.Starting.{IsExecutorFor, main-IsExecutorFor}
use mesos_executor.Samples.{api, consul}

-- Before main fills it in.
abbrev agent : MesosConfig
agent = record {
  framework_id = [];
  executor_id = [];
  directory = [];
  sandbox = [];
  agent_endpoint = [];
  executor_shutdown_grace_period = pos 0;
  checkpoint = false;
  recovery_timeout = pos 0;
  subscription_backoff_max = pos 0;
}

abbrev config : Config
config = record {
  debug = false;
  api_path = [];
  kill_policy_grace_period = pos 5000000000;
  http_timeout = pos 0;
  state_update_buffer_size = pos 1024;
  state_update_wait_timeout = pos 5000000000;
  mesos_config = agent;
  sentry_dsn = codes "https://key@sentry/1";
  servicelog_buffer_size = 2000;
  servicelog_ignore_keys = [];
  random_expiration_range = pos 0;
  sigterm_exclude_processes = [];
}

abbrev agent_config : MesosConfig
agent_config = record {
  framework_id = codes "marathon";
  executor_id = codes "web.1";
  directory = codes "/mnt";
  sandbox = codes "/mnt/sandbox";
  agent_endpoint = codes "10.0.0.1:5051";
  executor_shutdown_grace_period = pos 5000000000;
  checkpoint = true;
  recovery_timeout = pos 0;
  subscription_backoff_max = pos 2000000000;
}

abbrev host : Str
host = codes "n-prod.net"

abbrev libs : Libraries
libs = record {
  version = codes "1.0";
  getenv = λ name. [];
  os_hostname = ok host;
  executor_config = ok config;
  mesos_config = ok agent_config;
  graphite_config = ok (record { host = []; port = pos 2003; prefix = codes "allegro.executor" });
  consul_config = ok (record {
    enabled = true;
    consul_token = [];
    consul_global_tag = codes "marathon";
    initial_health_check_status = codes "passing";
  });
  vaas_config = ok (record {
    enabled = false;
    vaas_api_host = codes "http://vaas";
    vaas_api_username = [];
    vaas_api_key = [];
    vaas_async_timeout = pos 90000000000;
  });
  new_raven = λ dsn. none;
  new_sentry_hook = λ dsn. none;
  resolve = λ address. none;
  new_consul = λ token. none;
  consul = consul;
  api = api;
  parse_ip = λ s. some s;
}

host_known : hostname libs.getenv libs.os_hostname ≡ ok host
unfolding hostname
host_known = refl

init_sentry-IsSentryFor_example : IsSentryFor libs host config.sentry_dsn (init_sentry libs config)
init_sentry-IsSentryFor_example = init_sentry-IsSentryFor libs config host host_known

abbrev sentry : SentryHook
sentry = record {
  dsn = codes "https://key@sentry/1";
  release = codes "1.0";
  environment = codes "prod";
  levels = panic_level ∷ fatal_level ∷ error_level ∷ [];
  timeout = 1000000000;
}

sentry_made : init_sentry libs config ≡ ok (some sentry)
unfolding init_sentry environment hostname find_env env_here or_here env_or_default has_prefix
sentry_made = refl

abbrev wiring : Wiring
wiring = record {
  vaas_enabled = false;
  consul_enabled = true;
  api = record api { host = codes "http://vaas"; username = []; api_key = [] };
  parse_ip = λ s. some s;
  getenv = λ name. [];
  consul_client = consul;
}

hooks_made : create_hooks libs ≡ ok wiring
unfolding create_hooks
hooks_made = refl

metrics_set_up :
    Metrics.init libs.graphite_config libs.resolve libs.getenv libs.os_hostname
      agent_config.executor_id
    ≡ ok Metrics.stderr
unfolding Metrics.init
metrics_set_up = refl

main-IsExecutorFor_example :
    (e : Executor) × (main libs
      ≡ ok (record {
        sentry = some sentry;
        level = info_level;
        reporter = Metrics.stderr;
        executor = e;
      }))
    × IsExecutorFor config agent_config wiring 1024 e
main-IsExecutorFor_example =
    main-IsExecutorFor libs config agent_config (some sentry) Metrics.stderr wiring 1024 refl
      sentry_made refl metrics_set_up hooks_made refl
