-- ===== src/Main/Starting.antt =====
-- With what main of cmd/executor/main.go starts the executor.
use mesos_executor.Common.{ℕ, pos, Option, ok, ◌≡◌, refl, ap, if◌then◌else◌, ◌>>=◌}
use mesos_executor.Metrics
use mesos_executor.Metrics.{Reporter}
use mesos_executor.Executor.Sanitize.{IsSane, sanitize_config, sanitize_config-IsSane}
use mesos_executor.Wiring.{Wiring}
use mesos_executor.Updater.{buffered_updater}
use mesos_executor.Executor.Channel.{new_channel}
use mesos_executor.Main.{
  Libraries, MesosConfig, Config, SentryHook, Executor, debug_level, info_level, settings_of,
  with_settings, with_mesos_config, new_executor, start_executor, init_sentry, create_hooks, init,
  main, buffered,
}

-- The executor for the configuration of the program and the one of the agent.
abbrev pub IsExecutorFor : Config → MesosConfig → Wiring → ℕ → Executor → Type 0
IsExecutorFor c m hooks buffer_size e =
    IsSane (settings_of e.config)
    × (IsSane (settings_of (with_mesos_config c m)) → e.config ≡ with_mesos_config c m)
    × (e.config.mesos_config ≡ record m {
      recovery_timeout = e.config.mesos_config.recovery_timeout;
      subscription_backoff_max = e.config.mesos_config.subscription_backoff_max;
    })
    × (e.hook_manager ≡ hooks)
    × (e.state_updater ≡ buffered_updater buffer_size)
    × (e.events ≡ new_channel)

abbrev pub executor_of : Config → Wiring → ℕ → Executor
executor_of c hooks n = record {
  config = c;
  hook_manager = hooks;
  state_updater = buffered_updater n;
  events = new_channel;
}

new_executor-eq :
    (c : Config) (hooks : Wiring) (n : ℕ)
    → c.state_update_buffer_size ≡ pos n
    → new_executor c hooks ≡ ok (executor_of c hooks n)
unfolding new_executor buffered
new_executor-eq c hooks n size =
    ap
      (λ buffer_size. buffered buffer_size >>= (λ updater. ok (record {
        config = c;
        hook_manager = hooks;
        state_updater = updater;
        events = new_channel;
      })))
      size

start_executor-IsExecutorFor :
    (c : Config) (m : MesosConfig) (hooks : Wiring) (n : ℕ)
    → c.state_update_buffer_size ≡ pos n
    → (e : Executor) × (start_executor (with_mesos_config c m) hooks ≡ ok e)
      × IsExecutorFor c m hooks n e
unfolding start_executor
start_executor-IsExecutorFor c m hooks n size =
    let settings = settings_of (with_mesos_config c m) in
    let conf = with_settings (with_mesos_config c m) (sanitize_config settings) in
    let sane = sanitize_config-IsSane settings in
    (
      executor_of conf hooks n,
      new_executor-eq conf hooks n size,
      (sane.0, λ h. ap (with_settings (with_mesos_config c m)) (sane.1 h), refl, refl, refl, refl),
    )

module _ (libs : Libraries) where
  -- Where every configuration can be read, the buffer's size is not negative and the set-up of
  -- Sentry, of the metrics and of the hooks succeeds, main starts an executor: with those hooks, an
  -- empty updater of that size and an empty channel of events; and with a configuration that is
  -- sane, that is the one read wherever that one is sane, and whose part for Mesos is the agent's
  -- but for its two durations.
  pub main-IsExecutorFor :
      (c : Config) (m : MesosConfig) (sentry : Option SentryHook) (reporter : Reporter)
      (hooks : Wiring) (n : ℕ)
      → libs.executor_config ≡ ok c
      → init_sentry libs c ≡ ok sentry
      → libs.mesos_config ≡ ok m
      → Metrics.init libs.graphite_config libs.resolve libs.getenv libs.os_hostname m.executor_id
        ≡ ok reporter
      → create_hooks libs ≡ ok hooks
      → c.state_update_buffer_size ≡ pos n
      → (e : Executor) × (main libs
          ≡ ok (record {
            sentry = sentry;
            level = if c.debug then debug_level else info_level;
            reporter = reporter;
            executor = e;
          }))
        × IsExecutorFor c m hooks n e
  unfolding main init
  main-IsExecutorFor c m sentry reporter hooks n read_c made_sentry read_m made_reporter made_hooks
        size =
      let (e, started, is) = start_executor-IsExecutorFor c m hooks n size in
      (e, simp (read_c, made_sentry, read_m, made_reporter, made_hooks, started), is)
