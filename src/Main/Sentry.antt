-- ===== src/Main/Sentry.antt =====
-- initSentry of cmd/executor/main.go.
use mesos_executor.Common.{
  wrap_err, Option, none, some, [], ◌∷◌, ◌++◌, Option-cases, Str, codes, Result, ok, err, panic,
  ◌>>=◌, arith, ◌≡◌, ◌≢◌, refl, ◌⊎◌, inl, inr,
}
use mesos_executor.Runenv.{Env, local_env, dev_env, test_env, prod_env, hostname, environment}
use mesos_executor.Runenv.Hosts.{IsUnmarked, IsMarked, IsEnvironmentOf, environment-IsEnvironmentOf}
use mesos_executor.Main.{
  Libraries, Config, SentryHook, panic_level, fatal_level, error_level, env_text, init_sentry,
  new_sentry, report, sentry_for,
}

module _ (libs : Libraries) where
  -- The hook for an environment, or the error of the library that gave none.
  abbrev pub IsReport : Str → Env → Result (Option SentryHook) → Type 0
  IsReport dsn env r =
      ((libs.new_raven dsn ≡ none)
        × (libs.new_sentry_hook dsn ≡ none)
        × (r
            ≡ ok (
                some (record {
                  dsn = dsn;
                  release = libs.version;
                  environment = env_text env;
                  levels = panic_level ∷ fatal_level ∷ error_level ∷ [];
                  timeout = 1000000000;
                }))))
      ⊎ (((e : Str) × (libs.new_raven dsn ≡ some e)
            × (r ≡ err (codes "unable to setup raven client: " ++ e)))
          ⊎ ((e : Str) × (libs.new_raven dsn ≡ none)
              × (libs.new_sentry_hook dsn ≡ some e)
              × (r ≡ err (codes "unable to setup sentry hook for logger: " ++ e))))

  -- What initSentry returns on a host: the log reports to Sentry in an environment but the local.
  abbrev pub IsSentryFor : Str → Str → Result (Option SentryHook) → Type 0
  IsSentryFor name dsn r =
      (((dsn ≡ []) ⊎ IsUnmarked name) × (r ≡ ok none))
      ⊎ ((dsn ≢ []) × (env : Env) × IsMarked name env × IsReport dsn env r)

  new_sentry-IsReport :
      (dsn : Str) (env : Env) → IsReport dsn env (new_sentry libs dsn (env_text env))
  unfolding new_sentry
  new_sentry-IsReport dsn env = elim (Option-cases (libs.new_raven dsn)) [
    | inl raven ↦ elim (Option-cases (libs.new_sentry_hook dsn)) [
      | inl hook ↦ rw (raven, hook) (inl (refl, refl, refl))
      | inr (e, hook) ↦ rw (raven, hook) (inr (inr (e, refl, refl, refl)))
    ]
    | inr (e, raven) ↦ rw raven (inr (inl (e, refl, refl)))
  ]

  report-IsSentryFor :
      (name dsn : Str) (env : Env)
      → dsn ≢ []
      → IsEnvironmentOf name (ok env)
      → IsSentryFor name dsn (report libs dsn env)
  unfolding report
  report-IsSentryFor name dsn local_env h is = inl (inr is, refl)
  report-IsSentryFor name dsn dev_env h is = inr (h, dev_env, is, new_sentry-IsReport dsn dev_env)
  report-IsSentryFor name dsn test_env h is =
      inr (h, test_env, is, new_sentry-IsReport dsn test_env)
  report-IsSentryFor name dsn prod_env h is =
      inr (h, prod_env, is, new_sentry-IsReport dsn prod_env)

  known-IsSentryFor :
      (name dsn : Str) (known : Result Env)
      → dsn ≢ []
      → IsEnvironmentOf name known
      → IsSentryFor name dsn
          (wrap_err (codes "unable to determine runtime environment: ") known >>= report libs dsn)
  known-IsSentryFor name dsn (ok env) h is = report-IsSentryFor name dsn env h is
  known-IsSentryFor name dsn (err e) h is = absurd is
  known-IsSentryFor name dsn panic h is = absurd is

  sentry_for-IsSentryFor :
      (name dsn : Str)
      → IsEnvironmentOf name (environment libs.getenv libs.os_hostname)
      → IsSentryFor name dsn (sentry_for libs dsn)
  unfolding sentry_for
  sentry_for-IsSentryFor name [] is = inl (inl refl, refl)
  sentry_for-IsSentryFor name (c ∷ dsn) is =
      known-IsSentryFor name (c ∷ dsn) (environment libs.getenv libs.os_hostname)
        (λ e. absurd (ground arith)) is

  -- Where the host name can be determined: initSentry makes no hook exactly where no DSN is
  -- configured or the host name has no mark of an environment, and otherwise a hook for panics,
  -- fatal errors and errors under the DSN, the version and the environment of the last mark, or it
  -- returns the error of the library that did not make it.
  pub init_sentry-IsSentryFor :
      (config : Config) (name : Str)
      → hostname libs.getenv libs.os_hostname ≡ ok name
      → IsSentryFor name config.sentry_dsn (init_sentry libs config)
  unfolding init_sentry
  init_sentry-IsSentryFor config name h =
      sentry_for-IsSentryFor name config.sentry_dsn
        (environment-IsEnvironmentOf libs.getenv libs.os_hostname name h)
