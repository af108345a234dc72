-- ===== src/Clock/Tests.antt =====
-- A certificate under a range that is not configured: three hours.
use mesos_executor.Common.{
  ok_inj, ℕ, [], codes, ok, err, panic, none, ◌≡◌, ◌≢◌, refl, ◌-◌, pos, print_ℕ, arith,
}
use mesos_executor.Executor.{Platform, Config}
use mesos_executor.Executor.Sanitize.{Settings, sanitize_config}
use mesos_executor.Clock.{duration}
use mesos_executor.Clock.Expiry.{ExpiresWithin, check_cert-ExpiresWithin}

abbrev settings : Settings
settings = record {
  random_expiration_range = pos 0;
  api_path = [];
  http_timeout = pos 3;
  recovery_timeout = pos 0;
  subscription_backoff_max = pos 5;
}

-- A generator that answers the last number below its bound.
abbrev intn : ℕ → ℕ
intn n = n - 1

abbrev platform : Platform
platform = record {
  hooks = [];
  environ = [];
  program = codes "/opt/executor";
  pem_decode = λ s. none;
  parse_certificate = λ s. err (codes "malformed");
  format_time = print_ℕ;
  now = λ log. 100;
  random = λ max log. max - 1;
  appender = ok tt;
  run = λ log cmd. ok 42;
}

abbrev config : Config
config = record {
  kill_policy_grace_period = 5;
  random_expiration_range = 10800000000000;
  sigterm_exclude_processes = [];
}

sanitized : (sanitize_config settings).random_expiration_range ≡ pos 10800000000000
unfolding sanitize_config
sanitized = refl

drawn : (r : ℕ) → duration intn (pos 10800000000000) ≡ ok r → 10800000000000 - 1 ≡ r
unfolding duration
drawn r h = ok_inj h

check_cert-ExpiresWithin_example :
    (duration intn (sanitize_config settings).random_expiration_range ≢ panic)
    × ExpiresWithin platform config 20000000000000 []
check_cert-ExpiresWithin_example =
    check_cert-ExpiresWithin platform config settings intn 20000000000000 [] (λ k h. omega arith)
      sanitized drawn
