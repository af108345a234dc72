-- ===== src/Servicelog/Logstash/Setup/Tests.antt =====
-- A configuration with a service, over TCP.
use mesos_executor.Common.{pos, none, [], codes, true, inr, ok, ◌≡◌, refl}
use mesos_executor.Servicelog.Logstash.{Config, base_writer, writer}
use mesos_executor.Servicelog.Logstash.Setup.{
  Settings, Libraries, Made, HasBase, limited, logstash_appender_from_env,
  logstash_appender_from_env-made,
}

abbrev settings : Settings
settings = record {
  protocol = codes "tcp";
  address = [];
  discovery_refresh_interval = 1;
  discovery_service_name = codes "logstash";
  rate_limit = pos 10;
  size_limit = pos 0;
  tcp_keep_alive = 5;
  tcp_timeout = 2;
}

abbrev libraries : Libraries
libraries = record { process = ok settings; new_client = none; dial = λ protocol address. none }

abbrev config : Config
config = record {
  rate_limit = pos 10;
  size_limit = pos 0;
  allow = λ asked. true;
  write = λ received p. none;
  marshal = λ entry. inr (codes "{}");
}

logstash_appender_from_env-made_example :
    (a : Made) × (logstash_appender_from_env libraries ≡ ok a)
    × HasBase settings a.base
    × (limited config a.limits (base_writer config) ≡ writer config)
logstash_appender_from_env-made_example =
    logstash_appender_from_env-made libraries settings config refl refl refl refl refl
