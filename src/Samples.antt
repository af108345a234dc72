-- ===== src/Samples.antt =====
-- A task and its surroundings, as the tests use them.
use mesos_executor.Common.{ℕ, suc, none, some, [], ◌∷◌, Str, codes, ok, err, true, print_ℕ}
use mesos_executor.Mesos.{Label, Port, CommandInfo, HealthCheck, TaskInfo}
use mesos_executor.Hook
use mesos_executor.Health.Check.{Network, answered, exited}
use mesos_executor.Vaas.Client
use mesos_executor.Vaas.Client.{Api, Response, read}
use mesos_executor.Consul.{Consul}
use mesos_executor.Hook.{Hook, before_task_start}

abbrev pub sleep : CommandInfo
sleep = record { value = codes "sleep 100"; shell = true; arguments = []; variables = [] }

abbrev pub service_label : Label
service_label = record { key = codes "service"; value = codes "port:true" }

abbrev pub admin_port : Port
admin_port = record { number = 31000; name = codes "admin"; labels = none }

abbrev pub service_port : Port
service_port = record { number = 31001; name = codes "service"; labels = some (service_label ∷ []) }

abbrev pub ping : HealthCheck
ping = record {
  delay = 0;
  interval = some 10;
  timeout = some 5;
  grace_period = 30;
  consecutive_failures = 3;
  command = none;
  http = some (record { scheme = none; port = 31001; path = codes "/status/ping" });
  tcp = none;
}

abbrev pub web : TaskInfo
web = record {
  task_id = codes "web.1";
  executor_id = codes "executor.1";
  executor_command = sleep;
  command_variables = record { name = codes "A"; value = codes "1" } ∷ [];
  labels = record { key = codes "weight:20"; value = codes "tag" } ∷ [];
  ports = admin_port ∷ service_port ∷ [];
  health_check = some ping;
  kill_grace = 0;
}

abbrev pub start_event : Hook.Event
start_event = record { type = before_task_start; task_info = web }

-- Hooks that count their calls.
abbrev pub grant : Str → Hook ℕ
grant v event n = (suc n, ok (v ∷ []))

abbrev pub refuse : Hook ℕ
refuse event n = (suc n, err (codes "refused"))

abbrev pub not_found : Response
not_found = record { status_code = 404; body = read []; location = [] }

abbrev pub api : Api
api = record {
  host = codes "http://vaas";
  username = codes "user";
  api_key = codes "key";
  http = λ sent r. Client.answered not_found;
  bad_url = λ url. none;
  url_path = λ url. url;
  marshal = λ b. ok b.address;
  marshal_nil = ok (codes "null");
  directors = λ raw. ok [];
  dcs = λ raw. ok [];
  backend = λ raw b. ok b;
}

abbrev pub network : Network
network = record {
  ip = none;
  environ = [];
  run = λ cmd timeout. exited;
  dial = λ address timeout. none;
  get = λ url timeout. answered 204;
  format_duration = print_ℕ;
  default_timeout = 20000000000;
}

abbrev pub consul : Consul
consul = record {
  global_tag = codes "marathon";
  initial_status = codes "passing";
  address = codes "10.0.0.1";
  net = network;
  url_string = λ url. url.host;
  order = λ placeholders. placeholders;
  service_register = λ calls r. none;
  service_deregister = λ calls id. none;
}
