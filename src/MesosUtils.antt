-- ===== src/MesosUtils.antt =====
-- mesosutils/taskinfo.go: lookups in the metadata of a task. Errors are their messages.
pub mod Lookup
use mesos_executor.Common.{
  ℕ, Option, none, some, List, [], ◌∷◌, ◌++◌, Str, codes, str_eq, has_prefix, trim_prefix, Bool,
  true, false, ◌||◌, if◌then◌else◌, Result, ok, err, ℤ, atoi,
}
use mesos_executor.Mesos.{Label, Port, Variable, TaskInfo, HealthCheck, CommandInfo}

pub data HealthCheckType : Type 0 where
  none_type http_type tcp_type command_type : HealthCheckType

-- `HTTP` holds the path alone, as the source's HTTPCheck does.
pub record Check : Type 0 where
  pub type : HealthCheckType
  pub interval : ℕ
  pub timeout : ℕ
  pub http_path : Str

abbrev pub service_id_label_key : Str
service_id_label_key = codes "serviceId"

-- FindLabel on a list of labels.
unfoldable pub find_label : List Label → Str → Option Label
find_label [] key = none
find_label (l ∷ ls) key = if str_eq l.key key then some l else find_label ls key

unfoldable pub get_label_keys_by_value : List Label → Str → List Str
get_label_keys_by_value [] value = []
get_label_keys_by_value (l ∷ ls) value =
    let rest = get_label_keys_by_value ls value in
    if str_eq l.value value then l.key ∷ rest else rest

label_value : Option Label → Str
label_value none = []
label_value (some l) = l.value

unfoldable pub get_label_value : TaskInfo → Str → Str
unfolding label_value
get_label_value t key = label_value (find_label t.labels key)

-- The kind of error (syntax or range) is left out of the message: no caller looks at it.
unfoldable atoi_result : Str → Option ℤ → Result ℤ
atoi_result s none = err (codes "strconv.Atoi: parsing " ++ s)
atoi_result s (some n) = ok n

abbrev pub weight_prefix : Str
weight_prefix = codes "weight:"

-- The loop of GetWeight: it returns at the first tag with the prefix, whatever stands behind it.
unfoldable weight_of_tags : List Str → Result ℤ
unfolding atoi_result
weight_of_tags [] = err (codes "no weight defined")
weight_of_tags (tag ∷ tags) =
    let value = trim_prefix tag weight_prefix in
    if has_prefix tag weight_prefix then atoi_result value (atoi value) else weight_of_tags tags

unfoldable pub get_weight : TaskInfo → Result ℤ
unfolding weight_of_tags
get_weight t = weight_of_tags (get_label_keys_by_value t.labels (codes "tag"))

unfoldable has_key : Str → List Label → Bool
has_key key [] = false
has_key key (l ∷ ls) = str_eq key l.key || has_key key ls

unfoldable labelled : Str → Option (List Label) → Bool
unfolding has_key
labelled key none = false
labelled key (some ls) = has_key key ls

unfoldable first_labelled : Str → List Port → Result Port
unfolding labelled
first_labelled key [] = err (codes "No port with label " ++ key)
first_labelled key (p ∷ ps) = if labelled key p.labels then ok p else first_labelled key ps

unfoldable port_with_label : Str → List Port → Result Port
unfolding first_labelled
port_with_label key [] = err (codes "service has no ports available")
port_with_label key (p ∷ ps) = first_labelled key (p ∷ ps)

unfoldable pub get_first_port_with_label : TaskInfo → Str → Result Port
unfolding port_with_label
get_first_port_with_label t key = port_with_label key t.ports

env_value : List Variable → Str → Str
env_value [] key = []
env_value (v ∷ vs) key = if str_eq v.name key then v.value else env_value vs key

unfoldable pub find_env_value : TaskInfo → Str → Str
unfolding env_value
find_env_value t key = env_value t.command_variables key

-- `if value != "" { return value }; return fallback`
non_empty_or : Str → Str → Str
non_empty_or [] fallback = fallback
non_empty_or (c ∷ s) fallback = c ∷ s

unfoldable pub get_service_id : TaskInfo → Str
unfolding non_empty_or
get_service_id t = non_empty_or (get_label_value t service_id_label_key) t.executor_id

abbrev no_check : Check
no_check = record { type = none_type; interval = 0; timeout = 0; http_path = [] }

with_http : HealthCheck → Check → Check
with_http h c = elim h.http [
  | none ↦ c
  | some info ↦ record c { type = http_type; http_path = info.path }
]

with_tcp : HealthCheck → Check → Check
with_tcp h c = elim h.tcp [ none ↦ c | some _ ↦ record c { type = tcp_type } ]

timed_check : HealthCheck → Option ℕ → Option ℕ → Check
unfolding with_http with_tcp
timed_check h none timeout = no_check
timed_check h (some interval) none = no_check
timed_check h (some interval) (some timeout) =
    with_tcp h (with_http h (record no_check { interval = interval; timeout = timeout }))

-- GetHealthCheck
unfoldable pub get_health_check : TaskInfo → Check
unfolding timed_check
get_health_check t = elim t.health_check [
  | none ↦ no_check
  | some h ↦ timed_check h h.interval h.timeout
]
