-- ===== src/Consul/Services.antt =====
-- hook/consul/hook.go: the services of a task, with their names, ids, ports and tags.
use mesos_executor.Common.{
  split, replace_all, ℕ, Option, none, some, List, [], ◌∷◌, ◌++◌, map, Str, codes, str_eq, Bool,
  if◌then◌else◌, ◌&&◌, ◌||◌, Result, ok, panic, print_ℕ, insert,
}
use mesos_executor.Mesos.{Label, Port}
use mesos_executor.MesosUtils.{find_label}
use mesos_executor.Consul.Names.{marathon_app_name_to_service_name}

-- `instance`
pub record Instance : Type 0 where
  pub name : Str
  pub id : Str
  pub port : ℕ
  pub tags : List Str

abbrev pub consul_key : Str
consul_key = codes "consul"

abbrev pub tag_value : Str
tag_value = codes "tag"

-- port.GetLabels().GetLabels()
abbrev pub labels_of : Option (List Label) → List Label
labels_of none = []
labels_of (some ls) = ls

-- getServiceLabels, whose error is only logged.
names_of : Option Label → Option (List Str)
names_of none = none
names_of (some l) = some (split b',' l.value)

unfoldable pub get_service_labels : Port → Option (List Str)
unfolding names_of
get_service_labels port = names_of (find_label (labels_of port.labels) consul_key)

is_port_tag : List Str → Str → Str → Bool
is_port_tag (v ∷ selector ∷ more) value name = str_eq v tag_value && str_eq selector name
is_port_tag (v ∷ []) value name = str_eq value tag_value
is_port_tag [] value name = str_eq value tag_value

tags_for : Str → List Label → List Str
unfolding is_port_tag
tags_for name [] = []
tags_for name (l ∷ ls) =
    let rest = tags_for name ls in
    if is_port_tag (split b':' l.value) l.value name then l.key ∷ rest else rest

unfoldable pub get_port_tags : Port → Str → List Str
unfolding tags_for
get_port_tags port name = tags_for name (labels_of port.labels)

add_placeholder : Port → List (Str × Str) → List (Str × Str)
add_placeholder port placeholders = elim port.name [
  | [] ↦ placeholders
  | c ∷ s ↦ insert (codes "{port:" ++ port.name ++ codes "}") (print_ℕ port.number) placeholders
]

placeholders_from : List (Str × Str) → List Port → List (Str × Str)
unfolding add_placeholder
placeholders_from placeholders [] = placeholders
placeholders_from placeholders (p ∷ ps) = placeholders_from (add_placeholder p placeholders) ps

unfoldable pub get_placeholders : List Port → List (Str × Str)
unfolding placeholders_from
get_placeholders ports = placeholders_from [] ports

resolve : List (Str × Str) → Str → Str
resolve [] value = value
resolve ((placeholder, replacement) ∷ rest) value =
    resolve rest (replace_all value placeholder replacement)

unfoldable pub resolve_placeholders : List Str → List (Str × Str) → List Str
unfolding resolve
resolve_placeholders values placeholders = map (λ value. resolve placeholders value) values

abbrev pub service_id : Str → Str → ℕ → Str
service_id task_id name port = task_id ++ (codes "_" ++ (name ++ (codes "_" ++ print_ℕ port)))

abbrev pub marathon_task_tag : Str → Str
marathon_task_tag task_id = codes "marathon-task:" ++ task_id

abbrev pub port_instance : Str → List Str → Port → Str → Instance
port_instance task_id global_tags port name = record {
  name = name;
  id = service_id task_id name port.number;
  port = port.number;
  tags = get_port_tags port name ++ (global_tags ++ marathon_task_tag task_id ∷ []);
}

abbrev pub instances_of_names : Str → List Str → Port → Option (List Str) → List Instance
instances_of_names task_id global_tags port none = []
instances_of_names task_id global_tags port (some names) =
    map (λ name. port_instance task_id global_tags port name) names

-- The loop over the ports.
unfoldable pub port_instances : Str → List Str → List Port → List Instance
port_instances task_id global_tags [] = []
port_instances task_id global_tags (p ∷ ps) =
    instances_of_names task_id global_tags p (get_service_labels p)
    ++ port_instances task_id global_tags ps

-- `ports[0]` is read where no port has a service label.
unfoldable pub instances_or_default :
    List Instance → Str → Str → List Str → List Port → Result (List Instance)
instances_or_default (i ∷ is) name task_id global_tags ports = ok (i ∷ is)
instances_or_default [] name task_id global_tags [] = panic
instances_or_default [] name task_id global_tags (p ∷ ps) = ok (
    record {
      name = name;
      id = service_id task_id name p.number;
      port = p.number;
      tags = global_tags;
    }
    ∷ [])

-- The name where the label gives none.
unfoldable pub service_name : Str → Str → Str
service_name name task_id =
    if str_eq name (codes "true") || str_eq name []
    then marathon_app_name_to_service_name task_id
    else name
