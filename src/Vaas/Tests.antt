-- ===== src/Vaas/Tests.antt =====
-- The VaaS hook against an API that accepts everything.
use mesos_executor.Common.{
  ℤ, pos, Option, none, some, [], ◌∷◌, Str, codes, str_eq, ok, ◌≡◌, ◌≢◌, refl,
}
use mesos_executor.Mesos.{Label, TaskInfo}
use mesos_executor.MesosUtils.{get_label_value, find_label, get_first_port_with_label}
use mesos_executor.Vaas.{request_backend, choose_port, State, director_key, register_backend}
use mesos_executor.Vaas.Client.{
  get_dc, do_request, decoded, perform, checked, dc_named, find_director_id, director_named,
  add_backend, Api, Response, Backend, Dc, answered, read, new_request,
}
use mesos_executor.Vaas.Registration.{Requested, register_backend-Requested}
use mesos_executor.Runenv.{get_env_var_if_set}
use mesos_executor.Samples.{web, admin_port}

abbrev dc1 : Dc
dc1 = record { id = pos 1; name = codes "First"; resource_uri = []; symbol = codes "dc1" }

abbrev accepted : Response
accepted = record { status_code = 202; body = read []; location = [] }

abbrev api : Api
api = record {
  host = codes "http://vaas";
  username = codes "user";
  api_key = codes "key";
  http = λ sent r. answered accepted;
  bad_url = λ url. none;
  url_path = λ url. url;
  marshal = λ b. ok b.address;
  marshal_nil = ok (codes "null");
  directors = λ raw. ok (record { id = pos 7; name = codes "shop" } ∷ []);
  dcs = λ raw. ok (dc1 ∷ []);
  backend = λ raw b. ok (record b { id = some (pos 42) });
}

abbrev parsed_ip : Str → Option Str
parsed_ip s = some s

abbrev environ : Str → Str
environ name = codes "dc1"

abbrev director_label : Label
director_label = record { key = codes "director"; value = codes "shop" }

abbrev canary_label : Label
canary_label = record { key = codes "canary"; value = codes "yes" }

abbrev weight_label : Label
weight_label = record { key = codes "weight:20"; value = codes "tag" }

abbrev sync_label : Label
sync_label = record { key = codes "frontend-sync:shop"; value = codes "true" }

-- Its second port has the director's label.
abbrev shop : TaskInfo
shop = record web {
  labels = director_label ∷ canary_label ∷ weight_label ∷ [];
  ports =
      admin_port
      ∷ record { number = 31002; name = codes "sync"; labels = some (sync_label ∷ []) }
      ∷ [];
}

abbrev fresh : State
fresh = record { backend_id = none; requests = [] }

shop_has_director : get_label_value shop director_key ≢ []
unfolding get_label_value find_label str_eq
shop_has_director h = cc

shop_registers : (register_backend api parsed_ip environ shop fresh).1 ≡ ok []
unfolding register_backend get_label_value find_label str_eq request_backend get_env_var_if_set
    get_dc new_request do_request decoded perform checked dc_named find_director_id director_named
    choose_port get_first_port_with_label add_backend
shop_registers = refl

register_backend-Requested_example :
    (created : Backend) × (id : ℤ) × (created.id ≡ some id)
    × ((register_backend api parsed_ip environ shop fresh).0.backend_id ≡ some id)
    × Requested api parsed_ip environ shop
        (get_label_value shop director_key)
        []
        (register_backend api parsed_ip environ shop fresh).0.requests
        created
register_backend-Requested_example =
    register_backend-Requested api parsed_ip environ shop fresh shop_has_director shop_registers
