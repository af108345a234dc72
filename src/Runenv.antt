-- ===== src/Runenv.antt =====
-- runenv: what the executor reads of its environment. `getenv` is os.Getenv, which gives the empty
-- text for a variable that is not set; the answers of the system are parameters.
pub mod Hosts
use mesos_executor.Common.{
  trim_space, Option, none, some, [], ◌∷◌, ◌++◌, Str, codes, if◌then◌else◌, Result, ok, err, panic,
  has_prefix,
}

abbrev pub Getenv : Type 0
Getenv = Str → Str

or_unset : Str → Str → Result Str
or_unset name [] = err (codes "no " ++ name ++ codes " environment variable set")
or_unset name (c ∷ value) = ok (c ∷ value)

-- getEnvVarIfSet
unfoldable pub get_env_var_if_set : Getenv → Str → Result Str
unfolding or_unset
get_env_var_if_set getenv name = or_unset name (getenv name)

abbrev pub availability_zone : Getenv → Result Str
availability_zone getenv = get_env_var_if_set getenv (codes "CLOUD_AVAILABILITY_ZONE")

abbrev pub datacenter : Getenv → Result Str
datacenter getenv = get_env_var_if_set getenv (codes "CLOUD_DC")

abbrev pub region : Getenv → Result Str
region getenv = get_env_var_if_set getenv (codes "CLOUD_REGION")

abbrev pub marathon_app_id : Getenv → Result Str
marathon_app_id getenv = get_env_var_if_set getenv (codes "MARATHON_APP_ID")

abbrev pub task_id : Getenv → Result Str
task_id getenv = get_env_var_if_set getenv (codes "MESOS_TASK_ID")

abbrev pub executor_id : Getenv → Result Str
executor_id getenv = get_env_var_if_set getenv (codes "MESOS_EXECUTOR_ID")

abbrev pub mesos_agent_endpoint : Getenv → Result Str
mesos_agent_endpoint getenv = get_env_var_if_set getenv (codes "MESOS_AGENT_ENDPOINT")

or_next : Str → Result Str → Result Str
or_next [] next = next
or_next (c ∷ value) next = ok (c ∷ value)

-- `os_hostname` is what getOsHostname returns.
unfoldable pub hostname : Getenv → Result Str → Result Str
unfolding or_next
hostname getenv os_hostname =
    or_next (getenv (codes "MESOS_HOSTNAME"))
      (or_next (getenv (codes "CLOUD_HOSTNAME")) os_hostname)

-- `parse_ip` is net.ParseIP, an address by its text.
unfoldable pub ip : (Str → Option Str) → Getenv → Option Str
ip parse_ip getenv = parse_ip (getenv (codes "CLOUD_PUBLIC_IP"))

-- `String` of an address, which is nil where it could not be parsed.
unfoldable pub ip_text : Option Str → Str
ip_text none = codes "<nil>"
ip_text (some text) = text

pub data Env : Type 0 where
  local_env dev_env test_env prod_env : Env

-- `-(prod|test|dev)\.` at the start of a text.
unfoldable pub env_here : Str → Option Env
env_here s =
    if has_prefix s (codes "-prod.")
    then some prod_env
    else if has_prefix s (codes "-test.")
    then some test_env
    else if has_prefix s (codes "-dev.")
    then some dev_env
    else none

unfoldable pub or_here : Option Env → Option Env → Option Env
or_here (some e) here = some e
or_here none here = here

-- The submatch of `.*-(prod|test|dev)\..*`, for a host name of one line: `.*` takes as much as it
-- can, so the last place counts.
unfoldable pub find_env : Str → Option Env
unfolding env_here or_here
find_env [] = none
find_env (c ∷ s) = or_here (find_env s) (env_here (c ∷ s))

unfoldable pub env_or_default : Option Env → Env
env_or_default none = local_env
env_or_default (some e) = e

-- Environment: the default on a host name without one, and an error without a host name.
unfoldable pub environment : Getenv → Result Str → Result Env
unfolding env_or_default
environment getenv os_hostname = elim (hostname getenv os_hostname) [
  | ok name ↦ ok (env_or_default (find_env name))
  | err e ↦ err e
  | panic ↦ panic
]

os_hostname_of : Result Str → Str → Result Str
os_hostname_of os [] = os
os_hostname_of os (c ∷ fqdn) = ok (trim_space (c ∷ fqdn))

-- OsHostname on Unix: the first answer is that of `hostname -f`, the second that of os.Hostname.
unfoldable pub os_hostname : Result Str → Result Str → Result Str
unfolding os_hostname_of
os_hostname (ok fqdn) os = os_hostname_of os fqdn
os_hostname (err e) os = os
os_hostname panic os = panic
