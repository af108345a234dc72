-- ===== src/Metrics/Tests.antt =====
-- A Graphite prefix.
use mesos_executor.Common.{[], ◌∷◌, ◌++◌, Str, codes, split, ok, ◌≡◌, refl}
use mesos_executor.Runenv.{Getenv, hostname}
use mesos_executor.Metrics.{normalize_value, build_unique_prefix}
use mesos_executor.Metrics.Prefix.{build_unique_prefix-split}

abbrev unset : Getenv
unset name = codes ""

abbrev host : Str
host = codes "node-1.dc.net"

host_known : hostname unset (ok host) ≡ ok host
unfolding hostname
host_known = refl

abbrev id : Str
id = codes "web.42"

abbrev base : Str
base = codes "allegro.executor"

build_unique_prefix-split_example :
    (prefix : Str) × (build_unique_prefix unset (ok host) id base ≡ ok prefix)
    × (split b'.' prefix ≡ split b'.' base ++ normalize_value host ∷ normalize_value id ∷ [])
build_unique_prefix-split_example =
    build_unique_prefix-split unset (ok host) id base host host_known
