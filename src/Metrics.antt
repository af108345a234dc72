-- ===== src/Metrics.antt =====
-- metrics/graphite.go: where the counters are sent, and under which prefix. envconfig and the
-- resolution of an address are parameters; graphite.Graphite and metrics.Log are libraries.
pub mod Prefix
mod Tests
use mesos_executor.Common.{
  wrap_err, ℕ, Option, none, some, List, [], ◌∷◌, ◌++◌, Str, codes, replace_all, print_ℤ, ℤ, Result,
  ok, err, panic, ◌>>=◌,
}
use mesos_executor.Runenv.{Getenv, hostname}

pub record GraphiteConfig : Type 0 where
  pub host : Str
  pub port : ℤ
  pub prefix : Str

-- What Init sets up: reports to a Graphite server, by address and prefix, or on stderr.
pub data Reporter : Type 0 where
  graphite : Str → Str → Reporter
  stderr : Reporter

-- strings.Replace(value, ".", "_", -1)
unfoldable pub normalize_value : Str → Str
normalize_value value = replace_all value (codes ".") (codes "_")

dotted : Str → Str → Str → Result Str
unfolding normalize_value
dotted base_prefix metrics_id host =
    ok (base_prefix ++ b'.' ∷ (normalize_value host ++ b'.' ∷ normalize_value metrics_id))

-- An error of it ends the program.
unfoldable pub build_unique_prefix : Getenv → Result Str → Str → Str → Result Str
unfolding dotted
build_unique_prefix getenv os_hostname metrics_id base_prefix =
    wrap_err (codes "Unable to get hostname for metrics key: ") (hostname getenv os_hostname)
    >>= dotted base_prefix metrics_id

-- `resolve` is the error of net.ResolveTCPAddr, or none.
unfoldable pub setup_graphite :
    (Str → Option Str) → Getenv → Result Str → Str → GraphiteConfig → Result Reporter
setup_graphite resolve getenv os_hostname metrics_id cfg =
    let addr = cfg.host ++ b':' ∷ print_ℤ cfg.port in
    elim (resolve addr) [
      | some e ↦ err (codes "invalid Graphite address: " ++ e)
      | none ↦
          (build_unique_prefix getenv os_hostname metrics_id cfg.prefix >>= λ prefix.
          ok (graphite addr prefix))
    ]

setup_reporter :
    (Str → Option Str) → Getenv → Result Str → Str → GraphiteConfig → Str → Result Reporter
unfolding setup_graphite
setup_reporter resolve getenv os_hostname metrics_id cfg [] = ok stderr
setup_reporter resolve getenv os_hostname metrics_id cfg (c ∷ host) =
    setup_graphite resolve getenv os_hostname metrics_id cfg

-- Init, whose errors end the program; `config` is what envconfig.Process reads.
unfoldable pub init :
    Result GraphiteConfig → (Str → Option Str) → Getenv → Result Str → Str → Result Reporter
unfolding setup_reporter
init config resolve getenv os_hostname id = do
  cfg ← config
  setup_reporter resolve getenv os_hostname id cfg cfg.host
