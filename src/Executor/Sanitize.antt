-- ===== src/Executor/Sanitize.antt =====
-- executor.go: the defaults of sanitizeConfig. A duration is a number of nanoseconds.
use mesos_executor.Common.{
  ℕ, ℤ, pos, negsuc, Str, [], ◌∷◌, codes, if◌then◌else◌, ltb, ◌≡◌, refl, ◌≤◌, ◌≢◌, arith,
  Bool-cases, inl, inr,
}

-- The fields of Config and of its MesosConfig that sanitizeConfig reads.
pub record Settings : Type 0 where
  pub random_expiration_range : ℤ
  pub api_path : Str
  pub http_timeout : ℤ
  pub recovery_timeout : ℤ
  pub subscription_backoff_max : ℤ

abbrev pub second : ℕ
second = 1000000000

-- `if d < least { d = value }`
unfoldable raised : ℕ → ℕ → ℤ → ℤ
raised least value (pos n) = if ltb n least then pos value else pos n
raised least value (negsuc n) = pos value

unfoldable path_or_default : Str → Str
path_or_default [] = codes "/api/v1/executor"
path_or_default (c ∷ s) = c ∷ s

-- sanitizeConfig: `d <= 0` is `d < 1`.
unfoldable pub sanitize_config : Settings → Settings
unfolding raised path_or_default
sanitize_config c = record {
  random_expiration_range = raised 1 10800000000000 c.random_expiration_range;
  api_path = path_or_default c.api_path;
  http_timeout = raised 1 10000000000 c.http_timeout;
  recovery_timeout = raised 1 second c.recovery_timeout;
  subscription_backoff_max = raised second second c.subscription_backoff_max;
}

abbrev pub AtLeast : ℕ → ℤ → Type 0
AtLeast least (pos n) = least ≤ n
AtLeast least (negsuc n) = ⊥

pub record IsSane (c : Settings) : Type 0 where
  pub random_expiration_range : AtLeast 1 c.random_expiration_range
  pub api_path : c.api_path ≢ []
  pub http_timeout : AtLeast 1 c.http_timeout
  pub recovery_timeout : AtLeast 1 c.recovery_timeout
  pub subscription_backoff_max : AtLeast second c.subscription_backoff_max

raised-AtLeast : (least value : ℕ) (d : ℤ) → least ≤ value → AtLeast least (raised least value d)
unfolding raised
raised-AtLeast least value (negsuc n) h = h
raised-AtLeast least value (pos n) h = elim (Bool-cases (ltb n least)) [
  | inl low ↦ rw low h
  | inr fine ↦ rw fine (ground arith)
]

path_or_default-same : (path : Str) → path ≢ [] → path_or_default path ≡ path
unfolding path_or_default
path_or_default-same [] h = absurd (h refl)
path_or_default-same (c ∷ s) h = refl

path_or_default-non_empty : (path : Str) → path_or_default path ≢ []
unfolding path_or_default
path_or_default-non_empty [] e = absurd (ground arith)
path_or_default-non_empty (c ∷ s) e = absurd (ground arith)

raised-same : (least value : ℕ) (d : ℤ) → AtLeast least d → raised least value d ≡ d
unfolding raised
raised-same least value (pos n) h = ground arith
raised-same least value (negsuc n) h = absurd h

-- Whatever the configuration, sanitizeConfig gives one whose path is not empty, whose expiration
-- range, HTTP timeout and recovery timeout are positive and whose backoff is at least a second, and
-- it leaves a configuration that already is like that as it is.
pub sanitize_config-IsSane :
    (c : Settings) → IsSane (sanitize_config c) × (IsSane c → sanitize_config c ≡ c)
unfolding sanitize_config
sanitize_config-IsSane c = (
  record {
    random_expiration_range =
        raised-AtLeast 1 10800000000000 c.random_expiration_range (omega arith);
    api_path = path_or_default-non_empty c.api_path;
    http_timeout = raised-AtLeast 1 10000000000 c.http_timeout (omega arith);
    recovery_timeout = raised-AtLeast 1 second c.recovery_timeout (omega arith);
    subscription_backoff_max =
        raised-AtLeast second second c.subscription_backoff_max (omega arith);
  },
  λ h.
      rw
        (
          raised-same 1 10800000000000 c.random_expiration_range h.random_expiration_range,
          path_or_default-same c.api_path h.api_path,
          raised-same 1 10000000000 c.http_timeout h.http_timeout,
          raised-same 1 second c.recovery_timeout h.recovery_timeout,
          raised-same second second c.subscription_backoff_max h.subscription_backoff_max,
        )
        refl,
)
