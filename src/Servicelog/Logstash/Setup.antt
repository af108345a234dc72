-- ===== src/Servicelog/Logstash/Setup.antt =====
-- How servicelog/appender/logstash.go makes the appender: LogstashAppenderFromEnv, NewLogstash with
-- its options, and NewConsulLogstashWriter. envconfig, net.Dial and the Consul client are parameters.
mod Tests
use mathlib.Core.List.{append-nil}
use mesos_executor.Common.{
  wrap_err, failing, ℕ, ℤ, pos, negsuc, Option, none, some, List, [], ◌∷◌, ◌++◌, Str, codes, str_eq,
  Bool, true, false, if◌then◌else◌, ltb, Result, ok, err, panic, ◌>>=◌, ◌>>◌, Bool-cases, inl, inr,
  ◌≡◌, ◌≢◌, refl, sym, subst, ap, ◌∙◌, arith,
}
use mesos_executor.Xio.{Writer, decorate_writer, rate_limit, size_limit}
use mesos_executor.Servicelog.Logstash.{
  Sink, Config, limit_of, with_rate, with_size, base_writer, allow, writer,
}

-- The part of net.Dialer that the program sets.
pub record Dialer : Type 0 where
  pub keep_alive : ℕ
  pub timeout : ℕ

-- `net.Dialer{}`
abbrev pub empty_dialer : Dialer
empty_dialer = record { keep_alive = 0; timeout = 0 }

pub data ChosenSender : Type 0 where
  udp : ChosenSender
  tcp : Dialer → ChosenSender

-- The writer below the limits: a connection, or the round robin over a service's instances.
pub data BaseWriter : Type 0 where
  dialled : Str → Str → BaseWriter
  round_robin : Str → ℕ → ChosenSender → BaseWriter

-- logstashConfig
pub record Settings : Type 0 where
  pub protocol : Str
  pub address : Str
  pub discovery_refresh_interval : ℕ
  pub discovery_service_name : Str
  pub rate_limit : ℤ
  pub size_limit : ℤ
  pub tcp_keep_alive : ℕ
  pub tcp_timeout : ℕ

-- What envconfig.Process reads, and the errors of api.NewClient and net.Dial, or none.
pub record Libraries : Type 0 where
  pub process : Result Settings
  pub new_client : Option Str
  pub dial : Str → Str → Option Str

pub data Limit : Type 0 where
  rate size : ℕ → Limit

-- An appender by its writer: the decorators in the order in which they were put around it.
pub record Made : Type 0 where
  pub base : BaseWriter
  pub limits : List Limit

-- `if dialer != nil { dialer = &net.Dialer{} }`, and then `*dialer`.
unfoldable pub tcp_dialer : Option Dialer → Result Dialer
tcp_dialer none = panic
tcp_dialer (some dialer) = ok empty_dialer

unfoldable pub choose_sender : Str → Option Dialer → Result ChosenSender
unfolding tcp_dialer
choose_sender protocol dialer =
    if str_eq protocol (codes "udp") then ok udp else (tcp_dialer dialer >>= λ d. ok (tcp d))

unfoldable pub new_consul_logstash_writer :
    Option Str → Str → Str → ℕ → Option Dialer → Result BaseWriter
unfolding choose_sender
new_consul_logstash_writer new_client protocol service_name refresh_interval dialer = do
  wrap_err (codes "unable to create Consul client: ") (failing new_client)
  sender ← choose_sender protocol dialer
  ok (round_robin service_name refresh_interval sender)

abbrev pub AppenderOption : Type 0
AppenderOption = Made → Result Made

abbrev pub logstash_limit : Limit → AppenderOption
logstash_limit limit a = ok (record a { limits = a.limits ++ limit ∷ [] })

apply_options : List AppenderOption → Made → Result Made
apply_options [] a = ok a
apply_options (option ∷ options) a = do
  a' ← wrap_err (codes "invalid config option: ") (option a)
  apply_options options a'

unfoldable pub new_logstash_with : BaseWriter → List AppenderOption → Result Made
unfolding apply_options
new_logstash_with base options = apply_options options (record { base = base; limits = [] })

option_for : (ℕ → Limit) → Option ℕ → List AppenderOption
option_for limit none = []
option_for limit (some n) = logstash_limit (limit n) ∷ []

module _ (l : Libraries) where
  -- net.Dial, or the writer that discovers its instances.
  base_writer_for : Settings → Result BaseWriter
  unfolding new_consul_logstash_writer
  base_writer_for s = elim s.discovery_service_name [
    | [] ↦ (failing (l.dial s.protocol s.address) >>= λ _. ok (dialled s.protocol s.address))
    | c ∷ name ↦
        new_consul_logstash_writer l.new_client s.protocol (c ∷ name) s.discovery_refresh_interval
          (some (record { keep_alive = s.tcp_keep_alive; timeout = s.tcp_timeout }))
  ]

  unfoldable pub logstash_appender_from_env : Result Made
  unfolding base_writer_for option_for new_logstash_with
  logstash_appender_from_env = do
    s ← wrap_err (codes "unable to get config from env: ") l.process
    base ← wrap_err (codes "invalid logstash connection data: ") (base_writer_for s)
    new_logstash_with base
        (option_for rate (limit_of s.rate_limit) ++ option_for size (limit_of s.size_limit))

-- The decorators as the writers of xio, put around a writer one after the other.
abbrev pub limited : Config → List Limit → Writer Sink → Writer Sink
limited c [] next = next
limited c (rate n ∷ limits) next =
    limited c limits (decorate_writer next (rate_limit (allow c) ∷ []))
limited c (size n ∷ limits) next = limited c limits (decorate_writer next (size_limit n ∷ []))

options-limited :
    (c : Config) (base : BaseWriter) (rate_of size_of : Option ℕ)
    → (a : Made) × (new_logstash_with base (option_for rate rate_of ++ option_for size size_of)
        ≡ ok a)
      × (a.base ≡ base)
      × (limited c a.limits (base_writer c)
          ≡ with_size size_of (with_rate (allow c) rate_of (base_writer c)))
unfolding new_logstash_with option_for with_size with_rate
options-limited c base none none = (_, refl, refl, refl)
options-limited c base none (some m) = (_, refl, refl, refl)
options-limited c base (some n) none = (_, refl, refl, refl)
options-limited c base (some n) (some m) = (_, refl, refl, refl)

-- The connection that is made for a configuration, if there is no error.
abbrev pub HasBase : Settings → BaseWriter → Type 0
HasBase s base = elim s.discovery_service_name [
  | [] ↦ base ≡ dialled s.protocol s.address
  | c ∷ name ↦
      base
      ≡ round_robin (c ∷ name) s.discovery_refresh_interval
          (if str_eq s.protocol (codes "udp") then udp else tcp empty_dialer)
]

module _ (l : Libraries) (s : Settings) where
  direct-HasBase :
      l.dial s.protocol s.address ≡ none
      → s.discovery_service_name ≡ []
      → (base : BaseWriter) × (base_writer_for l s ≡ ok base) × HasBase s base
  unfolding base_writer_for
  direct-HasBase d e = (dialled s.protocol s.address, rw (e, base_writer_for, d) refl, rw e refl)

  discovered-HasBase :
      (c : ℕ) (name : Str)
      → l.new_client ≡ none
      → s.discovery_service_name ≡ c ∷ name
      → (base : BaseWriter) × (base_writer_for l s ≡ ok base) × HasBase s base
  unfolding base_writer_for new_consul_logstash_writer choose_sender tcp_dialer
  discovered-HasBase c name n e = elim (Bool-cases (str_eq s.protocol (codes "udp"))) [
    | inl u ↦ (
      round_robin (c ∷ name) s.discovery_refresh_interval udp,
      rw (e, base_writer_for, n, u) refl,
      rw (e, u) refl,
    )
    | inr t ↦ (
      round_robin (c ∷ name) s.discovery_refresh_interval (tcp empty_dialer),
      rw (e, base_writer_for, n, t) refl,
      rw (e, t) refl,
    )
  ]

  base_writer_for-HasBase :
      l.new_client ≡ none
      → l.dial s.protocol s.address ≡ none
      → (name : Str) → s.discovery_service_name ≡ name
      → (base : BaseWriter) × (base_writer_for l s ≡ ok base) × HasBase s base
  base_writer_for-HasBase n d [] e = direct-HasBase d e
  base_writer_for-HasBase n d (c ∷ name) e = discovered-HasBase c name n e

  from_env-steps :
      (base : BaseWriter) (a : Made)
      → l.process ≡ ok s
      → base_writer_for l s ≡ ok base
      → new_logstash_with base
          (option_for rate (limit_of s.rate_limit) ++ option_for size (limit_of s.size_limit))
        ≡ ok a
      → logstash_appender_from_env l ≡ ok a
  unfolding logstash_appender_from_env
  from_env-steps base a p b made = simp (p, b) made

  -- Without an error of the libraries the appender is made, and its writer, decorator by decorator,
  -- is the one of the configured limits. Without a service it writes to the one connection; with
  -- one, round robin, over UDP or else TCP, and there with an empty dialer: the keep-alive and the
  -- timeout of the configuration are not used.
  pub logstash_appender_from_env-made :
      (c : Config)
      → l.process ≡ ok s
      → l.new_client ≡ none
      → l.dial s.protocol s.address ≡ none
      → c.rate_limit ≡ s.rate_limit
      → c.size_limit ≡ s.size_limit
      → (a : Made) × (logstash_appender_from_env l ≡ ok a)
        × HasBase s a.base
        × (limited c a.limits (base_writer c) ≡ writer c)
  unfolding logstash_appender_from_env writer
  logstash_appender_from_env-made c p n d same_rate same_size =
      let (base, b, h) = base_writer_for-HasBase n d s.discovery_service_name refl in
      let (a, made, kept, w) =
        options-limited c base (limit_of s.rate_limit) (limit_of s.size_limit) in
      (
        a,
        from_env-steps base a p b made,
        subst (HasBase s) (sym kept) h,
        w
            ∙ ap
                (λ r.
                  with_size (limit_of s.size_limit)
                    (with_rate (allow c) (limit_of r) (base_writer c)))
                (sym same_rate)
            ∙ ap
                (λ z.
                  with_size (limit_of z)
                    (with_rate (allow c) (limit_of c.rate_limit) (base_writer c)))
                (sym same_size),
      )
