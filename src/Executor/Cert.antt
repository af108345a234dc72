-- ===== src/Executor/Cert.antt =====
-- cert.go, and checkCert of executor.go.
use mesos_executor.Common.{
  ℕ, Option, none, some, List, [], ◌∷◌, ◌++◌, Str, codes, if◌then◌else◌, Result, ok, err, panic,
  has_prefix, trim_prefix, leb, ◌+◌, ◌-◌,
}
use mesos_executor.Executor.{Platform, Config, Log, scheduled, failed_due_to_expired_certificate}

module _ (p : Platform) where
  parse : Option Str → Result ℕ
  parse none = err (codes "missing certificate data")
  parse (some bytes) = elim (p.parse_certificate bytes) [
    | ok not_after ↦ ok not_after
    | err e ↦ err (codes "certificate is invalid: " ++ e)
    | panic ↦ panic
  ]

  -- GetCertFromEnvVariables: the certificate by its NotAfter time.
  unfoldable pub get_cert_from_env_variables : List Str → Result ℕ
  unfolding parse
  get_cert_from_env_variables [] = err (codes "missing certificate")
  get_cert_from_env_variables (value ∷ env) =
      if has_prefix value (codes "CERTIFICATE=")
      then parse (p.pem_decode (trim_prefix value (codes "CERTIFICATE=")))
      else get_cert_from_env_variables env

  abbrev pub expired_message : ℕ → Str
  expired_message not_after =
      codes "certificate valid period <= 0 - certificate invalid after " ++ p.format_time not_after

  -- checkCert. `certDuration` is NotAfter - now - random, and the test `certDuration <= 0` is
  -- written without negative numbers.
  unfoldable pub check_cert : Config → ℕ → Log → Log × Result (Unit {0})
  check_cert cfg not_after log =
      let used = p.now log + p.random cfg.random_expiration_range log in
      if leb not_after used then (log, err (expired_message not_after)) else (
        scheduled (not_after - used)
              (failed_due_to_expired_certificate (codes "Certificate expired"))
            ∷ log,
        ok tt,
      )
