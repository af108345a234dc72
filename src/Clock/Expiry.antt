-- ===== src/Clock/Expiry.antt =====
-- The expiry of a certificate (executor.go) by the random duration of clock.go and the range of
-- sanitizeConfig.
use mesos_executor.Common.{
  panic≢ok, ℕ, zero, suc, pos, ◌∷◌, codes, ok, err, ◌≡◌, ◌≢◌, refl, panic, ◌∙◌, ◌≤◌, ◌<◌, ◌+◌, ◌⊎◌,
  inl, inr, arith, subst, sym, ap,
}
use mesos_executor.Executor.{Platform, Config, Log, scheduled, failed_due_to_expired_certificate}
use mesos_executor.Executor.Cert.{check_cert, expired_message}
use mesos_executor.Executor.Environment.{check_cert_lem}
use mesos_executor.Executor.Sanitize.{Settings, AtLeast, sanitize_config, sanitize_config-IsSane}
use mesos_executor.Clock.{duration}

duration-returns : (intn : ℕ → ℕ) (n : ℕ) → 0 < n → duration intn (pos n) ≡ ok (intn n)
unfolding duration
duration-returns intn zero l = absurd (omega arith)
duration-returns intn (suc n) l = refl

-- When the kill of the task comes.
abbrev pub ExpiresWithin : (p : Platform) (cfg : Config) (not_after : ℕ) (log : Log) → Type 0
ExpiresWithin p cfg not_after log =
    ((not_after < p.now log + cfg.random_expiration_range)
      × (check_cert p cfg not_after log ≡ (log, err (expired_message p not_after))))
    ⊎ ((d : ℕ) × (0 < d)
        × (p.now log + d ≤ not_after)
        × (not_after < p.now log + d + cfg.random_expiration_range)
        × ((check_cert p cfg not_after log).1 ≡ ok tt)
        × ((check_cert p cfg not_after log).0
            ≡ scheduled d (failed_due_to_expired_certificate (codes "Certificate expired")) ∷ log))

module _ (p : Platform) (cfg : Config) where
  within :
      (not_after : ℕ) (log : Log)
      → p.random cfg.random_expiration_range log < cfg.random_expiration_range
      → ExpiresWithin p cfg not_after log
  within not_after log below = elim (check_cert_lem p cfg not_after log) [
    | inl late ↦ inl (ground (arith, late.0), late.1)
    | inr (d, positive, sum, answer, effect) ↦
        inr (d, positive, ground (arith, sum), ground (arith, sum), answer, effect)
  ]

  -- Where the executor runs with the range that sanitizeConfig leaves and takes its delays from
  -- Duration, over an Intn that answers below its bound: Duration does not panic whatever the
  -- configuration was. The kill of the task comes before its certificate expires and by less than
  -- the range, and a certificate is refused only if it expires within the range from now.
  pub check_cert-ExpiresWithin :
      (settings : Settings) (intn : ℕ → ℕ) (not_after : ℕ) (log : Log)
      → ((k : ℕ) → 0 < k → intn k < k)
      → (sanitize_config settings).random_expiration_range ≡ pos cfg.random_expiration_range
      → ((r : ℕ)
          → duration intn (pos cfg.random_expiration_range) ≡ ok r
          → p.random cfg.random_expiration_range log ≡ r)
      → (duration intn (sanitize_config settings).random_expiration_range ≢ panic)
        × ExpiresWithin p cfg not_after log
  check_cert-ExpiresWithin settings intn not_after log h e delay =
      let positive : 0 < cfg.random_expiration_range =
        subst (λ d. AtLeast 1 d) e (sanitize_config-IsSane settings).0.random_expiration_range in
      let returns = duration-returns intn cfg.random_expiration_range positive in
      (
        λ stuck. panic≢ok (sym stuck ∙ ap (duration intn) e ∙ returns),
        within not_after log (
            subst (λ k. k < cfg.random_expiration_range)
              (sym (delay (intn cfg.random_expiration_range) returns))
              (h cfg.random_expiration_range positive)),
      )
