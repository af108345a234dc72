-- ===== src/Clock.antt =====
-- clock.go: the random duration that checkCert takes off the validity of a certificate. Until only
-- hands on to time.Until.
pub mod Expiry
mod Tests
use mesos_executor.Common.{ℕ, zero, suc, ℤ, pos, negsuc, Result, ok, panic}

-- mathRandom.Duration. `intn` is Intn of math/rand, which panics where its bound is not positive.
unfoldable pub duration : (ℕ → ℕ) → ℤ → Result ℕ
duration intn (pos zero) = panic
duration intn (pos (suc n)) = ok (intn (suc n))
duration intn (negsuc n) = panic
