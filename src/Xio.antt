-- ===== src/Xio.antt =====
-- xio/decorator.go: decorators of a writer. A writer works on a state `W`, which stands for all
-- that a call can change.
use mesos_executor.Common.{ℕ, Option, some, List, [], ◌∷◌, Str, Bool, if◌then◌else◌, ltb, length}

-- ErrRateLimitExceeded, ErrSizeLimitExceeded, or the error of the writer that is decorated: a
-- timeout of the network or another one.
pub data WriteError : Type 0 where
  rate_limit_exceeded size_limit_exceeded timeout : WriteError
  other : Str → WriteError

-- The number of bytes written, and the error or none.
pub record Written : Type 0 where
  pub bytes : ℕ
  pub error : Option WriteError

abbrev pub Writer : Type 0 → Type 0
Writer W = Str → W → W × Written

abbrev pub Decorator : Type 0 → Type 0
Decorator W = Writer W → Writer W

unfoldable pub decorate_writer : {W : Type 0} → Writer W → List (Decorator W) → Writer W
decorate_writer writer [] = writer
decorate_writer writer (decorator ∷ decorators) = decorate_writer (decorator writer) decorators

abbrev refused : WriteError → Written
refused e = record { bytes = 0; error = some e }

-- `allow` is Limiter.Allow of golang.org/x/time/rate.
unfoldable pub rate_limit : {W : Type 0} → (W → W × Bool) → Decorator W
rate_limit allow writer p w =
    let (w', allowed) = allow w in
    if allowed then writer p w' else (w', refused rate_limit_exceeded)

unfoldable pub size_limit : {W : Type 0} → ℕ → Decorator W
size_limit size writer p w =
    if ltb size (length p) then (w, refused size_limit_exceeded) else writer p w
