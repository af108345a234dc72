-- ===== src/Common/Errors.antt =====
-- What a Go function returns: a value with a nil error, an error (by its message), or a panic.
use mathlib.Core.Path.{◌≡◌, refl}
use mathlib.Core.List.{◌++◌}
use mathlib.Core.Option.{Option, none, some}
use mesos_executor.Common.Text.{Str}

infixl 5 ◌>>=◌ ◌>>◌
-- A panic unwinds its callers; none of them recovers.
pub data Result {ℓ} (A : Type ℓ) : Type ℓ where
  ok : A → Result A
  err : Str → Result A
  panic : Result A

abbrev pub ◌>>=◌ {ℓ κ} : {A : Type ℓ} {B : Type κ} → Result A → (A → Result B) → Result B
panic >>= next = panic
err message >>= next = err message
ok value >>= next = next value

abbrev pub ◌>>◌ {ℓ κ} : {A : Type ℓ} {B : Type κ} → Result A → Result B → Result B
first >> second = first >>= λ _. second

-- `fmt.Errorf(prefix + "%s", err)` on the error path.
abbrev pub wrap_err {ℓ} : {A : Type ℓ} → Str → Result A → Result A
wrap_err prefix (ok a) = ok a
wrap_err prefix (err e) = err (prefix ++ e)
wrap_err prefix panic = panic

-- A call that returns an error alone, by the error, or none.
abbrev pub failing : Option Str → Result (Unit {0})
failing none = ok tt
failing (some e) = err e

-- To split on what was returned and keep the equation.
pub data Returned {ℓ} {A : Type ℓ} (r : Result A) : Type ℓ where
  was_ok : (a : A) → r ≡ ok a → Returned r
  was_err : (e : Str) → r ≡ err e → Returned r
  was_panic : r ≡ panic → Returned r

pub Result-cases {ℓ} : {A : Type ℓ} (r : Result A) → Returned r
Result-cases (ok a) = was_ok a refl
Result-cases (err e) = was_err e refl
Result-cases panic = was_panic refl

pub ok_inj {ℓ} : {A : Type ℓ} {a b : A} → ok a ≡ ok b → a ≡ b
ok_inj h = cc

pub err≢ok {ℓ} : {A : Type ℓ} {e : Str} {a : A} → err e ≡ ok a → ⊥
err≢ok h = cc

pub panic≢ok {ℓ} : {A : Type ℓ} {a : A} → panic ≡ ok a → ⊥
panic≢ok h = cc

pub >>=-eq_ok {ℓ κ} :
    {A : Type ℓ} {B : Type κ} (first : Result A) (next : A → Result B) {b : B}
    → (first >>= next) ≡ ok b
    → (a : A) × (first ≡ ok a) × (next a ≡ ok b)
>>=-eq_ok panic next h = cc
>>=-eq_ok (err message) next h = cc
>>=-eq_ok (ok value) next h = (value, refl, h)
