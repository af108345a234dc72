-- ===== src/Common/Effect.antt =====
-- Fallible steps on a state `W`: what a step does to the state is kept on an error too.
use mathlib.Core.Path.{◌≡◌, refl}
use mesos_executor.Common.Errors.{Result, ok, err, panic}

abbrev pub Step : Type 0 → Type 0 → Type 0
Step W A = W → W × Result A

-- What follows a step, by what the step returned.
abbrev pub proceed : {W A B : Type 0} → W → Result A → (A → Step W B) → W × Result B
proceed w (ok a) next = next a w
proceed w (err e) next = (w, err e)
proceed w panic next = (w, panic)

infixl 5 ◌>>=◌ ◌>>◌
abbrev pub ◌>>=◌ : {W A B : Type 0} → Step W A → (A → Step W B) → Step W B
step >>= next = λ w. proceed (step w).0 (step w).1 next

abbrev pub ◌>>◌ : {W A B : Type 0} → Step W A → Step W B → Step W B
first >> second = first >>= λ _. second

abbrev pub lift : {W A : Type 0} → Result A → Step W A
lift r w = (w, r)

-- A sequence that succeeds went through a first step that succeeded.
proceed-eq_ok :
    {W A B : Type 0} (w : W) (r : Result A) (next : A → Step W B) {b : B}
    → (proceed w r next).1 ≡ ok b
    → (a : A) × (r ≡ ok a) × ((next a w).1 ≡ ok b) × ((proceed w r next).0 ≡ (next a w).0)
proceed-eq_ok w (ok a) next h = (a, refl, h, refl)
proceed-eq_ok w (err e) next h = cc
proceed-eq_ok w panic next h = cc

pub >>=-eq_ok :
    {W A B : Type 0} (step : Step W A) (next : A → Step W B) (w : W) {b : B}
    → ((step >>= next) w).1 ≡ ok b
    → (a : A) × ((step w).1 ≡ ok a)
      × ((next a (step w).0).1 ≡ ok b)
      × (((step >>= next) w).0 ≡ (next a (step w).0).0)
>>=-eq_ok step next w h = proceed-eq_ok (step w).0 (step w).1 next h
