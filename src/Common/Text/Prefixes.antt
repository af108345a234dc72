-- ===== src/Common/Text/Prefixes.antt =====
-- strings.HasPrefix and strings.TrimPrefix, by what a text is made of.
use mathlib.Core.Path.{◌≡◌, refl, sym, ap, ◌∙◌}
use mathlib.Core.Logic.{◌≢◌, ◌⊎◌, inl, inr}
use mathlib.Core.Bool.{true, false}
use mathlib.Core.List.{[], ◌∷◌, ◌++◌}
use native.Mathlib.Omega.{arith}
use mesos_executor.Common.Tests.{Bool-cases}
use mesos_executor.Common.Text.{Str, has_prefix, drop_prefix, trim_prefix}

pub has_prefix-eq : (s p : Str) → has_prefix s p ≡ true → (r : Str) × (s ≡ p ++ r)
unfolding has_prefix
has_prefix-eq s [] h = (s, refl)
has_prefix-eq [] (b ∷ p) h = cc
has_prefix-eq (a ∷ s) (b ∷ p) h =
    let (r, e) = has_prefix-eq s p (ground arith) in (r, ground (arith, e))

pub has_prefix-append : (p r : Str) → has_prefix (p ++ r) p ≡ true
unfolding has_prefix
has_prefix-append [] r = refl
has_prefix-append (b ∷ p) r = ground (arith, has_prefix-append p r)

drop_prefix-append : (p r : Str) → drop_prefix (p ++ r) p ≡ r
unfolding drop_prefix
drop_prefix-append [] r = refl
drop_prefix-append (b ∷ p) r = drop_prefix-append p r

-- TrimPrefix takes the prefix away where the text has it, and only there.
pub trim_prefix-cases :
    (s p : Str)
    → ((r : Str) × (s ≡ p ++ r) × (trim_prefix s p ≡ r))
      ⊎ (((r : Str) → s ≢ p ++ r) × (trim_prefix s p ≡ s))
unfolding trim_prefix
trim_prefix-cases s p = elim (Bool-cases (has_prefix s p)) [
  | inl h ↦
      let (r, e) = has_prefix-eq s p h in
      inl (r, e, rw (h, trim_prefix) (ap (λ x. drop_prefix x p) e ∙ drop_prefix-append p r))
  | inr h ↦ inr (
    λ r e. absurd (true≢false (sym (has_prefix-append p r) ∙ ap (λ x. has_prefix x p) (sym e) ∙ h)),
    rw (h, trim_prefix) refl,
  )
]
  where
    true≢false : true ≢ false
    true≢false e = cc
