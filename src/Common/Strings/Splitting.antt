-- ===== src/Common/Strings/Splitting.antt =====
-- Laws of the functions on text, for a separator of one byte.
use Prim.Native.Nat.{ℕ}
use mathlib.Core.Path.{◌≡◌, refl, ap, ◌∙◌}
use mathlib.Core.Logic.{◌≢◌, inl, inr}
use mathlib.Core.Bool.{false}
use mathlib.Core.List.{List, [], ◌∷◌, ◌++◌, map}
use native.Mathlib.Omega.{arith}
use mesos_executor.Common.Tests.{◌==◌, if◌then◌else◌, Bool-cases}
use mesos_executor.Common.Lists.{All}
use mesos_executor.Common.Text.{Str, has_prefix}
use mesos_executor.Common.Strings.{cons_first, split, replace_all}

split-ne_nil : (sep : ℕ) (s : Str) → split sep s ≢ []
unfolding split
split-ne_nil sep [] e = cc
split-ne_nil sep (c ∷ s) e = elim (Bool-cases (c == sep)) [
  | inl hit ↦ absurd (cons≢nil (rw (hit, split) at e))
  | inr miss ↦ absurd (first≢nil (split sep s) (rw (miss, split) at e))
]
  where
    cons≢nil : {x : Str} {xs : List Str} → x ∷ xs ≢ []
    cons≢nil h = cc

    first≢nil : (xs : List Str) → cons_first c xs ≢ []
    first≢nil [] h = cc
    first≢nil (x ∷ xs) h = cc

cons_first-append :
    (c : ℕ) (xs ys : List Str) → xs ≢ [] → cons_first c (xs ++ ys) ≡ cons_first c xs ++ ys
unfolding cons_first
cons_first-append c [] ys h = absurd (h refl)
cons_first-append c (x ∷ xs) ys h = refl

-- Splitting undoes a separator between two texts.
pub split-append : (sep : ℕ) (s t : Str) → split sep (s ++ sep ∷ t) ≡ split sep s ++ split sep t
unfolding split
split-append sep [] t = ground arith
split-append sep (c ∷ s) t = elim (Bool-cases (c == sep)) [
  | inl hit ↦ rw hit (ap (λ xs. [] ∷ xs) (split-append sep s t))
  | inr miss ↦ rw miss (
      ap (cons_first c) (split-append sep s t)
      ∙ cons_first-append c (split sep s) (split sep t) (split-ne_nil sep s))
]

pub split-single : (sep : ℕ) (s : Str) → All (λ c. (c == sep) ≡ false) s → split sep s ≡ s ∷ []
unfolding split
split-single sep [] h = refl
split-single sep (c ∷ s) h = rw (h.0, split-single sep s h.1) refl

-- Replacing one byte by another.
pub replace_all-byte :
    (old new : ℕ) (s : Str)
    → replace_all s (old ∷ []) (new ∷ []) ≡ map (λ c. if c == old then new else c) s
unfolding replace_all has_prefix
replace_all-byte old new [] = refl
replace_all-byte old new (c ∷ s) = elim (Bool-cases (c == old)) [
  | inl hit ↦ rw hit (ap (λ r. new ∷ r) (replace_all-byte old new s))
  | inr miss ↦ rw miss (ap (λ r. c ∷ r) (replace_all-byte old new s))
]
