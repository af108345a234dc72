-- ===== src/Common/Number.antt =====
-- strconv.Atoi on a 64-bit int, and the decimal digits that fmt prints for %d.
use mesos_executor.Common.Text.{Str, codes}
use Prim.Native.Nat.{ℕ, zero, suc, ◌+◌, ◌-◌, ◌*◌, ◌/◌, ◌%◌, ◌^◌, ◌≤◌, ◌<◌}
use mathlib.Core.Path.{◌≡◌, ◌∙◌, ap}
use mathlib.Core.Logic.{inl, inr}
use mathlib.Core.Bool.{Bool, false, ◌&&◌}
use mathlib.Core.Option.{Option, none, some}
use mathlib.Core.List.{[], ◌∷◌, ◌++◌}
use native.Mathlib.Omega.{arith}
use mesos_executor.Common.Tests.{leb, ltb, ◌==◌, if◌then◌else◌, Bool-cases}

-- `negsuc n` is -(n + 1).
pub data ℤ : Type 0 where
  pos : ℕ → ℤ
  negsuc : ℕ → ℤ

abbrev pub is_digit : ℕ → Bool
is_digit c = leb b'0' c && leb c b'9'

-- The digits of `s` behind the value read so far; none at any other byte.
digits_from : ℕ → Str → Option ℕ
digits_from acc [] = some acc
digits_from acc (c ∷ s) =
    let rest = digits_from (acc * 10 + (c - b'0')) s in if is_digit c then rest else none

unfoldable pub parse_digits : Str → Option ℕ
unfolding digits_from
parse_digits [] = none
parse_digits (c ∷ s) = digits_from 0 (c ∷ s)

max_int : ℕ
max_int = 2 ^ 63 - 1

in_range_pos : Option ℕ → Option ℤ
unfolding max_int
in_range_pos none = none
in_range_pos (some n) = if leb n max_int then some (pos n) else none

in_range_neg : Option ℕ → Option ℤ
unfolding max_int
in_range_neg none = none
in_range_neg (some zero) = some (pos 0)
in_range_neg (some (suc n)) = if leb n max_int then some (negsuc n) else none

-- none: Atoi returns an error (bad syntax or out of range).
unfoldable pub atoi : Str → Option ℤ
unfolding parse_digits in_range_pos in_range_neg
atoi [] = none
atoi (c ∷ s) =
    if c == b'-'
    then in_range_neg (parse_digits s)
    else if c == b'+'
    then in_range_pos (parse_digits s)
    else in_range_pos (parse_digits (c ∷ s))

-- Fuel: a number below 2 ^ k has at most k digits, and `print_ℕ` gives n + 1.
print_fuel : ℕ → ℕ → Str → Str
print_fuel zero n acc = acc
print_fuel (suc f) n acc =
    let rest = print_fuel f (n / 10) ((b'0' + n % 10) ∷ acc) in
    if ltb n 10 then (b'0' + n) ∷ acc else rest

unfoldable pub print_ℕ : ℕ → Str
unfolding print_fuel
print_ℕ n = print_fuel (suc n) n []

-- An int as %d prints it.
unfoldable pub print_ℤ : ℤ → Str
print_ℤ (pos n) = print_ℕ n
print_ℤ (negsuc n) = codes "-" ++ print_ℕ (suc n)

digits_from-digit :
    (n d : ℕ) (acc : Str) → d < 10 → digits_from n ((b'0' + d) ∷ acc) ≡ digits_from (n * 10 + d) acc
unfolding digits_from
digits_from-digit n d acc h =
    let e : n * 10 + (b'0' + d - b'0') ≡ n * 10 + d = omega arith in rw e (ground arith)

digits_from-print_fuel :
    (f n : ℕ) (acc : Str) → n < f → digits_from 0 (print_fuel f n acc) ≡ digits_from n acc
unfolding print_fuel
digits_from-print_fuel zero n acc h = absurd (omega arith)
digits_from-print_fuel (suc f) n acc h = elim (Bool-cases (ltb n 10)) [
  | inl small ↦
      rw small
        (digits_from-digit 0 n acc (ground arith) ∙ ap (λ k. digits_from k acc) (omega arith))
  | inr big ↦ rw big (
      digits_from-print_fuel f (n / 10) ((b'0' + n % 10) ∷ acc) (ground arith)
      ∙ digits_from-digit (n / 10) (n % 10) acc (omega arith)
      ∙ ap (λ k. digits_from k acc) (omega arith))
]

-- The first byte printed is a digit.
print_fuel-head :
    (f n : ℕ) (acc : Str)
    → n < f
    → (d : ℕ) × (s : Str) × (d < 10) × (print_fuel f n acc ≡ (b'0' + d) ∷ s)
unfolding print_fuel
print_fuel-head zero n acc h = absurd (omega arith)
print_fuel-head (suc f) n acc h = elim (Bool-cases (ltb n 10)) [
  | inl small ↦ (n, acc, ground arith, rw small)
  | inr big ↦ rw big (print_fuel-head f (n / 10) ((b'0' + n % 10) ∷ acc) (ground arith))
]

atoi-digit :
    (d : ℕ) (s : Str) (n : ℕ)
    → d < 10
    → digits_from 0 ((b'0' + d) ∷ s) ≡ some n
    → n ≤ 2 ^ 63 - 1
    → atoi ((b'0' + d) ∷ s) ≡ some (pos n)
unfolding atoi
atoi-digit d s n h e b =
    let minus : ((b'0' + d) == b'-') ≡ false = ground arith in
    let plus : ((b'0' + d) == b'+') ≡ false = ground arith in rw (minus, plus, e) (ground arith)

atoi-print_fuel : (f n : ℕ) → n < f → n ≤ 2 ^ 63 - 1 → atoi (print_fuel f n []) ≡ some (pos n)
unfolding digits_from
atoi-print_fuel f n h b =
    let (d, s, small, e) = print_fuel-head f n [] h in
    let read : digits_from 0 (print_fuel f n []) ≡ some n = digits_from-print_fuel f n [] h in
    rw e (atoi-digit d s n small (rw e at read) b)

-- Atoi reads back what %d prints of a number that fits an int.
pub atoi-print : (n : ℕ) → n ≤ 2 ^ 63 - 1 → atoi (print_ℕ n) ≡ some (pos n)
unfolding print_ℕ
atoi-print n b = atoi-print_fuel (suc n) n (omega arith) b
