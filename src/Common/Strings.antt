-- ===== src/Common/Strings.antt =====
-- Functions of package strings, on ASCII text.
pub mod Splitting
use Prim.Native.Nat.{ℕ, zero, suc, ◌-◌}
use mathlib.Core.Bool.{Bool, true, false, ◌&&◌, ◌||◌}
use mathlib.Core.List.{List, [], ◌∷◌, ◌++◌}
use mesos_executor.Common.Tests.{◌==◌, leb, if◌then◌else◌}
use mesos_executor.Common.Lists.{length}
use mesos_executor.Common.Text.{Str, has_prefix}

cons_first : ℕ → List Str → List Str
cons_first c [] = (c ∷ []) ∷ []
cons_first c (s ∷ ss) = (c ∷ s) ∷ ss

-- strings.Split for a separator of one byte.
unfoldable pub split : ℕ → Str → List Str
unfolding cons_first
split sep [] = [] ∷ []
split sep (c ∷ s) = let rest = split sep s in if c == sep then [] ∷ rest else cons_first c rest

-- strings.Join for a separator of one byte.
unfoldable pub join : ℕ → List Str → Str
join sep [] = []
join sep (s ∷ []) = s
join sep (s ∷ t ∷ ss) = s ++ sep ∷ join sep (t ∷ ss)

-- `skip` bytes still belong to the last match.
replace_from : Str → Str → ℕ → Str → Str
replace_from old new skip [] = []
replace_from old new (suc skip) (c ∷ s) = replace_from old new skip s
replace_from old new zero (c ∷ s) =
    let hit = has_prefix (c ∷ s) old in
    let rest = replace_from old new (if hit then length old - 1 else 0) s in
    if hit then new ++ rest else c ∷ rest

-- strings.Replace(s, old, new, -1) for an `old` that is not empty.
unfoldable pub replace_all : Str → Str → Str → Str
unfolding replace_from
replace_all s old new = replace_from old new 0 s

unfoldable pub trim_left : (ℕ → Bool) → Str → Str
trim_left drops [] = []
trim_left drops (c ∷ s) = let rest = trim_left drops s in if drops c then rest else c ∷ s

-- Drops the byte before a rest that was dropped whole.
trim_step : Bool → ℕ → Str → Str
trim_step true c [] = []
trim_step true c (d ∷ s) = c ∷ d ∷ s
trim_step false c s = c ∷ s

unfoldable pub trim_right : (ℕ → Bool) → Str → Str
unfolding trim_step
trim_right drops [] = []
trim_right drops (c ∷ s) = trim_step (drops c) c (trim_right drops s)

unfoldable pub is_space : ℕ → Bool
is_space c = (leb b'\t' c && leb c b'\r') || (c == b' ')

-- strings.TrimSpace
unfoldable pub trim_space : Str → Str
unfolding trim_left trim_right is_space
trim_space s = trim_right is_space (trim_left is_space s)
