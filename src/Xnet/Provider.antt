-- ===== src/Xnet/Provider.antt =====
-- xnet/writer.go: DiscoveryServiceInstanceProvider, by the answers that it gets at its ticks, and
-- GetAddrsByName of the client for Consul.
use mathlib.Core.List.{Perm}
use mathlib.Core.List.Perm
use mesos_executor.Common.{
  ℕ, Option, none, some, List, [], ◌∷◌, ◌++◌, map, Str, codes, str_eq, str_eq_iff, Bool, true,
  false, Bool-cases, ◌&&◌, ◌||◌, if◌then◌else◌, ltb, ◌==◌, Result, ok, err, panic, print_ℕ, ◌≡◌,
  ◌≢◌, ◌↔◌, ◌⊎◌, subst, refl, sym, ◌∙◌, inl, inr, arith,
}

has_colon : Str → Bool
has_colon [] = false
has_colon (c ∷ s) = c == b':' || has_colon s

-- net.JoinHostPort
unfoldable pub join_host_port : Str → ℕ → Str
unfolding has_colon
join_host_port host port =
    if has_colon host
    then codes "[" ++ (host ++ (codes "]:" ++ print_ℕ port))
    else host ++ (codes ":" ++ print_ℕ port)

-- GetAddrsByName, by what the Consul client answers: the address and port of each instance.
unfoldable pub get_addrs_by_name : Result (List (Str × ℕ)) → Result (List Str)
get_addrs_by_name (ok services) = ok (map (λ s. join_host_port s.0 s.1) services)
get_addrs_by_name (err e) = err (codes "could NOT find service in Consul: " ++ e)
get_addrs_by_name panic = panic

-- `a <= b` on strings: byte by byte.
unfoldable pub str_le : Str → Str → Bool
str_le [] t = true
str_le (a ∷ s) [] = false
str_le (a ∷ s) (b ∷ t) = ltb a b || (a == b && str_le s t)

insert_sorted : Str → List Str → List Str
insert_sorted s [] = s ∷ []
insert_sorted s (t ∷ ts) =
    let rest = insert_sorted s ts in if str_le s t then s ∷ t ∷ ts else t ∷ rest

-- sort.Slice by `<`: equal strings are the same string, so only the order counts.
unfoldable pub sort : List Str → List Str
unfolding insert_sorted
sort [] = []
sort (s ∷ ss) = insert_sorted s (sort ss)

-- reflect.DeepEqual, but that nil and an empty slice count as equal here; neither is ever sent.
unfoldable same : List Str → List Str → Bool
same [] [] = true
same [] (t ∷ ts) = false
same (s ∷ ss) [] = false
same (s ∷ ss) (t ∷ ts) = str_eq s t && same ss ts

-- The update that an answer causes, if any.
unfoldable pub update_for : List Str → List Str → Option (List Str)
unfolding same
update_for current [] = none
update_for current (s ∷ ss) = if same current (s ∷ ss) then none else some (s ∷ ss)

publish : Option (List Str) → List Str → (List Str → List (List Str)) → List (List Str)
publish none current rest = rest current
publish (some new) current rest = new ∷ rest new

-- The updates sent at the ticks, oldest first.
unfoldable pub published : List (Result (List Str)) → List Str → List (List Str)
unfolding publish
published [] current = []
published (ok instances ∷ answers) current =
    publish (update_for current (sort instances)) current (published answers)
published (err e ∷ answers) current = published answers current
published (panic ∷ answers) current = []

str_le-total : (s t : Str) → str_le s t ≡ false → str_le t s ≡ true
unfolding str_le
str_le-total [] t h = absurd (ground arith)
str_le-total (a ∷ s) [] h = refl
str_le-total (a ∷ s) (b ∷ t) h = ground (arith, str_le-total s t)

-- Each string comes before the next one.
abbrev pub IsAscending : List Str → Type 0
IsAscending [] = Unit
IsAscending (s ∷ []) = Unit
IsAscending (s ∷ t ∷ ts) = (str_le s t ≡ true) × IsAscending (t ∷ ts)

insert_behind-IsAscending :
    (t s : Str) (ts : List Str)
    → str_le t s ≡ true
    → IsAscending (t ∷ ts)
    → IsAscending (t ∷ insert_sorted s ts)
unfolding insert_sorted
insert_behind-IsAscending t s [] le h = (le, tt)
insert_behind-IsAscending t s (u ∷ us) le h = elim (Bool-cases (str_le s u)) [
  | inl c ↦ rw c (le, (c, h.1))
  | inr gt ↦ rw gt (h.0, insert_behind-IsAscending u s us (str_le-total s u gt) h.1)
]

insert_sorted-IsAscending :
    (s : Str) (ts : List Str) → IsAscending ts → IsAscending (insert_sorted s ts)
unfolding insert_sorted
insert_sorted-IsAscending s [] h = tt
insert_sorted-IsAscending s (t ∷ ts) h = elim (Bool-cases (str_le s t)) [
  | inl le ↦ rw le (le, h)
  | inr gt ↦ rw gt (insert_behind-IsAscending t s ts (str_le-total s t gt) h)
]

sort-IsAscending : (ss : List Str) → IsAscending (sort ss)
unfolding sort
sort-IsAscending [] = tt
sort-IsAscending (s ∷ ss) = insert_sorted-IsAscending s (sort ss) (sort-IsAscending ss)

same_iff : (ss ts : List Str) → same ss ts ≡ true ↔ (ss ≡ ts)
unfolding same
same_iff ss ts = (to ss ts, λ e. subst (λ x. same ss x ≡ true) e (reflexive ss))
  where
    to : (xs ys : List Str) → same xs ys ≡ true → xs ≡ ys
    to [] [] h = refl
    to [] (y ∷ ys) h = cc
    to (x ∷ xs) [] h = cc
    to (x ∷ xs) (y ∷ ys) h = ground (arith, str_eq_iff x y, to xs ys)

    reflexive : (xs : List Str) → same xs xs ≡ true
    reflexive [] = refl
    reflexive (x ∷ xs) = ground (arith, str_eq_iff x x, reflexive xs)

insert_sorted-Perm : (s : Str) (ts : List Str) → Perm (s ∷ ts) (insert_sorted s ts)
unfolding insert_sorted
insert_sorted-Perm s [] = Perm.refl (s ∷ [])
insert_sorted-Perm s (t ∷ ts) = elim (Bool-cases (str_le s t)) [
  | inl le ↦ rw le (Perm.refl (s ∷ t ∷ ts))
  | inr gt ↦ rw gt (Perm.trans (Perm.swap t s ts) (Perm.cons t (insert_sorted-Perm s ts)))
]

sort-Perm : (ss : List Str) → Perm ss (sort ss)
unfolding sort
sort-Perm [] = Perm.refl []
sort-Perm (s ∷ ss) = Perm.trans (Perm.cons s (sort-Perm ss)) (insert_sorted-Perm s (sort ss))

-- The updates that are to be sent at the answers, when `current` was sent last: an answer with
-- instances, in ascending order, where these are others than the last ones.
abbrev pub IsPublished : List (Result (List Str)) → List Str → List (List Str) → Type 0
IsPublished [] current updates = updates ≡ []
IsPublished (ok [] ∷ answers) current updates = IsPublished answers current updates
IsPublished (ok (s ∷ ss) ∷ answers) current updates =
    (xs : List Str) × IsAscending xs
    × Perm (s ∷ ss) xs
    × (((xs ≡ current) × IsPublished answers current updates)
        ⊎ ((xs ≢ current)
            × ((rest : List (List Str)) × (updates ≡ xs ∷ rest) × IsPublished answers xs rest)))
IsPublished (err e ∷ answers) current updates = IsPublished answers current updates
IsPublished (panic ∷ answers) current updates = updates ≡ []

-- The update for instances that are not empty, by whether they are the last ones.
publish-chosen :
    (current xs : List Str) (rest : List Str → List (List Str))
    → xs ≢ []
    → ((xs ≡ current) × (publish (update_for current xs) current rest ≡ rest current))
      ⊎ ((xs ≢ current) × (publish (update_for current xs) current rest ≡ xs ∷ rest xs))
unfolding publish update_for
publish-chosen current [] rest h = absurd (h refl)
publish-chosen current (s ∷ ss) rest h = elim (Bool-cases (same current (s ∷ ss))) [
  | inl old ↦ inl (sym ((same_iff current (s ∷ ss)).0 old), rw old refl)
  | inr new ↦
      inr
        (λ e. absurd (true≢false (sym ((same_iff current (s ∷ ss)).1 (sym e)) ∙ new)), rw new refl)
]
  where
    true≢false : true ≢ false
    true≢false e = cc

insert_sorted-non_empty : (s : Str) (ts : List Str) → insert_sorted s ts ≢ []
unfolding insert_sorted
insert_sorted-non_empty s [] = λ e. cc
insert_sorted-non_empty s (t ∷ ts) = elim (Bool-cases (str_le s t)) [
  | inl le ↦ rw le (λ e. cc)
  | inr gt ↦ rw gt (λ e. cc)
]

sort-non_empty : (s : Str) (ss : List Str) → sort (s ∷ ss) ≢ []
unfolding sort
sort-non_empty s ss = insert_sorted-non_empty s (sort ss)

-- Whatever the discovery service answers at the ticks, the provider sends exactly the updates that
-- are due: the instances of an answer, all of them and in ascending order, where there are any and
-- they are not the ones that were sent last. An answer without instances and an error send nothing.
pub published-IsPublished :
    (answers : List (Result (List Str))) (current : List Str)
    → IsPublished answers current (published answers current)
unfolding published publish update_for sort
published-IsPublished [] current = refl
published-IsPublished (ok [] ∷ answers) current = published-IsPublished answers current
published-IsPublished (ok (s ∷ ss) ∷ answers) current = (
  sort (s ∷ ss),
  sort-IsAscending (s ∷ ss),
  sort-Perm (s ∷ ss),
  elim (publish-chosen current (sort (s ∷ ss)) (published answers) (sort-non_empty s ss)) [
    | inl (old, e) ↦ inl (
      old,
      subst (λ us. IsPublished answers current us) (sym e) (published-IsPublished answers current),
    )
    | inr (new, e) ↦
        inr (
          new,
          (published answers (sort (s ∷ ss)), e, published-IsPublished answers (sort (s ∷ ss))),
        )
  ],
)
published-IsPublished (err e ∷ answers) current = published-IsPublished answers current
published-IsPublished (panic ∷ answers) current = refl
