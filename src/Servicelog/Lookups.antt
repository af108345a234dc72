-- ===== src/Servicelog/Lookups.antt =====
-- Entries as maps, and what the extenders of servicelog/entry.go do to each key.
use mesos_executor.Common.{
  Option, none, some, [], ◌∷◌, Str, codes, str_eq, str_eq_iff, Bool, true, false, Bool-cases,
  if◌then◌else◌, lookup, insert, lookup-insert, Result, ok, err, panic, ◌≡◌, refl, ap, ◌∙◌, inl,
  inr, subst, arith,
}
use mesos_executor.Runenv.{Getenv, hostname, region, availability_zone}
use mesos_executor.Servicelog.{
  Entry, Value, text, set_all, static_data, set_if_no_error, system_data,
}

-- A map holds a key once.
abbrev pub IsMap : Entry → Type 0
IsMap [] = Unit
IsMap ((key, value) ∷ entry) = (lookup key entry ≡ none) × IsMap entry

-- What a lookup finds in one map, or else in another.
abbrev pub or_in : Option Value → Option Value → Option Value
or_in none other = other
or_in (some v) other = some v

or_in-none : (found : Option Value) → or_in found none ≡ found
or_in-none none = refl
or_in-none (some v) = refl

set_all-lookup :
    (k : Str) (data_ entry : Entry)
    → IsMap data_
    → lookup k (set_all data_ entry) ≡ or_in (lookup k data_) (lookup k entry)
unfolding set_all lookup
set_all-lookup k [] entry m = refl
set_all-lookup k ((key, value) ∷ data_) entry m = elim (Bool-cases (str_eq key k)) [
  | inl same ↦
      set_all-lookup k data_ (insert key value entry) m.1
      ∙ rw
          (
            same,
            subst (λ x. lookup x data_ ≡ none) ((str_eq_iff key k).0 same) m.0,
            lookup-insert key k value entry,
            same,
          )
          refl
  | inr differs ↦
      set_all-lookup k data_ (insert key value entry) m.1
      ∙ rw (lookup-insert key k value entry, differs) refl
]

pub insert-IsMap :
    (key : Str) (value : Value) (entry : Entry) → IsMap entry → IsMap (insert key value entry)
unfolding insert lookup
insert-IsMap key value [] m = (refl, tt)
insert-IsMap key value ((j, w) ∷ entry) m = elim (Bool-cases (str_eq j key)) [
  | inl same ↦ rw same (subst (λ x. lookup x entry ≡ none) ((str_eq_iff j key).0 same) m.0, m.1)
  | inr differs ↦ rw differs (
    rw (lookup-insert key j value entry, str_eq_sym differs) m.0,
    insert-IsMap key value entry m.1,
  )
]
  where
    str_eq_sym : str_eq j key ≡ false → str_eq key j ≡ false
    str_eq_sym h = ground (arith, str_eq_iff j key, str_eq_iff key j)

set_all-IsMap : (data_ entry : Entry) → IsMap entry → IsMap (set_all data_ entry)
unfolding set_all
set_all-IsMap [] entry m = m
set_all-IsMap ((key, value) ∷ data_) entry m =
    set_all-IsMap data_ (insert key value entry) (insert-IsMap key value entry m)

pub static_data-IsMap : (data_ entry : Entry) → IsMap (static_data data_ entry)
unfolding static_data
static_data-IsMap data_ entry = set_all-IsMap data_ (set_all entry []) (set_all-IsMap entry [] tt)

copy-lookup : (k : Str) (entry : Entry) → IsMap entry → lookup k (set_all entry []) ≡ lookup k entry
unfolding lookup
copy-lookup k entry m = set_all-lookup k entry [] m ∙ or_in-none (lookup k entry)

-- StaticDataExtender: the data takes the place of what the entry has under its keys, and every
-- other key is kept.
pub static_data-lookup :
    (k : Str) (data_ entry : Entry)
    → IsMap data_
    → IsMap entry
    → lookup k (static_data data_ entry) ≡ or_in (lookup k data_) (lookup k entry)
unfolding static_data
static_data-lookup k data_ entry md me =
    set_all-lookup k data_ (set_all entry []) md
    ∙ ap (λ x. or_in (lookup k data_) x) (copy-lookup k entry me)

-- A value that was determined.
abbrev pub determined : Result Str → Option Value
determined (ok value) = some (text value)
determined (err e) = none
determined panic = none

-- Without a value, the key stays as it is.
nothing_determined :
    (b : Bool) (found : Option Value) → found ≡ or_in (if b then none else none) found
nothing_determined true found = refl
nothing_determined false found = refl

set_if_no_error-lookup :
    (k key : Str) (r : Result Str) (entry : Entry)
    → lookup k (set_if_no_error key r entry)
      ≡ or_in (if str_eq key k then determined r else none) (lookup k entry)
unfolding set_if_no_error
set_if_no_error-lookup k key (ok value) entry =
    lookup-insert key k (text value) entry ∙ chosen (str_eq key k)
  where
    chosen :
        (b : Bool)
        → (if b then some (text value) else lookup k entry)
          ≡ or_in (if b then some (text value) else none) (lookup k entry)
    chosen true = refl
    chosen false = refl
set_if_no_error-lookup k key (err e) entry = nothing_determined (str_eq key k) (lookup k entry)
set_if_no_error-lookup k key panic entry = nothing_determined (str_eq key k) (lookup k entry)

-- SystemDataExtender: zone, region and srchost are set where they can be determined, and every
-- other key is kept.
pub system_data-lookup :
    (k : Str) (getenv : Getenv) (os_hostname : Result Str) (entry : Entry)
    → IsMap entry
    → lookup k (system_data getenv os_hostname entry)
      ≡ or_in (if str_eq (codes "zone") k then determined (availability_zone getenv) else none) (
          or_in (if str_eq (codes "region") k then determined (region getenv) else none) (
            or_in
              (if str_eq (codes "srchost") k
                then determined (hostname getenv os_hostname)
                else none)
              (lookup k entry)))
unfolding system_data
system_data-lookup k getenv os_hostname entry m =
    rw
      (
        set_if_no_error-lookup k (codes "zone") (availability_zone getenv) _,
        set_if_no_error-lookup k (codes "region") (region getenv) _,
        set_if_no_error-lookup k (codes "srchost") (hostname getenv os_hostname) _,
        copy-lookup k entry m,
      )
      refl

set_if_no_error-IsMap :
    (key : Str) (r : Result Str) (entry : Entry) → IsMap entry → IsMap (set_if_no_error key r entry)
unfolding set_if_no_error
set_if_no_error-IsMap key (ok value) entry m = insert-IsMap key (text value) entry m
set_if_no_error-IsMap key (err e) entry m = m
set_if_no_error-IsMap key panic entry m = m

pub system_data-IsMap :
    (getenv : Getenv) (os_hostname : Result Str) (entry : Entry)
    → IsMap (system_data getenv os_hostname entry)
unfolding system_data
system_data-IsMap getenv os_hostname entry =
    set_if_no_error-IsMap (codes "zone") (availability_zone getenv) _ (
      set_if_no_error-IsMap (codes "region") (region getenv) _ (
        set_if_no_error-IsMap (codes "srchost") (hostname getenv os_hostname) _
          (set_all-IsMap entry [] tt)))
