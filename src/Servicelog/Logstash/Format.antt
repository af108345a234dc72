-- ===== src/Servicelog/Logstash/Format.antt =====
-- What formatEntry of servicelog/appender/logstash.go keeps of an entry.
use mesos_executor.Common.{
  pos, none, some, [], ◌∷◌, Str, codes, str_eq, str_eq_iff, Bool, true, false, Bool-cases, ◌||◌,
  if◌then◌else◌, lookup, insert, lookup-insert, lookup-insert_self, ◌≡◌, refl, sym, ◌∙◌, inl, inr,
  subst,
}
use mesos_executor.Servicelog.{Entry, Value, int}
use mesos_executor.Servicelog.Lookups.{IsMap, or_in, insert-IsMap}
use mesos_executor.Servicelog.Logstash.{value_at, copy_others, format_entry}

abbrev pub is_renamed : Str → Bool
is_renamed key = str_eq key (codes "msg") || str_eq key (codes "time")

-- What one round of the copying does to the other keys, and to its own.
copied : Str → Value → Entry → Entry
copied key value formatted =
    if str_eq key (codes "msg") || str_eq key (codes "time")
    then formatted
    else insert key value formatted

copied-own :
    (k key : Str) (value : Value) (formatted : Entry)
    → is_renamed k ≡ false
    → str_eq key k ≡ true
    → lookup k (copied key value formatted) ≡ some value
unfolding copied
copied-own k key value formatted h same =
    subst
      (λ x. lookup k (if is_renamed x then formatted else insert x value formatted) ≡ some value)
      (sym ((str_eq_iff key k).0 same)) (rw h (lookup-insert_self k value formatted))

copied-other :
    (k key : Str) (value : Value) (formatted : Entry)
    → str_eq key k ≡ false
    → lookup k (copied key value formatted) ≡ lookup k formatted
unfolding copied
copied-other k key value formatted differs = elim (Bool-cases (is_renamed key)) [
  | inl renamed ↦ rw renamed refl
  | inr kept ↦ rw (kept, lookup-insert key k value formatted, differs) refl
]

copied-renamed :
    (k key : Str) (value : Value) (formatted : Entry)
    → is_renamed k ≡ true
    → lookup k (copied key value formatted) ≡ lookup k formatted
unfolding copied lookup
copied-renamed k key value formatted h = elim (Bool-cases (str_eq key k)) [
  | inl same ↦ skipped same
  | inr differs ↦ copied-other k key value formatted differs
]
  where
    skipped : str_eq key k ≡ true → lookup k (copied key value formatted) ≡ lookup k formatted
    skipped same =
        subst (λ x. lookup k (copied x value formatted) ≡ lookup k formatted)
          (sym ((str_eq_iff key k).0 same)) (rw h refl)

copy_others-lookup :
    (k : Str) (entry formatted : Entry)
    → IsMap entry
    → is_renamed k ≡ false
    → lookup k (copy_others entry formatted) ≡ or_in (lookup k entry) (lookup k formatted)
unfolding copy_others lookup copied
copy_others-lookup k [] formatted m h = refl
copy_others-lookup k ((key, value) ∷ entry) formatted m h = elim (Bool-cases (str_eq key k)) [
  | inl same ↦
      copy_others-lookup k entry (copied key value formatted) m.1 h
      ∙ rw
          (
            same,
            copied-own k key value formatted h same,
            subst (λ x. lookup x entry ≡ none) ((str_eq_iff key k).0 same) m.0,
          )
          refl
  | inr differs ↦
      copy_others-lookup k entry (copied key value formatted) m.1 h
      ∙ rw (differs, copied-other k key value formatted differs) refl
]

copy_others-lookup_renamed :
    (k : Str) (entry formatted : Entry)
    → is_renamed k ≡ true
    → lookup k (copy_others entry formatted) ≡ lookup k formatted
unfolding copy_others copied
copy_others-lookup_renamed k [] formatted h = refl
copy_others-lookup_renamed k ((key, value) ∷ entry) formatted h =
    copy_others-lookup_renamed k entry (copied key value formatted) h
    ∙ copied-renamed k key value formatted h

-- The keys that formatEntry sets first.
abbrev pub preset : Entry → Entry
preset entry =
    (codes "@timestamp", value_at (codes "time") entry)
    ∷ (codes "@version", int (pos 1))
    ∷ (codes "message", value_at (codes "msg") entry)
    ∷ []

preset-lookup_renamed :
    (k : Str) (entry : Entry) → is_renamed k ≡ true → lookup k (preset entry) ≡ none
unfolding lookup str_eq
preset-lookup_renamed k entry h = elim (Bool-cases (str_eq k (codes "msg"))) [
  | inl msg ↦
      subst (λ x. lookup x (preset entry) ≡ none) (sym ((str_eq_iff k (codes "msg")).0 msg)) refl
  | inr differs ↦
      subst (λ x. lookup x (preset entry) ≡ none)
        (sym ((str_eq_iff k (codes "time")).0 (rw differs at h))) refl
]

-- formatEntry, key by key: msg and time are gone, every other key of the entry keeps its value,
-- also where it is one of the preset keys, and a preset key that the entry lacks has the preset
-- value. The entry is a map: it holds no key twice.
pub format_entry-lookup :
    (k : Str) (entry : Entry)
    → IsMap entry
    → lookup k (format_entry entry)
      ≡ (if is_renamed k then none else or_in (lookup k entry) (lookup k (preset entry)))
unfolding format_entry
format_entry-lookup k entry m = elim (Bool-cases (is_renamed k)) [
  | inl renamed ↦
      copy_others-lookup_renamed k entry (preset entry) renamed
      ∙ preset-lookup_renamed k entry renamed
      ∙ rw renamed refl
  | inr kept ↦ copy_others-lookup k entry (preset entry) m kept ∙ rw kept refl
]

copied-IsMap :
    (key : Str) (value : Value) (formatted : Entry)
    → IsMap formatted
    → IsMap (copied key value formatted)
unfolding copied
copied-IsMap key value formatted m = elim (Bool-cases (is_renamed key)) [
  | inl renamed ↦ rw renamed m
  | inr kept ↦ rw kept (insert-IsMap key value formatted m)
]

copy_others-IsMap :
    (entry formatted : Entry) → IsMap formatted → IsMap (copy_others entry formatted)
unfolding copy_others copied
copy_others-IsMap [] formatted m = m
copy_others-IsMap ((key, value) ∷ entry) formatted m =
    copy_others-IsMap entry (copied key value formatted) (copied-IsMap key value formatted m)

pub format_entry-IsMap : (entry : Entry) → IsMap (format_entry entry)
unfolding format_entry lookup str_eq
format_entry-IsMap entry = copy_others-IsMap entry (preset entry) (refl, (refl, (refl, tt)))
