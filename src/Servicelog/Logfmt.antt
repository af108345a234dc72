-- ===== src/Servicelog/Logfmt.antt =====
-- servicelog/scraper/logfmt.go: the scraper for lines of key=value pairs. The decoder is a
-- parameter: the pairs it finds in each record.
use mesos_executor.Common.{
  Option, none, some, List, [], ◌∷◌, map, Str, str_eq, str_eq_iff, Bool, true, false, Bool-cases,
  if◌then◌else◌, lookup, insert, lookup-insert, ◌≡◌, refl, sym, ap, ◌∙◌, ◌⊎◌, inl, inr, subst,
}
use mesos_executor.Servicelog.{Entry, Value, text}
use mesos_executor.Servicelog.Scraper.{Filter}

-- `logFmt.KeyFilter != nil && logFmt.KeyFilter.Match(key)`
unfoldable pub is_skipped : Option Filter → Str → Bool
is_skipped none key = false
is_skipped (some match_) key = match_ key

scan_pairs : Option Filter → List (Str × Str) → Entry → Entry
scan_pairs filter [] entry = entry
scan_pairs filter ((key, value) ∷ pairs) entry =
    scan_pairs filter pairs (if is_skipped filter key then entry else insert key (text value) entry)

unfoldable pub record_entry : Option Filter → List (Str × Str) → Entry
unfolding scan_pairs
record_entry filter pairs = scan_pairs filter pairs []

-- The entries that StartScraping sends, in order.
unfoldable pub scrape : Option Filter → List (List (Str × Str)) → List Entry
scrape filter records = map (record_entry filter) records

-- The value of the last pair with the key.
abbrev pub last_value : Str → List (Str × Str) → Option Value → Option Value
last_value k [] seen = seen
last_value k ((key, value) ∷ pairs) seen =
    last_value k pairs (if str_eq key k then some (text value) else seen)

scan_pairs-lookup :
    (filter : Option Filter) (k : Str) (pairs : List (Str × Str)) (entry : Entry)
    → is_skipped filter k ≡ false
    → lookup k (scan_pairs filter pairs entry) ≡ last_value k pairs (lookup k entry)
unfolding scan_pairs
scan_pairs-lookup filter k [] entry h = refl
scan_pairs-lookup filter k ((key, value) ∷ pairs) entry h =
    scan_pairs-lookup filter k pairs _ h
    ∙ ap (last_value k pairs) (step (Bool-cases (str_eq key k)))
  where
    step :
        (str_eq key k ≡ true) ⊎ (str_eq key k ≡ false)
        → lookup k (if is_skipped filter key then entry else insert key (text value) entry)
          ≡ (if str_eq key k then some (text value) else lookup k entry)
    step (inl same) =
        subst
          (λ b.
            lookup k (if b then entry else insert key (text value) entry)
            ≡ (if str_eq key k then some (text value) else lookup k entry))
          (sym (ap (is_skipped filter) ((str_eq_iff key k).0 same) ∙ h))
          (lookup-insert key k (text value) entry)
    step (inr differs) = elim (Bool-cases (is_skipped filter key)) [
      | inl skipped ↦ rw (skipped, differs) refl
      | inr kept ↦ rw (kept, lookup-insert key k (text value) entry, differs) refl
    ]

scan_pairs-lookup_skipped :
    (filter : Option Filter) (k : Str) (pairs : List (Str × Str)) (entry : Entry)
    → is_skipped filter k ≡ true
    → lookup k (scan_pairs filter pairs entry) ≡ lookup k entry
unfolding scan_pairs
scan_pairs-lookup_skipped filter k [] entry h = refl
scan_pairs-lookup_skipped filter k ((key, value) ∷ pairs) entry h =
    scan_pairs-lookup_skipped filter k pairs _ h ∙ step (Bool-cases (str_eq key k))
  where
    step :
        (str_eq key k ≡ true) ⊎ (str_eq key k ≡ false)
        → lookup k (if is_skipped filter key then entry else insert key (text value) entry)
          ≡ lookup k entry
    step (inl same) =
        subst (λ b. lookup k (if b then entry else insert key (text value) entry) ≡ lookup k entry)
          (sym (ap (is_skipped filter) ((str_eq_iff key k).0 same) ∙ h)) refl
    step (inr differs) = elim (Bool-cases (is_skipped filter key)) [
      | inl skipped ↦ rw skipped refl
      | inr kept ↦ rw (kept, lookup-insert key k (text value) entry, differs) refl
    ]

-- An entry has no key that the filter matches, and has under any other key the value of the last
-- pair of the record with that key.
pub record_entry-lookup :
    (filter : Option Filter) (k : Str) (pairs : List (Str × Str))
    → lookup k (record_entry filter pairs)
      ≡ (if is_skipped filter k then none else last_value k pairs none)
unfolding record_entry lookup
record_entry-lookup filter k pairs = elim (Bool-cases (is_skipped filter k)) [
  | inl skipped ↦ scan_pairs-lookup_skipped filter k pairs [] skipped ∙ rw skipped refl
  | inr kept ↦ scan_pairs-lookup filter k pairs [] kept ∙ rw kept refl
]
