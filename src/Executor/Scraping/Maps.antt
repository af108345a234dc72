-- ===== src/Executor/Scraping/Maps.antt =====
-- Log entries as the maps that they are in Go: of an entry only the lookups count, and not the order in
-- which `range` visits it. What becomes of an entry between the scraper and Logstash (the extenders of
-- executor.go and servicelog/entry.go, formatEntry of servicelog/appender/logstash.go) is a function
-- on these maps.
use mathlib.Core.Quot
use mathlib.Core.Quot.{Quot, Quot-set}
use mathlib.Core.HLevel.{hedberg}
use native.Mathlib.Decide.{ℕ_discrete}
use mesos_executor.Common.{
  ℤ, pos, Option, none, some, [], ◌∷◌, Str, codes, if◌then◌else◌, lookup, str_eq, ◌≡◌, ap, ◌∙◌, sym,
}
use mesos_executor.Mesos.{TaskInfo}
use mesos_executor.Runenv.{hostname, region, availability_zone}
use mesos_executor.Servicelog.{Entry, Value, nil, int, extend}
use mesos_executor.Servicelog.Lookups.{IsMap, or_in, determined, system_data-IsMap}
use mesos_executor.Servicelog.Logstash.{format_entry, value_at}
use mesos_executor.Servicelog.Logstash.Format.{is_renamed, format_entry-lookup, format_entry-IsMap}
use mesos_executor.Executor.Scraping.{Scraping, static_entries, extenders, extend-lookup}

Value-discrete : Discrete Value
Value-discrete = hlevel (ℕ_discrete)

-- An entry that holds no key twice.
abbrev pub Rep : Type 0
Rep = (entry : Entry) × IsMap entry

abbrev pub SameLookups : Rep → Rep → Type 0
SameLookups a b = (k : Str) → lookup k a.0 ≡ lookup k b.0

abbrev pub EntryMap : Type 0
EntryMap = Quot SameLookups

pub found_set : IsSet (Option Value)
found_set = hedberg (hlevel (Value-discrete))

-- What a map holds under a key.
unfoldable pub find : Str → EntryMap → Option Value
find k = Quot.lift found_set (λ a. lookup k a.0) (λ a b h. h k)

-- Maps that hold the same are equal.
pub EntryMap-ext : (a b : EntryMap) → ((k : Str) → find k a ≡ find k b) → a ≡ b
unfolding find
EntryMap-ext =
    Quot.ind (hlevel (Quot-set)) (λ a. Quot.ind (hlevel (Quot-set)) (λ b h. Quot.sound h))

abbrev pub or_nil : Option Value → Value
or_nil none = nil
or_nil (some v) = v

-- What formatEntry has under a key, by what the map before it has.
abbrev pub formatted : (Str → Option Value) → Str → Option Value
formatted found k =
    if is_renamed k
    then none
    else or_in (found k) (
        lookup k (
          (codes "@timestamp", or_nil (found (codes "time")))
          ∷ (codes "@version", int (pos 1))
          ∷ (codes "message", or_nil (found (codes "msg")))
          ∷ []))

format_entry-formatted :
    (k : Str) (entry : Entry)
    → IsMap entry
    → lookup k (format_entry entry) ≡ formatted (λ j. lookup j entry) k
unfolding value_at
format_entry-formatted k entry m = format_entry-lookup k entry m

module _ (s : Scraping) (t : TaskInfo) (scid : ℤ) where
  -- What the extenders have under a key, by what the map before them has.
  abbrev pub extended : (Str → Option Value) → Str → Option Value
  extended found k =
      or_in (if str_eq (codes "zone") k then determined (availability_zone s.getenv) else none) (
        or_in (if str_eq (codes "region") k then determined (region s.getenv) else none) (
          or_in
            (if str_eq (codes "srchost") k
              then determined (hostname s.getenv s.os_hostname)
              else none)
            (or_in (lookup k (static_entries s t scid)) (found k))))

  extend-IsMap : (entry : Entry) → IsMap (extend (extenders s t scid) entry)
  unfolding extend extenders
  extend-IsMap entry = system_data-IsMap s.getenv s.os_hostname _

  -- What is sent for an entry.
  abbrev pub sent_rep : Entry → Rep
  sent_rep entry =
      let e = extend (extenders s t scid) entry in (format_entry e, format_entry-IsMap e)

  sent_rep-lookup :
      (k : Str) (a : Rep) → lookup k (sent_rep a.0).0 ≡ formatted (extended (λ j. lookup j a.0)) k
  sent_rep-lookup k (entry, m) =
      format_entry-formatted k (extend (extenders s t scid) entry) (extend-IsMap entry)
      ∙ ap (λ found. formatted found k) (λ i j. extend-lookup s t scid j entry m i)

  pub sent_rep-SameLookups :
      (a b : Rep) → SameLookups a b → SameLookups (sent_rep a.0) (sent_rep b.0)
  sent_rep-SameLookups a b h k =
      sent_rep-lookup k a
      ∙ ap (λ found. formatted (extended found) k) (λ i j. h j i)
      ∙ sym (sent_rep-lookup k b)

  -- The extenders and formatEntry, on maps.
  unfoldable pub sent_map : EntryMap → EntryMap
  sent_map =
      Quot.lift Quot-set (λ a. Quot.mk (sent_rep a.0))
        (λ a b h. Quot.sound (sent_rep-SameLookups a b h))

  -- A function on maps that has under each key what the extenders and formatEntry are to make of a
  -- map, by what it holds.
  abbrev pub Sends : (EntryMap → EntryMap) → Type 0
  Sends send = (k : Str) (m : EntryMap) → find k (send m) ≡ formatted (extended (λ j. find j m)) k

  sent_map-Sends : Sends sent_map
  unfolding sent_map find
  sent_map-Sends k = Quot.ind (hlevel (found_set)) (λ a. sent_rep-lookup k a)

  -- What is sent to Logstash for an entry is a function of the map that the entry is, whatever the
  -- order of its keys: the only one under which each key has what the extenders and formatEntry are
  -- to make of what the map holds.
  pub sent_map-IsOnly :
      Sends sent_map × ((send : EntryMap → EntryMap) → Sends send → send ≡ sent_map)
  sent_map-IsOnly = (
    sent_map-Sends,
    λ send h i m. EntryMap-ext (send m) (sent_map m) (λ k. h k m ∙ sym (sent_map-Sends k m)) i,
  )
