-- ===== src/Servicelog.antt =====
-- servicelog/entry.go: log entries and the data that extenders add to them. An entry is a map; the
-- extenders copy it, since the original is not to change.
pub mod Scraper
pub mod Logstash
pub mod Logfmt
pub mod Lookups
mod Tests
use mesos_executor.Common.{
  ℤ, Option, none, some, List, [], ◌∷◌, ◌++◌, Str, codes, Result, ok, err, panic, insert,
}
use mesos_executor.Runenv.{Getenv, hostname, region, availability_zone}

-- A value of interface{}: nil, a text, an int, or any other value, by its JSON.
pub data Value : Type 0 where
  nil : Value
  text : Str → Value
  int : ℤ → Value
  json : Str → Value

abbrev pub Entry : Type 0
Entry = List (Str × Value)

abbrev pub Extender : Type 0
Extender = Entry → Entry

-- `for key, value := range data { entry[key] = value }`
unfoldable pub set_all : List (Str × Value) → Entry → Entry
set_all [] entry = entry
set_all ((key, value) ∷ data_) entry = set_all data_ (insert key value entry)

-- StaticDataExtender.Extend
unfoldable pub static_data : List (Str × Value) → Extender
static_data data_ entry = set_all data_ (set_all entry [])

-- setIfNoError
unfoldable pub set_if_no_error : Str → Result Str → Entry → Entry
set_if_no_error key (ok value) entry = insert key (text value) entry
set_if_no_error key (err e) entry = entry
set_if_no_error key panic entry = entry

-- SystemDataExtender.Extend; `os_hostname` is what getOsHostname returns.
unfoldable pub system_data : Getenv → Result Str → Extender
system_data getenv os_hostname entry = set_if_no_error (codes "zone") (availability_zone getenv) (
    set_if_no_error (codes "region") (region getenv)
      (set_if_no_error (codes "srchost") (hostname getenv os_hostname) (set_all entry [])))

-- What Extend makes of one entry.
unfoldable pub extend : List Extender → Entry → Entry
extend [] entry = entry
extend (extender ∷ extenders) entry = extend extenders (extender entry)
