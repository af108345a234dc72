-- ===== src/Executor/Scraping.antt =====
-- The path of a log line: what createOptionsForLogstashServiceLogScrapping of executor.go sets up,
-- and ScrapCmdOutput of command.go connects: the scraper, the extenders and the appender.
pub mod Maps
mod Tests
use mesos_executor.Common.{
  ℕ, suc, ℤ, Option, none, some, List, [], ◌∷◌, map, Str, codes, str_eq, Bool, true, false, not,
  Result, if◌then◌else◌, length, ◌+◌, lookup, ◌⊎◌, inr, ◌≤◌, ◌≡◌, refl, ap, ◌∙◌, arith,
}
use mesos_executor.Mesos.{TaskInfo}
use mesos_executor.MesosUtils.{get_label_value}
use mesos_executor.Runenv.{Getenv, hostname, region, availability_zone}
use mesos_executor.Servicelog.{Entry, Value, text, int, Extender, static_data, system_data, extend}
use mesos_executor.Servicelog.Lookups.{
  IsMap, or_in, determined, static_data-lookup, static_data-IsMap, system_data-lookup,
}
use mesos_executor.Servicelog.Scraper.{Json, Turn, State, new_state, value_filter, scan_loop}
use mesos_executor.Servicelog.Scraper.Accounts.{scan_loop-IsAccounted, scan_loop-received}
use mesos_executor.Servicelog.Logstash.{Config, Logstash, new_logstash, append}
use mesos_executor.Servicelog.Logstash.Accounts.{accounted, append-accounted}

-- What the scraping uses of the executor's configuration and of the libraries.
pub record Scraping : Type 0 where
  pub servicelog_ignore_keys : List Str
  pub servicelog_buffer_size : ℕ
  pub unmarshal : Str → Option Entry
  pub now : Str → Str
  pub getenv : Getenv
  pub os_hostname : Result Str
  pub logstash : Config

module _ (s : Scraping) (t : TaskInfo) where
  unfoldable pub scraper : Json
  scraper = record {
    key_filter = some (value_filter s.servicelog_ignore_keys);
    buffer_size = s.servicelog_buffer_size;
    scrap_unmarshallable_logs = not (str_eq (get_label_value t (codes "log-scraping-all")) []);
    unmarshal = s.unmarshal;
    now = s.now;
  }

  abbrev pub static_entries : ℤ → List (Str × Value)
  static_entries scid = (codes "instance-id", text t.executor_id) ∷ (codes "scid", int scid) ∷ []

  unfoldable pub extenders : ℤ → List Extender
  extenders scid = static_data (static_entries scid) ∷ system_data s.getenv s.os_hostname ∷ []

  -- Every key of an extended entry: zone, region and srchost where they can be determined go before
  -- instance-id and scid, and these before what the program has logged. The entry holds no key twice.
  pub extend-lookup :
      (scid : ℤ) (k : Str) (entry : Entry)
      → IsMap entry
      → lookup k (extend (extenders scid) entry)
        ≡ or_in
            (if str_eq (codes "zone") k then determined (availability_zone s.getenv) else none)
            (or_in (if str_eq (codes "region") k then determined (region s.getenv) else none) (
              or_in
                (if str_eq (codes "srchost") k
                  then determined (hostname s.getenv s.os_hostname)
                  else none)
                (or_in (lookup k (static_entries scid)) (lookup k entry))))
  unfolding extend extenders lookup str_eq
  extend-lookup scid k entry m =
      system_data-lookup k s.getenv s.os_hostname (static_data (static_entries scid) entry)
        (static_data-IsMap (static_entries scid) entry)
      ∙ rw (static_data-lookup k (static_entries scid) entry (refl, (refl, tt)) m) refl

-- The entries of a channel, oldest first.
abbrev pub from_oldest : List Entry → List Entry → List Entry
from_oldest [] later = later
from_oldest (entry ∷ older) later = from_oldest older (entry ∷ later)

length-from_oldest :
    (entries later : List Entry)
    → length (from_oldest entries later) ≡ length entries + length later
length-from_oldest [] later = omega arith
length-from_oldest (entry ∷ older) later = omega (arith, length-from_oldest older (entry ∷ later))

length-map : {A B : Type 0} (f : A → B) (xs : List A) → length (map f xs) ≡ length xs
length-map f [] = refl
length-map f (x ∷ xs) = omega (arith, length-map f xs)

module _ (s : Scraping) (t : TaskInfo) (scid : ℤ) where
  -- The scraper and the appender after the lines, when the appender has taken all that was sent.
  unfoldable pub scrap : List Turn → State × Logstash
  scrap turns =
      let scraped = scan_loop (scraper s t) turns new_state in
      (
        scraped,
        append s.logstash (map (extend (extenders s t scid)) (from_oldest scraped.sent []))
            new_logstash,
      )

  -- No line of the task is lost silently: whatever is logged, however slowly entries are taken and
  -- whatever the limiter and the connection answer, each line has been delivered to Logstash,
  -- counted as dropped (because of the buffer, the rate, the size or a timeout), printed as invalid,
  -- or its error has been logged. The appender has taken all that was sent.
  pub scrap-accounted :
      (turns : List Turn)
      → let (scraped, appended) = scrap turns in
        accounted s.logstash appended
          + scraped.dropped_because_of_buffer_overflow
          + length scraped.invalid
        ≡ length turns
  unfolding scrap
  scrap-accounted turns =
      let scraped = scan_loop (scraper s t) turns new_state in
      let entries = map (extend (extenders s t scid)) (from_oldest scraped.sent []) in
      omega (
        arith,
        append-accounted s.logstash entries new_logstash,
        length-map (extend (extenders s t scid)) (from_oldest scraped.sent []),
        length-from_oldest scraped.sent [],
        scan_loop-received (scraper s t) turns new_state,
        (scan_loop-IsAccounted (scraper s t) turns new_state (omega arith, start_room, tt)).0,
      )
    where
      start_room : ((scraper s t).buffer_size ≡ 0) ⊎ (0 ≤ (scraper s t).buffer_size)
      start_room = inr (omega arith)
