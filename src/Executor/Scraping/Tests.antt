-- ===== src/Executor/Scraping/Tests.antt =====
-- Two lines of the sample task on their way to Logstash.
use mesos_executor.Common.{
  pos, none, some, List, [], ◌∷◌, codes, str_eq, true, err, length, ◌+◌, ◌≡◌, inr, if◌then◌else◌,
}
use mesos_executor.Servicelog.{Entry, text}
use mesos_executor.Servicelog.Scraper.{Turn}
use mesos_executor.Servicelog.Logstash.{Config, broken}
use mesos_executor.Servicelog.Logstash.Accounts.{accounted}
use mesos_executor.Executor.Scraping.{Scraping, scrap, scrap-accounted}
use mesos_executor.Executor.Scraping.Maps.{EntryMap, Sends, sent_map, sent_map-IsOnly}
use mesos_executor.Samples.{web}

abbrev hello : Entry
hello = (codes "msg", text (codes "hello")) ∷ (codes "scid", text (codes "mine")) ∷ []

abbrev config : Config
config = record {
  rate_limit = pos 0;
  size_limit = pos 8;
  allow = λ asked. true;
  write = λ received p. some (broken (codes "reset"));
  marshal = λ entry. inr (codes "{}");
}

abbrev scraping : Scraping
scraping = record {
  servicelog_ignore_keys = codes "level" ∷ [];
  servicelog_buffer_size = 1;
  unmarshal = λ line. if str_eq line (codes "{}") then some hello else none;
  now = λ line. codes "now";
  getenv = λ name. [];
  os_hostname = err (codes "unknown host");
  logstash = config;
}

abbrev turns : List Turn
turns =
    record { taken = 0; line = codes "{}" }
    ∷ record { taken = 0; line = codes "oops" }
    ∷ record { taken = 0; line = codes "{}" }
    ∷ []

scrap-accounted_example :
    let (scraped, appended) = scrap scraping web (pos 7) turns in
    accounted config appended + scraped.dropped_because_of_buffer_overflow + length scraped.invalid
    ≡ 3
scrap-accounted_example = scrap-accounted scraping web (pos 7) turns

sent_map-IsOnly_example :
    Sends scraping web (pos 7) (sent_map scraping web (pos 7))
    × ((send : EntryMap → EntryMap)
        → Sends scraping web (pos 7) send
        → send ≡ sent_map scraping web (pos 7))
sent_map-IsOnly_example = sent_map-IsOnly scraping web (pos 7)
