-- ===== src/Servicelog/Tests.antt =====
-- The scrapers and the appender on small logs.
use mesos_executor.Common.{
  length, ◌≡◌, none, some, List, [], ◌∷◌, codes, has_prefix, false, if◌then◌else◌,
}
use mesos_executor.Servicelog.{Entry, text}
use mesos_executor.Servicelog.Scraper.{Json, Turn, Session, start_scraping, value_filter}
use mesos_executor.Servicelog.Scraper.Sessions.{start_scraping-IsAccounted}
use mesos_executor.Servicelog.Scraper.Accounts.{IsAccounted}

abbrev hello : Entry
hello = (codes "msg", text (codes "hello")) ∷ (codes "level", text (codes "INFO")) ∷ []

-- Lines that begin with a brace decode, to the entry above.
abbrev json : Json
json = record {
  key_filter = some (value_filter (codes "level" ∷ []));
  buffer_size = 1;
  scrap_unmarshallable_logs = false;
  unmarshal = λ line. if has_prefix (codes "{") line then some hello else none;
  now = λ line. codes "now";
}

-- The second entry finds the channel full; the appender takes one before the fourth line.
abbrev turns : List Turn
turns =
    record { taken = 0; line = codes "{1}" }
    ∷ record { taken = 0; line = codes "{2}" }
    ∷ record { taken = 0; line = codes "oops" }
    ∷ record { taken = 1; line = codes "{4}" }
    ∷ []

-- The first scanner ends with an error, the second at the end of the file.
abbrev sessions : List Session
sessions =
    record { turns = turns; error = some (codes "token too long") }
    ∷ record { turns = turns; error = none }
    ∷ []

start_scraping-IsAccounted_example :
    ((start_scraping json sessions).0.received_logs_total ≡ 8)
    × IsAccounted json (start_scraping json sessions).0
    × (length (start_scraping json sessions).1 ≡ 2)
start_scraping-IsAccounted_example = start_scraping-IsAccounted json sessions
