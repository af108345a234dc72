-- ===== src/Servicelog/Scraper.antt =====
-- servicelog/scraper: the scraper for JSON objects, one to a line, and its filter. Decoding JSON and
-- the time are parameters. A turn of the loop is a line, and how many entries the appender took
-- from the channel before it; a send to an unbuffered channel waits for the appender.
pub mod Accounts
pub mod Sessions
use mesos_executor.Common.{
  ℕ, suc, Option, none, some, List, [], ◌∷◌, ◌++◌, Str, codes, str_eq, Bool, true, false, not, keep,
  ◌&&◌, ◌||◌, if◌then◌else◌, ltb, leb, ◌+◌, ◌-◌, contains_str,
}
use mesos_executor.Servicelog.{Entry, Value, text}

abbrev pub Filter : Type 0
Filter = Str → Bool

-- ValueFilter.Match
unfoldable pub value_filter : List Str → Filter
value_filter values v = contains_str v values

-- JSON, with what it asks of the libraries: the object of a line, or none on an error.
pub record Json : Type 0 where
  pub key_filter : Option Filter
  pub buffer_size : ℕ
  pub scrap_unmarshallable_logs : Bool
  pub unmarshal : Str → Option Entry
  -- the time as RFC 3339, at a line
  pub now : Str → Str

pub record Turn : Type 0 where
  pub taken : ℕ
  pub line : Str

-- What a scanner gives until it ends: its lines, and its error, or none at the end of the file.
pub record Session : Type 0 where
  pub turns : List Turn
  pub error : Option Str

-- The counters, how many entries the channel holds, all entries sent to it and all lines printed
-- as invalid; both newest first.
pub record State : Type 0 where
  pub received_logs_total : ℕ
  pub dropped_because_of_buffer_overflow : ℕ
  pub queued : ℕ
  pub sent : List Entry
  pub invalid : List Str

abbrev pub new_state : State
new_state = record {
  received_logs_total = 0;
  dropped_because_of_buffer_overflow = 0;
  queued = 0;
  sent = [];
  invalid = [];
}

-- The loop that deletes the keys that the filter matches.
unfoldable pub filter_keys : Option Filter → Entry → Entry
filter_keys none entry = entry
filter_keys (some match_) entry = keep (λ b. not (match_ b.0)) entry

module _ (j : Json) where
  unfoldable pub wrap_in_default : Str → Entry
  wrap_in_default line =
      (codes "time", text (j.now line))
      ∷ (codes "level", text (codes "INFO"))
      ∷ (codes "logger", text (codes "invalid-format"))
      ∷ (codes "msg", text line)
      ∷ []

  -- The entry for a line; none for a line that is printed instead.
  unfoldable pub entry_of : Str → Option Entry
  entry_of line = elim (j.unmarshal line) [
    | none ↦ if j.scrap_unmarshallable_logs then some (wrap_in_default line) else none
    | some entry ↦ some (filter_keys j.key_filter entry)
  ]

  send_entry : Entry → State → State
  send_entry entry s =
      if ltb 0 j.buffer_size && leb j.buffer_size s.queued
      then record s {
        dropped_because_of_buffer_overflow = suc s.dropped_because_of_buffer_overflow;
      }
      else record s { queued = suc s.queued; sent = entry ∷ s.sent }

  print_or_send : Str → Option Entry → State → State
  unfolding send_entry
  print_or_send line none s = record s { invalid = line ∷ s.invalid }
  print_or_send line (some entry) s = send_entry entry s

  -- One round of scanLoop.
  unfoldable pub scan : Turn → State → State
  unfolding print_or_send
  scan turn s =
      print_or_send turn.line (entry_of turn.line) (record s {
        received_logs_total = suc s.received_logs_total;
        queued = s.queued - turn.taken;
      })

  unfoldable pub scan_loop : List Turn → State → State
  scan_loop [] s = s
  scan_loop (turn ∷ turns) s = scan_loop turns (scan turn s)

  -- The goroutine of StartScraping: whenever the scanner ends a new one is started on the same
  -- reader, and the error, or nil, is logged. The warnings are newest first.
  unfoldable pub restart : List Session → State × List (Option Str) → State × List (Option Str)
  restart [] (s, warnings) = (s, warnings)
  restart (session ∷ sessions) (s, warnings) =
      restart sessions (scan_loop session.turns s, session.error ∷ warnings)

  unfoldable pub start_scraping : List Session → State × List (Option Str)
  start_scraping sessions = restart sessions (new_state, [])
