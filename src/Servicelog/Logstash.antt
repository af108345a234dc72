-- ===== src/Servicelog/Logstash.antt =====
-- servicelog/appender/logstash.go: the appender that sends entries to Logstash. Encoding JSON, the
-- limiter of the rate and the network connection are parameters.
pub mod Accounts
pub mod Payloads
pub mod Format
pub mod Setup
use mesos_executor.Common.{
  ℕ, suc, ℤ, pos, negsuc, Option, none, some, List, [], ◌∷◌, ◌++◌, Str, codes, str_eq, Bool, true,
  false, ◌||◌, if◌then◌else◌, ltb, lookup, insert, ◌⊎◌, inl, inr,
}
use mesos_executor.Servicelog.{Entry, Value, nil, int}
use mesos_executor.Xio.{
  WriteError, rate_limit_exceeded, size_limit_exceeded, timeout, other, Written, Writer,
  decorate_writer, rate_limit, size_limit,
}

-- What the writers change: how often the limiter was asked, and the payloads handed to the
-- connection, newest first.
pub record Sink : Type 0 where
  pub asked : ℕ
  pub received : List Str

-- How a write to the connection fails.
pub data NetError : Type 0 where
  timed_out : NetError
  broken : Str → NetError

-- RateLimit and SizeLimit of the configuration, and the libraries: the answer of the limiter to a
-- call, that of the connection to a payload, and json.Marshal.
pub record Config : Type 0 where
  pub rate_limit : ℤ
  pub size_limit : ℤ
  pub allow : ℕ → Bool
  pub write : List Str → Str → Option NetError
  -- the error, or the bytes
  pub marshal : Entry → Str ⊎ Str

pub record Logstash : Type 0 where
  pub sink : Sink
  pub dropped_because_of_rate : ℕ
  pub dropped_because_of_size : ℕ
  pub dropped_because_of_timeout : ℕ
  -- the errors that Append logs, newest first
  pub logged : List Str

abbrev pub new_logstash : Logstash
new_logstash = record {
  sink = record { asked = 0; received = [] };
  dropped_because_of_rate = 0;
  dropped_because_of_size = 0;
  dropped_because_of_timeout = 0;
  logged = [];
}

-- `entry[key]`, which is nil on a missing key.
unfoldable pub value_at : Str → Entry → Value
value_at key entry = elim (lookup key entry) [ none ↦ nil | some v ↦ v ]

copy_others : Entry → Entry → Entry
copy_others [] formatted = formatted
copy_others ((key, value) ∷ entry) formatted = copy_others entry (
    if str_eq key (codes "msg") || str_eq key (codes "time")
    then formatted
    else insert key value formatted)

unfoldable pub format_entry : Entry → Entry
unfolding value_at copy_others
format_entry entry = copy_others entry (
    (codes "@timestamp", value_at (codes "time") entry)
    ∷ (codes "@version", int (pos 1))
    ∷ (codes "message", value_at (codes "msg") entry)
    ∷ [])

-- An option is given where the limit is positive.
unfoldable pub limit_of : ℤ → Option ℕ
limit_of (pos n) = if ltb 0 n then some n else none
limit_of (negsuc n) = none

pub net_error : Option NetError → Option WriteError
net_error none = none
net_error (some timed_out) = some timeout
net_error (some (broken e)) = some (other e)

with_rate : (Sink → Sink × Bool) → Option ℕ → Writer Sink → Writer Sink
with_rate allow none writer = writer
with_rate allow (some limit) writer = decorate_writer writer (rate_limit allow ∷ [])

with_size : Option ℕ → Writer Sink → Writer Sink
with_size none writer = writer
with_size (some size) writer = decorate_writer writer (size_limit size ∷ [])

module _ (c : Config) where
  unfoldable pub base_writer : Writer Sink
  unfolding net_error
  base_writer p w = (
    record w { received = p ∷ w.received },
    record { bytes = 0; error = net_error (c.write w.received p) },
  )

  unfoldable pub allow : Sink → Sink × Bool
  allow w = (record w { asked = suc w.asked }, c.allow w.asked)

  -- The writer of LogstashAppenderFromEnv: the limit of the size is tested before that of the rate.
  unfoldable pub writer : Writer Sink
  unfolding with_rate with_size
  writer = with_size (limit_of c.size_limit) (with_rate allow (limit_of c.rate_limit) base_writer)

  -- sendEntry from the error on.
  after_write : Option WriteError → Logstash → Logstash × Option Str
  after_write none l = (l, none)
  after_write (some size_limit_exceeded) l =
      (record l { dropped_because_of_size = suc l.dropped_because_of_size }, none)
  after_write (some rate_limit_exceeded) l =
      (record l { dropped_because_of_rate = suc l.dropped_because_of_rate }, none)
  after_write (some timeout) l =
      (record l { dropped_because_of_timeout = suc l.dropped_because_of_timeout }, none)
  after_write (some (other e)) l = (l, some (codes "unable to write to Logstash server: " ++ e))

  send_bytes : Str ⊎ Str → Logstash → Logstash × Option Str
  unfolding after_write
  send_bytes (inl e) l = (l, some (codes "unable to marshal log entry: " ++ e))
  send_bytes (inr bytes) l =
      let (w, r) = writer (bytes ++ b'\n' ∷ []) l.sink in
      after_write r.error (record l { sink = w })

  unfoldable pub send_entry : Entry → Logstash → Logstash × Option Str
  unfolding send_bytes
  send_entry entry l = send_bytes (c.marshal (format_entry entry)) l

  log_error : Logstash → Option Str → Logstash
  log_error l none = l
  log_error l (some e) = record l { logged = e ∷ l.logged }

  -- Append
  unfoldable pub append : List Entry → Logstash → Logstash
  unfolding log_error
  append [] l = l
  append (entry ∷ entries) l = let (l', e) = send_entry entry l in append entries (log_error l' e)
