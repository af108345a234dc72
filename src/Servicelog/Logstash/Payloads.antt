-- ===== src/Servicelog/Logstash/Payloads.antt =====
-- What servicelog/appender/logstash.go hands to the connection.
use mesos_executor.Common.{
  Option, none, some, List, [], ◌∷◌, ◌++◌, Str, All, ◌≡◌, ◌⊎◌, inl, inr, subst, refl, sym,
}
use mesos_executor.Servicelog.{Entry}
use mesos_executor.Xio.{
  WriteError, rate_limit_exceeded, size_limit_exceeded, timeout, other, Written,
}
use mesos_executor.Servicelog.Logstash.{
  Sink, Config, Logstash, format_entry, limit_of, writer, after_write, send_bytes, send_entry,
  log_error, append,
}
use mesos_executor.Servicelog.Logstash.Accounts.{Fits, HasOutcome, writer-HasOutcome}

module _ (c : Config) where
  -- The JSON of a formatted entry and a newline, within the limit of the size.
  abbrev pub IsPayload : Str → Type 0
  IsPayload p =
      ((entry : Entry) × (json : Str) × (c.marshal (format_entry entry) ≡ inr json)
        × (p ≡ json ++ b'\n' ∷ []))
      × Fits (limit_of c.size_limit) p

  abbrev AreSent : Logstash × Option Str → Type 0
  AreSent x = All IsPayload (log_error c x.0 x.1).sink.received

  after_write-AreSent :
      (e : Option WriteError) (l : Logstash)
      → All IsPayload l.sink.received
      → AreSent (after_write c e l)
  unfolding after_write log_error
  after_write-AreSent none l h = h
  after_write-AreSent (some rate_limit_exceeded) l h = h
  after_write-AreSent (some size_limit_exceeded) l h = h
  after_write-AreSent (some timeout) l h = h
  after_write-AreSent (some (other e)) l h = h

  received-AreSent :
      (entry : Entry) (json : Str) (l : Logstash) (x : Sink × Written)
      → c.marshal (format_entry entry) ≡ inr json
      → HasOutcome c (limit_of c.size_limit) (json ++ b'\n' ∷ []) l.sink x
      → All IsPayload l.sink.received
      → All IsPayload x.0.received
  received-AreSent entry json l x e (inl refused) h = subst (λ r. All IsPayload r) (sym refused.0) h
  received-AreSent entry json l x e (inr passed) h =
      subst (λ r. All IsPayload r) (sym passed.0.0) (((entry, json, e, refl), passed.1), h)

  send_bytes-AreSent :
      (entry : Entry) (bytes : Str ⊎ Str) (l : Logstash)
      → c.marshal (format_entry entry) ≡ bytes
      → All IsPayload l.sink.received
      → AreSent (send_bytes c bytes l)
  unfolding send_bytes log_error
  send_bytes-AreSent entry (inl e) l same h = h
  send_bytes-AreSent entry (inr json) l same h =
      let x = writer c (json ++ b'\n' ∷ []) l.sink in
      after_write-AreSent x.1.error (record l { sink = x.0 })
        (received-AreSent entry json l x same (writer-HasOutcome c (json ++ b'\n' ∷ []) l.sink) h)

  -- Every payload that the connection is given is the JSON of a formatted entry with a newline
  -- behind it, and is within the limit of the size where one is set, if those before it are.
  pub append-AreSent :
      (entries : List Entry) (l : Logstash)
      → All IsPayload l.sink.received
      → All IsPayload (append c entries l).sink.received
  unfolding append send_entry
  append-AreSent [] l h = h
  append-AreSent (entry ∷ entries) l h =
      append-AreSent entries _ (send_bytes-AreSent entry (c.marshal (format_entry entry)) l refl h)
