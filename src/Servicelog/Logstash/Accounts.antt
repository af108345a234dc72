-- ===== src/Servicelog/Logstash/Accounts.antt =====
-- What becomes of the entries that servicelog/appender/logstash.go is given.
use mesos_executor.Common.{
  ℕ, suc, Option, none, some, List, [], ◌∷◌, ◌++◌, Str, Bool-cases, ltb, ◌+◌, ◌≤◌, length, ◌≡◌, ◌⊎◌,
  inl, inr, subst, refl, sym, ap, arith,
}
use mesos_executor.Servicelog.{Entry}
use mesos_executor.Xio.{
  WriteError, rate_limit_exceeded, size_limit_exceeded, Written, Writer, decorate_writer,
  rate_limit, size_limit,
}
use mesos_executor.Servicelog.Logstash.{
  Sink, NetError, timed_out, broken, Config, Logstash, format_entry, limit_of, net_error, with_rate,
  with_size, base_writer, allow, writer, after_write, send_bytes, send_entry, log_error, append,
}

abbrev pub Fits : Option ℕ → Str → Type 0
Fits none p = Unit
Fits (some size) p = length p ≤ size

-- What a writer makes of a payload: it refuses it, or hands it to the connection.
module _ (c : Config) where
  abbrev pub IsRefused : Sink → Sink × Written → Type 0
  IsRefused w x =
      (x.0.received ≡ w.received)
      × ((x.1.error ≡ some rate_limit_exceeded) ⊎ (x.1.error ≡ some size_limit_exceeded))

  abbrev pub IsPassed : Str → Sink → Sink × Written → Type 0
  IsPassed p w x = (x.0.received ≡ p ∷ w.received) × (x.1.error ≡ net_error (c.write w.received p))

  abbrev pub HasOutcome : Option ℕ → Str → Sink → Sink × Written → Type 0
  HasOutcome size p w x = IsRefused w x ⊎ (IsPassed p w x × Fits size p)

  with_rate-HasOutcome :
      (limit : Option ℕ) (p : Str) (w : Sink)
      → HasOutcome none p w (with_rate (allow c) limit (base_writer c) p w)
  unfolding with_rate rate_limit decorate_writer allow base_writer
  with_rate-HasOutcome none p w = inr ((refl, refl), tt)
  with_rate-HasOutcome (some limit) p w = elim (Bool-cases (c.allow w.asked)) [
    | inl allowed ↦ rw allowed (inr ((refl, refl), tt))
    | inr denied ↦ rw denied (inl (refl, inl refl))
  ]

  with_size-HasOutcome :
      (size : Option ℕ) (next : Writer Sink) (p : Str) (w : Sink)
      → HasOutcome none p w (next p w)
      → HasOutcome size p w (with_size size next p w)
  unfolding with_size size_limit decorate_writer
  with_size-HasOutcome none next p w h = h
  with_size-HasOutcome (some size) next p w h = elim (Bool-cases (ltb size (length p))) [
    | inl long ↦ rw long (inl (refl, inr refl))
    | inr fits ↦
        rw fits (elim h [ inl refused ↦ inl refused | inr passed ↦ inr (passed.0, ground arith) ])
  ]

  pub writer-HasOutcome :
      (p : Str) (w : Sink) → HasOutcome (limit_of c.size_limit) p w (writer c p w)
  unfolding writer
  writer-HasOutcome p w =
      with_size-HasOutcome (limit_of c.size_limit)
        (with_rate (allow c) (limit_of c.rate_limit) (base_writer c)) p w
        (with_rate-HasOutcome (limit_of c.rate_limit) p w)

  -- How many of the payloads, newest first, the connection took without an error.
  abbrev pub delivered : List Str → ℕ
  delivered [] = 0
  delivered (p ∷ older) =
      let n = delivered older in elim (c.write older p) [ none ↦ suc n | some e ↦ n ]

  -- How many entries have been dealt with.
  abbrev pub accounted : Logstash → ℕ
  accounted l =
      delivered l.sink.received
      + l.dropped_because_of_rate
      + l.dropped_because_of_size
      + l.dropped_because_of_timeout
      + length l.logged

  abbrev HasCounted : Logstash → Logstash × Option Str → Type 0
  HasCounted l x = accounted (log_error c x.0 x.1) ≡ suc (accounted l)

  refused-HasCounted :
      (l : Logstash) (w : Sink) (e : Option WriteError)
      → w.received ≡ l.sink.received
      → (e ≡ some rate_limit_exceeded) ⊎ (e ≡ some size_limit_exceeded)
      → HasCounted l (after_write c e (record l { sink = w }))
  unfolding after_write log_error
  refused-HasCounted l w e same (inl rate) = rw rate (omega (arith, ap delivered same))
  refused-HasCounted l w e same (inr size) = rw size (omega (arith, ap delivered same))

  delivered-pass :
      (l : Logstash) (w : Sink) (p : Str) (n : Option NetError)
      → w.received ≡ p ∷ l.sink.received
      → c.write l.sink.received p ≡ n
      → delivered w.received
        ≡ elim n [ none ↦ suc (delivered l.sink.received) | some e ↦ delivered l.sink.received ]
  delivered-pass l w p n same answer = rw (same, ← answer) refl

  passed-HasCounted :
      (l : Logstash) (w : Sink) (p : Str) (n : Option NetError)
      → w.received ≡ p ∷ l.sink.received
      → c.write l.sink.received p ≡ n
      → HasCounted l (after_write c (net_error n) (record l { sink = w }))
  unfolding after_write log_error net_error
  passed-HasCounted l w p none same answer = omega (arith, delivered-pass l w p none same answer)
  passed-HasCounted l w p (some timed_out) same answer =
      omega (arith, delivered-pass l w p (some timed_out) same answer)
  passed-HasCounted l w p (some (broken e)) same answer =
      omega (arith, delivered-pass l w p (some (broken e)) same answer)

  after_write-HasCounted :
      (p : Str) (l : Logstash) (x : Sink × Written)
      → HasOutcome (limit_of c.size_limit) p l.sink x
      → HasCounted l (after_write c x.1.error (record l { sink = x.0 }))
  after_write-HasCounted p l x (inl refused) =
      refused-HasCounted l x.0 x.1.error refused.0 refused.1
  after_write-HasCounted p l x (inr passed) =
      subst (λ e. HasCounted l (after_write c e (record l { sink = x.0 }))) (sym passed.0.1)
        (passed-HasCounted l x.0 p (c.write l.sink.received p) passed.0.0 refl)

  send_bytes-HasCounted : (bytes : Str ⊎ Str) (l : Logstash) → HasCounted l (send_bytes c bytes l)
  unfolding send_bytes log_error
  send_bytes-HasCounted (inl e) l = omega arith
  send_bytes-HasCounted (inr bytes) l =
      after_write-HasCounted (bytes ++ b'\n' ∷ []) l (writer c (bytes ++ b'\n' ∷ []) l.sink)
        (writer-HasOutcome (bytes ++ b'\n' ∷ []) l.sink)

  -- No entry is lost silently: whatever the limits and the answers of the limiter and the
  -- connection, each entry given to Append was delivered, is counted as dropped because of the
  -- rate, the size or a timeout, or its error has been logged.
  pub append-accounted :
      (entries : List Entry) (l : Logstash)
      → accounted (append c entries l) ≡ length entries + accounted l
  unfolding append send_entry
  append-accounted [] l = omega arith
  append-accounted (entry ∷ entries) l =
      omega (
        arith,
        send_bytes-HasCounted (c.marshal (format_entry entry)) l,
        append-accounted entries _,
      )
