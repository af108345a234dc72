-- ===== src/Servicelog/Scraper/Accounts.antt =====
-- What becomes of the lines that servicelog/scraper/json.go reads.
use mesos_executor.Common.{
  suc, Option, none, some, Option-cases, List, [], ◌∷◌, Str, Bool, true, false, Bool-cases, not,
  keep, ◌&&◌, if◌then◌else◌, ltb, leb, ◌+◌, ◌-◌, ◌≤◌, length, All, ◌≡◌, refl, ◌⊎◌, inl, inr, subst,
  sym, arith,
}
use mesos_executor.Servicelog.{Entry}
use mesos_executor.Servicelog.Scraper.{
  Filter, Json, Turn, State, filter_keys, wrap_in_default, entry_of, send_entry, print_or_send,
  scan, scan_loop,
}

-- No key of the entry matches.
abbrev pub HasNoMatch : Option Filter → Entry → Type 0
HasNoMatch none entry = Unit
HasNoMatch (some match_) entry = All (λ b. match_ b.0 ≡ false) entry

keep-All :
    (match_ : Filter) (entry : Entry)
    → All (λ b. match_ b.0 ≡ false) (keep (λ b. not (match_ b.0)) entry)
keep-All match_ [] = tt
keep-All match_ (b ∷ entry) = elim (Bool-cases (match_ b.0)) [
  | inl same ↦ rw same (keep-All match_ entry)
  | inr other ↦ rw other (other, keep-All match_ entry)
]

filter_keys-HasNoMatch :
    (filter : Option Filter) (entry : Entry) → HasNoMatch filter (filter_keys filter entry)
unfolding filter_keys
filter_keys-HasNoMatch none entry = tt
filter_keys-HasNoMatch (some match_) entry = keep-All match_ entry

module _ (j : Json) where
  -- An entry that may be sent: a line that could not be decoded, wrapped, or one without the keys
  -- that the filter matches.
  abbrev pub IsFiltered : Entry → Type 0
  IsFiltered entry =
      ((line : Str) × (entry ≡ wrap_in_default j line)) ⊎ HasNoMatch j.key_filter entry

  -- Each line is sent, dropped or printed, and the channel does not hold more than its buffer.
  abbrev pub IsAccounted : State → Type 0
  IsAccounted s =
      (length s.sent + s.dropped_because_of_buffer_overflow + length s.invalid
        ≡ s.received_logs_total)
      × ((j.buffer_size ≡ 0) ⊎ (s.queued ≤ j.buffer_size))
      × All IsFiltered s.sent

  -- The same, while one line is read.
  abbrev IsReading : State → Type 0
  IsReading s =
      (suc (length s.sent + s.dropped_because_of_buffer_overflow + length s.invalid)
        ≡ s.received_logs_total)
      × ((j.buffer_size ≡ 0) ⊎ (s.queued ≤ j.buffer_size))
      × All IsFiltered s.sent

  entry_of-IsFiltered :
      (line : Str) (entry : Entry) → entry_of j line ≡ some entry → IsFiltered entry
  unfolding entry_of
  entry_of-IsFiltered line entry e = elim (Option-cases (j.unmarshal line)) [
    | inl broken ↦
        inl (line, sym (wrapped j.scrap_unmarshallable_logs (rw (broken, entry_of) at e)))
    | inr (decoded, whole) ↦ inr (
        subst (λ x. HasNoMatch j.key_filter x) (some_inj (rw (whole, entry_of) at e))
          (filter_keys-HasNoMatch j.key_filter decoded))
  ]
    where
      some_inj : {x y : Entry} → some x ≡ some y → x ≡ y
      some_inj h = cc

      wrapped :
          {x : Entry} (wraps : Bool) → (if wraps then some x else none) ≡ some entry → x ≡ entry
      wrapped true h = cc
      wrapped false h = cc

  send_entry-IsAccounted :
      (entry : Entry) (s : State)
      → IsFiltered entry
      → IsReading s
      → IsAccounted (send_entry j entry s)
  unfolding send_entry
  send_entry-IsAccounted entry s f h =
      elim (Bool-cases (ltb 0 j.buffer_size && leb j.buffer_size s.queued)) [
        | inl full ↦ rw full (omega (arith, h.0), h.1, h.2)
        | inr free ↦ rw free (omega (arith, h.0), has_room free, (f, h.2))
      ]
    where
      has_room :
          (ltb 0 j.buffer_size && leb j.buffer_size s.queued) ≡ false
          → (j.buffer_size ≡ 0) ⊎ (suc s.queued ≤ j.buffer_size)
      has_room e = elim (Bool-cases (ltb 0 j.buffer_size)) [
        | inl bounded ↦ inr (ground arith)
        | inr unbuffered ↦ inl (ground arith)
      ]

  print_or_send-IsAccounted :
      (line : Str) (s : State)
      → IsReading s
      → IsAccounted (print_or_send j line (entry_of j line) s)
  unfolding print_or_send
  print_or_send-IsAccounted line s h = elim (Option-cases (entry_of j line)) [
    | inl e ↦ rw e (omega (arith, h.0), h.1, h.2)
    | inr (entry, e) ↦ rw e (send_entry-IsAccounted entry s (entry_of-IsFiltered line entry e) h)
  ]

  scan-IsAccounted : (turn : Turn) (s : State) → IsAccounted s → IsAccounted (scan j turn s)
  unfolding scan
  scan-IsAccounted turn s h =
      print_or_send-IsAccounted turn.line
        (record s {
          received_logs_total = suc s.received_logs_total;
          queued = s.queued - turn.taken;
        })
        (omega (arith, h.0), elim h.1 [ inl e ↦ inl e | inr le ↦ inr (omega (arith, le)) ], h.2)

  -- Whatever lines arrive and however slowly the appender takes entries: each line counted as
  -- received has been sent, counted as dropped or printed as invalid; a channel with a buffer never
  -- holds more than its size; and no entry that was sent has a key that the filter matches, unless
  -- it wraps a line that is no JSON object. The state is taken to be so at first.
  pub scan_loop-IsAccounted :
      (turns : List Turn) (s : State) → IsAccounted s → IsAccounted (scan_loop j turns s)
  unfolding scan_loop
  scan_loop-IsAccounted [] s h = h
  scan_loop-IsAccounted (turn ∷ turns) s h =
      scan_loop-IsAccounted turns (scan j turn s) (scan-IsAccounted turn s h)

  send_entry-received :
      (entry : Entry) (s : State)
      → (send_entry j entry s).received_logs_total ≡ s.received_logs_total
  unfolding send_entry
  send_entry-received entry s =
      elim (Bool-cases (ltb 0 j.buffer_size && leb j.buffer_size s.queued)) [
        | inl full ↦ rw full refl
        | inr free ↦ rw free refl
      ]

  print_or_send-received :
      (line : Str) (e : Option Entry) (s : State)
      → (print_or_send j line e s).received_logs_total ≡ s.received_logs_total
  unfolding print_or_send
  print_or_send-received line none s = refl
  print_or_send-received line (some entry) s = send_entry-received entry s

  pub scan_loop-received :
      (turns : List Turn) (s : State)
      → (scan_loop j turns s).received_logs_total ≡ length turns + s.received_logs_total
  unfolding scan_loop scan
  scan_loop-received [] s = omega arith
  scan_loop-received (turn ∷ turns) s = omega (
    arith,
    scan_loop-received turns _,
    print_or_send-received turn.line (entry_of j turn.line) (record s {
      received_logs_total = suc s.received_logs_total;
      queued = s.queued - turn.taken;
    }),
  )
