-- ===== src/Servicelog/Scraper/Sessions.antt =====
-- The restarts of StartScraping in servicelog/scraper/json.go.
use mesos_executor.Common.{ℕ, Option, List, [], ◌∷◌, Str, length, ◌+◌, ◌≡◌, inr, arith}
use mesos_executor.Servicelog.Scraper.{
  Json, State, Session, new_state, scan_loop, restart, start_scraping,
}
use mesos_executor.Servicelog.Scraper.Accounts.{
  IsAccounted, scan_loop-IsAccounted, scan_loop-received,
}

abbrev pub lines : List Session → ℕ
lines [] = 0
lines (session ∷ sessions) = length session.turns + lines sessions

module _ (j : Json) where
  restart-IsAccounted :
      (sessions : List Session) (s : State) (warnings : List (Option Str))
      → IsAccounted j s
      → IsAccounted j (restart j sessions (s, warnings)).0
  unfolding restart
  restart-IsAccounted [] s warnings h = h
  restart-IsAccounted (session ∷ sessions) s warnings h =
      restart-IsAccounted sessions (scan_loop j session.turns s) (session.error ∷ warnings)
        (scan_loop-IsAccounted j session.turns s h)

  restart-received :
      (sessions : List Session) (s : State) (warnings : List (Option Str))
      → (restart j sessions (s, warnings)).0.received_logs_total
        ≡ lines sessions + s.received_logs_total
  unfolding restart
  restart-received [] s warnings = omega arith
  restart-received (session ∷ sessions) s warnings = omega (
    arith,
    restart-received sessions (scan_loop j session.turns s) (session.error ∷ warnings),
    scan_loop-received j session.turns s,
  )

  restart-warnings :
      (sessions : List Session) (s : State) (warnings : List (Option Str))
      → length (restart j sessions (s, warnings)).1 ≡ length sessions + length warnings
  unfolding restart
  restart-warnings [] s warnings = omega arith
  restart-warnings (session ∷ sessions) s warnings =
      omega
        (arith, restart-warnings sessions (scan_loop j session.turns s) (session.error ∷ warnings))

  -- Whatever lines the scanners give, however often they end and however slowly the appender takes
  -- entries: every line of every scanner is counted as received; each of these has been sent, is
  -- counted as dropped or was printed as invalid; a channel with a buffer never holds more than its
  -- size; no entry that was sent has a key that the filter matches, unless it wraps a line that is
  -- no JSON object; and each end of a scanner is logged.
  pub start_scraping-IsAccounted :
      (sessions : List Session)
      → ((start_scraping j sessions).0.received_logs_total ≡ lines sessions)
        × IsAccounted j (start_scraping j sessions).0
        × (length (start_scraping j sessions).1 ≡ length sessions)
  unfolding start_scraping
  start_scraping-IsAccounted sessions = (
    omega (arith, restart-received sessions new_state []),
    restart-IsAccounted sessions new_state [] (omega arith, inr (omega arith), tt),
    omega (arith, restart-warnings sessions new_state []),
  )
