-- ===== src/Xnet/Writer/Rounds.antt =====
-- The round robin of xnet/writer.go: how the payloads are spread while the instances stay the same.
use mathlib.Core.List.{append_assoc, append-nil}
use mesos_executor.Common.{
  none, some, List, [], ◌∷◌, ◌++◌, map, Str, ◌≡◌, refl, sym, ap, ◌∙◌, All, length, arith,
}
use mesos_executor.Xnet.{Sender}
use mesos_executor.Xnet.Writer.{
  Writer, Call, write, write_all, next_write, write_next, send_next, write_with, ensure, refresh,
}

-- A write while no update arrives.
abbrev pub quiet_call : Str → Call
quiet_call payload = record { awaited = none; arrived = none; payload = payload }

abbrev pub quiet_calls : List Str → List Call
quiet_calls payloads = map quiet_call payloads

module _ {S : Type 0} (sender : Sender S) where
  -- One payload to each instance, in order.
  abbrev pub send_each : List Str → List Str → S → S
  send_each (a ∷ rest) (p ∷ ps) s = send_each rest ps (sender.send a p s).0
  send_each _ _ s = s

  -- Round after round, each time to all instances.
  abbrev pub send_rounds : List Str → List (List Str) → S → S
  send_rounds instances [] s = s
  send_rounds instances (ps ∷ rounds) s = send_rounds instances rounds (send_each instances ps s)

  abbrev pub rounds_calls : List (List Str) → List Call
  rounds_calls [] = []
  rounds_calls (ps ∷ rounds) = quiet_calls ps ++ rounds_calls rounds

  abbrev pub at : List Str → S → Writer S
  at queue s = record { instances = some queue; sender = s }

  -- The instances still to be served this round stand before those already served.
  write_all-round :
      (waiting served : List Str) (ps : List Str) (rest : List Call) (s : S)
      → length ps ≡ length waiting
      → write_all sender (quiet_calls ps ++ rest) (at (waiting ++ served) s)
        ≡ write_all sender rest (at (served ++ waiting) (send_each waiting ps s))
  unfolding write_all write next_write write_with write_next send_next ensure refresh
  write_all-round [] served [] rest s h = rw (append-nil served) refl
  write_all-round [] served (p ∷ ps) rest s h = absurd (omega (arith, h))
  write_all-round (a ∷ waiting) served [] rest s h = absurd (omega (arith, h))
  write_all-round (a ∷ waiting) served (p ∷ ps) rest s h =
      ap (λ q. write_all sender (quiet_calls ps ++ rest) (at q (sender.send a p s).0))
        (append_assoc waiting served (a ∷ []))
      ∙ write_all-round waiting (served ++ a ∷ []) ps rest (sender.send a p s).0 (omega (arith, h))
      ∙ ap (λ q. write_all sender rest (at q (send_each waiting ps (sender.send a p s).0)))
          (append_assoc served (a ∷ []) waiting)

  -- While the instances do not change, the writer is a round robin: rounds of as many payloads as
  -- there are instances go out as one payload to each instance in order, round after round, and
  -- the queue ends as it began.
  pub write_all-rounds :
      (instances : List Str) (rounds : List (List Str)) (s : S)
      → All (λ ps. length ps ≡ length instances) rounds
      → write_all sender (rounds_calls rounds) (at instances s)
        ≡ some (at instances (send_rounds instances rounds s))
  unfolding write_all
  write_all-rounds instances [] s h = refl
  write_all-rounds instances (ps ∷ rounds) s h =
      ap (λ q. write_all sender (quiet_calls ps ++ rounds_calls rounds) (at q s))
        (sym (append-nil instances))
      ∙ write_all-round instances [] ps (rounds_calls rounds) s h.0
      ∙ write_all-rounds instances rounds (send_each instances ps s) h.1
