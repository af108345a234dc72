-- ===== src/Xnet/Tests.antt =====
-- The writers at two instances.
use mesos_executor.Common.{none, some, List, [], ◌∷◌, Str, codes, Result, ok, err, ◌≡◌, ◌≢◌, refl}
use mesos_executor.Xnet.{Sender}
use mesos_executor.Xnet.Writer.{Call, Done, write_all, round_robin_writer}
use mesos_executor.Xnet.Writer.Rounds.{rounds_calls, at, write_all-rounds}
use mesos_executor.Xnet.Provider.{IsPublished, published, published-IsPublished}
use mesos_executor.Xnet.Tcp.{Network, connected, new_sender, tcp_sender}
use mesos_executor.Xnet.Tcp.Leaks.{IsTidy, round_robin-IsTidy}

abbrev host_a : Str
host_a = codes "a:1"

abbrev host_b : Str
host_b = codes "b:1"

-- A sender that records what it sends, newest first.
abbrev recorder : Sender (List (Str × Str))
recorder = record {
  send = λ address payload s. ((address, payload) ∷ s, record { bytes = 1; error = none });
  release = λ s. (s, none);
}

abbrev two_rounds : List (List Str)
two_rounds = (codes "1" ∷ codes "2" ∷ []) ∷ (codes "3" ∷ codes "4" ∷ []) ∷ []

write_all-rounds_example :
    write_all recorder (rounds_calls recorder two_rounds) (at recorder (host_a ∷ host_b ∷ []) [])
    ≡ some (
        at recorder (host_a ∷ host_b ∷ []) (
          (host_b, codes "4")
          ∷ (host_a, codes "3")
          ∷ (host_b, codes "2")
          ∷ (host_a, codes "1")
          ∷ []))
write_all-rounds_example =
    write_all-rounds recorder (host_a ∷ host_b ∷ []) two_rounds [] (refl, (refl, tt))

-- Two instances, an error, the same two in another order, and none.
abbrev answers : List (Result (List Str))
answers =
    ok (host_b ∷ host_a ∷ []) ∷ err (codes "no leader") ∷ ok (host_a ∷ host_b ∷ []) ∷ ok [] ∷ []

published-IsPublished_example : IsPublished answers [] (published answers [])
published-IsPublished_example = published-IsPublished answers []

-- Writing to connection 0 fails.
abbrev network : Network
network = record {
  dial = λ log address. connected 0;
  write = λ log conn payload. record { bytes = 0; error = some (codes "broken pipe") };
  close = λ log conn. none;
}

abbrev calls : List Call
calls =
    record { awaited = some (host_a ∷ []); arrived = none; payload = codes "1" }
    ∷ record { awaited = some (host_a ∷ []); arrived = some (host_b ∷ []); payload = codes "2" }
    ∷ []

not_empty : (x : Str) → x ∷ [] ≢ []
not_empty x e = cc

round_robin-IsTidy_example :
    Done
      (tcp_sender network)
      IsTidy
      (write_all (tcp_sender network) calls (round_robin_writer new_sender))
round_robin-IsTidy_example = round_robin-IsTidy network calls (
  (host_a ∷ [], refl, not_empty host_a, tt),
  ((host_a ∷ [], refl, not_empty host_a, not_empty host_b), tt),
)
