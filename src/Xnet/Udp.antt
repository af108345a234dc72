-- ===== src/Xnet/Udp.antt =====
-- xnet/udp.go: the sender that uses one UDP socket for all addresses. A socket is known by a
-- number; the datagrams sent are kept, newest first.
use mesos_executor.Common.{ℕ, Option, none, some, List, ◌∷◌, ◌++◌, Str, codes}
use mesos_executor.Xnet.{Written, Sender}

pub record UdpSender : Type 0 where
  pub conn : Option ℕ
  pub sent : List (ℕ × (Str × Str))

pub data Opened : Type 0 where
  opened : ℕ → Opened
  unopened : Str → Opened

-- net.ListenUDP, net.ResolveUDPAddr (the error, or none), WriteTo and Close.
pub record Network : Type 0 where
  pub listen : Opened
  pub resolve : Str → Option Str
  pub write_to : ℕ → Str → Str → Written
  pub close : ℕ → Option Str

abbrev failure : Str → Written
failure message = record { bytes = 0; error = some message }

module _ (net : Network) where
  wrote : Str → Written → Written
  wrote address r = elim r.error [
    | none ↦ r
    | some e ↦ failure (codes "could not sent payload to " ++ (address ++ (codes ": " ++ e)))
  ]

  send_from : Str → Str → ℕ → UdpSender → UdpSender × Written
  unfolding wrote
  send_from address payload conn s = elim (net.resolve address) [
    | some e ↦ (s, failure (codes "invalid address " ++ (address ++ (codes ": " ++ e))))
    | none ↦ (
      record s { sent = (conn, (address, payload)) ∷ s.sent },
      wrote address (net.write_to conn address payload),
    )
  ]

  send_opened : Str → Str → Opened → UdpSender → UdpSender × Written
  unfolding send_from
  send_opened address payload (opened conn) s =
      send_from address payload conn (record s { conn = some conn })
  send_opened address payload (unopened e) s =
      (s, failure (codes "could not create connection: " ++ e))

  -- Send
  unfoldable pub send : Str → Str → UdpSender → UdpSender × Written
  unfolding send_opened send_from
  send address payload s = elim s.conn [
    | none ↦ send_opened address payload net.listen s
    | some conn ↦ send_from address payload conn s
  ]

  -- Release
  unfoldable pub release : UdpSender → UdpSender × Option Str
  release s = elim s.conn [
    | none ↦ (s, none)
    | some conn ↦ (record s { conn = none }, net.close conn)
  ]

  unfoldable pub udp_sender : Sender UdpSender
  udp_sender = record { send = send; release = release }
