-- ===== src/Xnet/Tcp.antt =====
-- xnet/tcp.go and xnet/error.go: the sender that keeps a TCP connection for each address. A connection is known by a
-- number that dialling gives; what is done with connections is kept in a log, newest first. The
-- map of connections is empty where the source's is nil.
pub mod Leaks
use mesos_executor.Common.{
  ℕ, Option, none, some, List, [], ◌∷◌, ◌++◌, Str, codes, lookup, insert, delete, length, print_ℕ,
  ◌+◌,
}
use mesos_executor.Xnet.{Written, Sender}

pub data Action : Type 0 where
  dialled : Str → ℕ → Action
  wrote : ℕ → Str → Action
  closed : ℕ → Action

pub data Dialled : Type 0 where
  connected : ℕ → Dialled
  refused : Str → Dialled

pub record TcpSender : Type 0 where
  pub connections : List (Str × ℕ)
  pub log : List Action

-- The network: what dialling, writing and closing come to.
pub record Network : Type 0 where
  pub dial : List Action → Str → Dialled
  pub write : List Action → ℕ → Str → Written
  pub close : List Action → ℕ → Option Str

abbrev pub new_sender : TcpSender
new_sender = record { connections = []; log = [] }

-- The error for a list of errors, by its message (MultiError.Error); none for the empty list.
unfoldable multi_error : List Str → Option Str
multi_error [] = none
multi_error (e ∷ []) = some e
multi_error (e ∷ e' ∷ []) = some (e ++ codes " (and 1 other error)")
multi_error (e ∷ e' ∷ e'' ∷ es) =
    some (e ++ (codes " (and " ++ (print_ℕ (length es + 2) ++ codes " other errors)")))

module _ (net : Network) where
  -- Where the write failed the connection is closed and forgotten.
  after_write : Str → ℕ → TcpSender → Option Str → TcpSender
  after_write address conn s none = s
  after_write address conn s (some e) = record {
    connections = delete address s.connections;
    log = closed conn ∷ s.log;
  }

  unfoldable pub write_to : Str → Str → ℕ → TcpSender → TcpSender × Written
  unfolding after_write
  write_to address payload conn s =
      let r = net.write s.log conn payload in
      (after_write address conn (record s { log = wrote conn payload ∷ s.log }) r.error, r)

  dialled_to : Str → Str → Dialled → TcpSender → TcpSender × Written
  dialled_to address payload (connected conn) s = write_to address payload conn (record {
    connections = insert address conn s.connections;
    log = dialled address conn ∷ s.log;
  })
  dialled_to address payload (refused e) s = (
    s,
    record {
      bytes = 0;
      error = some (codes "unable to dial " ++ (address ++ (codes " address: " ++ e)));
    },
  )

  send_over : Str → Str → Option ℕ → TcpSender → TcpSender × Written
  unfolding dialled_to
  send_over address payload (some conn) s = write_to address payload conn s
  send_over address payload none s = dialled_to address payload (net.dial s.log address) s

  -- Send
  unfoldable pub send : Str → Str → TcpSender → TcpSender × Written
  unfolding send_over
  send address payload s = send_over address payload (lookup address s.connections) s

  unfoldable pub close_all : List (Str × ℕ) → List Action → List Action
  close_all [] log = log
  close_all ((a, conn) ∷ cs) log = close_all cs (closed conn ∷ log)

  -- The errors of the calls of Close, in order.
  close_errors : List (Str × ℕ) → List Action → List Str
  close_errors [] log = []
  close_errors ((a, conn) ∷ cs) log =
      let rest = close_errors cs (closed conn ∷ log) in
      elim (net.close log conn) [ none ↦ rest | some e ↦ e ∷ rest ]

  -- Release
  unfoldable pub release : TcpSender → TcpSender × Option Str
  unfolding close_errors multi_error
  release s = (
    record { connections = []; log = close_all s.connections s.log },
    multi_error (close_errors s.connections s.log),
  )

  unfoldable pub tcp_sender : Sender TcpSender
  tcp_sender = record { send = send; release = release }
