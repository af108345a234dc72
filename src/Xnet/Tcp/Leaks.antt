-- ===== src/Xnet/Tcp/Leaks.antt =====
-- No TCP connection is leaked (xnet/tcp.go), by the sender alone and under the round robin writer.
use mesos_executor.Common.{
  ℕ, Option, none, some, List, [], ◌∷◌, Str, str_eq, str_eq_iff, Bool-cases, ◌≡◌, ◌≢◌, refl, sym,
  ap, ◌∙◌, ◌⊎◌, inl, inr, subst, In, All, lookup, insert, lookup-insert, lookup-insert_self,
  lookup-delete,
}
use mesos_executor.Xnet.{Keeps}
use mesos_executor.Xnet.Writer.{
  Call, Done, HasUpdates, write_all, round_robin_writer, write_all-Done,
}
use mesos_executor.Xnet.Tcp.{
  Action, dialled, wrote, closed, Dialled, connected, refused, TcpSender, Network, new_sender,
  after_write, write_to, dialled_to, send_over, send, close_all, release, tcp_sender,
}

-- Every connection that was dialled has been closed, or the sender keeps it for its address.
abbrev pub IsTidy : TcpSender → Type 0
IsTidy s =
    (address : Str) (conn : ℕ)
    → In (dialled address conn) s.log
    → In (closed conn) s.log ⊎ (lookup address s.connections ≡ some conn)

module _ (net : Network) where
  after_write-IsTidy :
      (address : Str) (conn : ℕ) (s : TcpSender) (e : Option Str)
      → lookup address s.connections ≡ some conn
      → IsTidy s
      → IsTidy (after_write net address conn s e)
  unfolding after_write
  after_write-IsTidy address conn s none held h = h
  after_write-IsTidy address conn s (some e) held h = λ a c d. elim d [
    | inl wrong ↦ absurd (closed≢dialled wrong)
    | inr old ↦ elim (h a c old) [
      | inl k ↦ inl (inr k)
      | inr k ↦ elim (Bool-cases (str_eq address a)) [
        | inl same ↦ inl (
            inl (
              ap closed (
                some_inj (
                  sym held
                  ∙ ap (λ x. lookup x s.connections) ((str_eq_iff address a).0 same)
                  ∙ k))))
        | inr other ↦ inr (rw (lookup-delete address a s.connections, other) k)
      ]
    ]
  ]
    where
      some_inj : {x y : ℕ} → some x ≡ some y → x ≡ y
      some_inj e = cc

      closed≢dialled : {x y : ℕ} {z : Str} → closed x ≢ dialled z y
      closed≢dialled e = cc

  write_to-IsTidy :
      (address payload : Str) (conn : ℕ) (s : TcpSender)
      → lookup address s.connections ≡ some conn
      → IsTidy s
      → IsTidy (write_to net address payload conn s).0
  unfolding write_to
  write_to-IsTidy address payload conn s held h =
      after_write-IsTidy address conn (record s { log = wrote conn payload ∷ s.log })
        (net.write s.log conn payload).error held
        (λ a c d. elim d [
          | inl wrong ↦ absurd (wrote≢dialled wrong)
          | inr old ↦ elim (h a c old) [ inl k ↦ inl (inr k) | inr k ↦ inr k ]
        ])
    where
      wrote≢dialled : {x y : ℕ} {p z : Str} → wrote x p ≢ dialled z y
      wrote≢dialled e = cc

  -- A new connection is dialled only for an address without one.
  dialled-IsTidy :
      (address : Str) (conn : ℕ) (s : TcpSender)
      → lookup address s.connections ≡ none
      → IsTidy s
      → IsTidy (record {
        connections = insert address conn s.connections;
        log = dialled address conn ∷ s.log;
      })
  dialled-IsTidy address conn s free h a c d = elim d [
    | inl new ↦ inr (
        subst (λ x. lookup x (insert address conn s.connections) ≡ some c) (same_address new)
          (lookup-insert_self address conn s.connections ∙ ap some (same_conn new)))
    | inr old ↦ elim (h a c old) [
      | inl k ↦ inl (inr k)
      | inr k ↦ elim (Bool-cases (str_eq address a)) [
        | inl same ↦ absurd (
            none≢some
              (sym free ∙ ap (λ x. lookup x s.connections) ((str_eq_iff address a).0 same) ∙ k))
        | inr other ↦ inr (rw (lookup-insert address a conn s.connections, other) k)
      ]
    ]
  ]
    where
      same_address : {x y : ℕ} {u v : Str} → dialled u x ≡ dialled v y → u ≡ v
      same_address e = cc

      same_conn : {x y : ℕ} {u v : Str} → dialled u x ≡ dialled v y → x ≡ y
      same_conn e = cc

      none≢some : {x : ℕ} → none ≢ some x
      none≢some e = cc

  dialled_to-IsTidy :
      (address payload : Str) (answer : Dialled) (s : TcpSender)
      → lookup address s.connections ≡ none
      → IsTidy s
      → IsTidy (dialled_to net address payload answer s).0
  unfolding dialled_to
  dialled_to-IsTidy address payload (refused e) s free h = h
  dialled_to-IsTidy address payload (connected conn) s free h =
      write_to-IsTidy address payload conn _ (lookup-insert_self address conn s.connections)
        (dialled-IsTidy address conn s free h)

  send_over-IsTidy :
      (address payload : Str) (known : Option ℕ) (s : TcpSender)
      → lookup address s.connections ≡ known
      → IsTidy s
      → IsTidy (send_over net address payload known s).0
  unfolding send_over
  send_over-IsTidy address payload (some conn) s e h = write_to-IsTidy address payload conn s e h
  send_over-IsTidy address payload none s e h =
      dialled_to-IsTidy address payload (net.dial s.log address) s e h

  send-IsTidy :
      (address payload : Str) (s : TcpSender) → IsTidy s → IsTidy (send net address payload s).0
  unfolding send
  send-IsTidy address payload s h =
      send_over-IsTidy address payload (lookup address s.connections) s refl h

  close_all-keeps :
      (a : Action) (cs : List (Str × ℕ)) (log : List Action)
      → In a log
      → In a (close_all net cs log)
  unfolding close_all
  close_all-keeps a [] log h = h
  close_all-keeps a (c ∷ cs) log h = close_all-keeps a cs (closed c.1 ∷ log) (inr h)

  close_all-adds :
      (a : Str) (n : ℕ) (cs : List (Str × ℕ)) (log : List Action)
      → In (dialled a n) (close_all net cs log)
      → In (dialled a n) log
  unfolding close_all
  close_all-adds a n [] log h = h
  close_all-adds a n (c ∷ cs) log h = elim (close_all-adds a n cs (closed c.1 ∷ log) h) [
    | inl wrong ↦ absurd (closed≢dialled wrong)
    | inr k ↦ k
  ]
    where
      closed≢dialled : {x y : ℕ} {z : Str} → closed x ≢ dialled z y
      closed≢dialled e = cc

  close_all-closes :
      (a : Str) (n : ℕ) (cs : List (Str × ℕ)) (log : List Action)
      → lookup a cs ≡ some n
      → In (closed n) (close_all net cs log)
  unfolding close_all lookup
  close_all-closes a n [] log e = cc
  close_all-closes a n ((b, c) ∷ cs) log e = elim (Bool-cases (str_eq b a)) [
    | inl same ↦
        close_all-keeps (closed n) cs (closed c ∷ log)
          (inl (ap closed (some_inj (rw (same, lookup) at e))))
    | inr other ↦ close_all-closes a n cs (closed c ∷ log) (rw (other, lookup) at e)
  ]
    where
      some_inj : {x y : ℕ} → some x ≡ some y → x ≡ y
      some_inj e = cc

  -- After Release every connection that was ever dialled has been closed.
  pub release-closes :
      (s : TcpSender) (address : Str) (conn : ℕ)
      → IsTidy s
      → In (dialled address conn) (release net s).0.log
      → In (closed conn) (release net s).0.log
  unfolding release
  release-closes s address conn h d =
      elim (h address conn (close_all-adds address conn s.connections s.log d)) [
        | inl k ↦ close_all-keeps (closed conn) s.connections s.log k
        | inr k ↦ close_all-closes address conn s.connections s.log k
      ]

  tcp_sender-Keeps : Keeps (tcp_sender net) IsTidy
  unfolding tcp_sender
  tcp_sender-Keeps = record {
    keeps_send = send-IsTidy;
    keeps_release = λ s h address conn d. inl (release-closes s address conn h d);
  }

  -- Round robin over TCP, where the provider sends the update that a write waits for and no update
  -- is empty: whatever the updates and the payloads are, and whatever the network answers, every write
  -- returns, and afterwards each connection that was dialled has been closed or is kept for its
  -- address.
  pub round_robin-IsTidy :
      (calls : List Call)
      → All (HasUpdates (tcp_sender net)) calls
      → Done
          (tcp_sender net)
          IsTidy
          (write_all (tcp_sender net) calls (round_robin_writer new_sender))
  round_robin-IsTidy calls u =
      write_all-Done (tcp_sender net) IsTidy tcp_sender-Keeps calls (round_robin_writer new_sender)
        u tt (λ address conn d. absurd d)
