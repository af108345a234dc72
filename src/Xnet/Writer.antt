-- ===== src/Xnet/Writer.antt =====
-- xnet/writer.go: roundRobinWriter. The channel of instances is a queue, which is none while it is
-- nil. A write that finds the queue empty waits for ever; that is the result none.
pub mod Rounds
use mesos_executor.Common.{
  ℕ, Option, none, some, List, [], ◌∷◌, ◌++◌, Str, ◌≡◌, ◌≢◌, refl, sym, subst, All,
}
use mesos_executor.Xnet.{Written, Sender, Keeps}

pub record Writer (S : Type 0) : Type 0 where
  pub instances : Option (List Str)
  pub sender : S

-- What a call of Write meets: the update that it waits for where the queue is nil, which is none
-- where the provider never sends one; the update that has arrived meanwhile, if any; and the payload.
pub record Call : Type 0 where
  pub awaited : Option (List Str)
  pub arrived : Option (List Str)
  pub payload : Str

abbrev pub round_robin_writer : {S : Type 0} → S → Writer S
round_robin_writer s = record { instances = none; sender = s }

module _ {S : Type 0} (sender : Sender S) where
  -- updateInstances; an error of Release is only logged.
  unfoldable pub update_instances : List Str → Writer S → Writer S
  update_instances new w = record { instances = some new; sender = (sender.release w.sender).0 }

  send_next : List Str → Str → Writer S → Option (Writer S × Written)
  send_next [] payload w = none
  send_next (a ∷ rest) payload w =
      let (s, r) = sender.send a payload w.sender in
      some (record { instances = some (rest ++ a ∷ []); sender = s }, r)

  -- `write`, which reads a nil channel for ever.
  write_next : Option (List Str) → Str → Writer S → Option (Writer S × Written)
  unfolding send_next
  write_next none payload w = none
  write_next (some queue) payload w = send_next queue payload w

  -- The writer once its queue is not nil.
  ensure : Option (List Str) → Option (List Str) → Writer S → Option (Writer S)
  unfolding update_instances
  ensure (some queue) awaited w = some w
  ensure none none w = none
  ensure none (some awaited) w = some (update_instances awaited w)

  refresh : Option (List Str) → Writer S → Writer S
  unfolding update_instances
  refresh none w = w
  refresh (some new) w = update_instances new w

  -- Write, once the queue is not nil.
  write_with : Option (List Str) → Str → Option (Writer S) → Option (Writer S × Written)
  unfolding refresh write_next
  write_with arrived payload none = none
  write_with arrived payload (some w) =
      let w' = refresh arrived w in write_next w'.instances payload w'

  -- Write
  unfoldable pub write : Call → Writer S → Option (Writer S × Written)
  unfolding ensure write_with
  write c w = write_with c.arrived c.payload (ensure w.instances c.awaited w)

  -- A sequence of writes, up to one that waits for ever.
  next_write : Option (Writer S × Written) → (Writer S → Option (Writer S)) → Option (Writer S)
  next_write none rest = none
  next_write (some (w, r)) rest = rest w

  unfoldable pub write_all : List Call → Writer S → Option (Writer S)
  unfolding next_write
  write_all [] w = some w
  write_all (c ∷ cs) w = next_write (write c w) (write_all cs)

  -- Updates that are not empty.
  abbrev pub IsFull : List Str → Type 0
  IsFull xs = xs ≢ []

  abbrev FullUpdate : Option (List Str) → Type 0
  FullUpdate none = Unit
  FullUpdate (some xs) = IsFull xs

  -- The provider sends the update that the call may wait for, and no update is empty.
  abbrev pub HasUpdates : Call → Type 0
  HasUpdates c =
      (awaited : List Str) × (c.awaited ≡ some awaited) × IsFull awaited × FullUpdate c.arrived

  -- The queue is nil or not empty.
  abbrev pub IsReady : Writer S → Type 0
  IsReady w = FullUpdate w.instances

  -- The writer after a write that returned, with the sender in a state that it keeps.
  abbrev Good : (S → Type 0) → Option (Writer S × Written) → Type 0
  Good P none = ⊥
  Good P (some (w, r)) = (w.instances ≢ none) × IsReady w × P w.sender

  append-IsFull : (xs : List Str) (a : Str) → IsFull (xs ++ a ∷ [])
  append-IsFull [] a e = cc
  append-IsFull (x ∷ xs) a e = cc

  -- The writes returned, with the sender in such a state.
  abbrev pub Done : (S → Type 0) → Option (Writer S) → Type 0
  Done P none = ⊥
  Done P (some w) = IsReady w × P w.sender

  module _ (P : S → Type 0) (k : Keeps sender P) where
    write_next-Good :
        (queue : List Str) (payload : Str) (w : Writer S)
        → IsFull queue
        → P w.sender
        → Good P (write_next (some queue) payload w)
    unfolding write_next send_next
    write_next-Good [] payload w full h = absurd (full refl)
    write_next-Good (a ∷ rest) payload w full h =
        ((λ e. cc), append-IsFull rest a, k.keeps_send a payload w.sender h)

    refresh-Good :
        (arrived : Option (List Str)) (queue : List Str) (payload : Str) (s : S)
        → FullUpdate arrived
        → IsFull queue
        → P s
        → let w = refresh arrived (record { instances = some queue; sender = s }) in
          Good P (write_next w.instances payload w)
    unfolding refresh update_instances
    refresh-Good none queue payload s u full h =
        write_next-Good queue payload (record { instances = some queue; sender = s }) full h
    refresh-Good (some new) queue payload s u full h =
        write_next-Good new payload _ u (k.keeps_release s h)

    ensured-Good :
        (instances : Option (List Str)) (awaited : List Str) (arrived : Option (List Str))
        (payload : Str) (s : S)
        → IsFull awaited
        → FullUpdate arrived
        → FullUpdate instances
        → P s
        → Good P (
            write_with arrived payload
              (ensure instances (some awaited) (record { instances = instances; sender = s })))
    unfolding write_with ensure update_instances
    ensured-Good none awaited arrived payload s full u ready h =
        refresh-Good arrived awaited payload _ u full (k.keeps_release s h)
    ensured-Good (some queue) awaited arrived payload s full u ready h =
        refresh-Good arrived queue payload s u ready h

    write-Good :
        (c : Call) (w : Writer S) → HasUpdates c → IsReady w → P w.sender → Good P (write c w)
    unfolding write
    write-Good c w (awaited, e, full, u) ready h =
        subst (λ a. Good P (write_with c.arrived c.payload (ensure w.instances a w))) (sym e)
          (ensured-Good w.instances awaited c.arrived c.payload w.sender full u ready h)

    next_write-Done :
        (o : Option (Writer S × Written)) (rest : Writer S → Option (Writer S))
        → Good P o
        → ((w : Writer S) → IsReady w → P w.sender → Done P (rest w))
        → Done P (next_write o rest)
    unfolding next_write
    next_write-Done none rest g k = absurd g
    next_write-Done (some (w, r)) rest g k = k w g.1 g.2

    -- As long as the provider sends the updates that are waited for, and none is empty, no write waits
    -- for ever, and a property that
    -- the sender's calls keep holds of the sender after any sequence of writes and updates.
    pub write_all-Done :
        (cs : List Call) (w : Writer S)
        → All HasUpdates cs
        → IsReady w
        → P w.sender
        → Done P (write_all cs w)
    unfolding write_all next_write
    write_all-Done [] w u ready h = (ready, h)
    write_all-Done (c ∷ cs) w u ready h =
        next_write-Done (write c w) (write_all cs) (write-Good c w u.0 ready h)
          (λ w' r p. write_all-Done cs w' u.1 r p)
