-- ===== src/Updater.antt =====
-- state/state.go: the buffered updater. Callers and the goroutine of `loop` interleave, so the
-- updater is a step relation: a step is one channel operation, one critical section or one request.
-- The buffer is taken to have room for at least one status (the configured default is 1024).
pub mod Delivery
pub mod Waiting
pub mod Blocking
mod Tests
use mesos_executor.Common.{
  ℕ, Option, none, some, List, [], ◌∷◌, ◌++◌, map, Str, Bool, true, false, ◌&&◌, if◌then◌else◌,
  length, ◌<◌, ◌≡◌, ◌≢◌, In, insert, delete, ◌==◌, leb, Result, ok, err, codes, print_ℕ,
}
use mesos_executor.Executor.{Status}

-- mesos.TaskStatus as `update` makes it: the caller's report under a new UUID.
pub record TaskStatus : Type 0 where
  pub uuid : Str
  pub report : Status

-- Where the goroutine of `loop` stands: waiting for a status; holding one that it has received, but
-- not yet put in unAckStatuses; sending one; or putting one back after an error.
pub data Phase : Type 0 where
  idle ended : Phase
  received sending requeueing : TaskStatus → Phase

pub record Updater : Type 0 where
  -- oldest first
  pub buffer : List TaskStatus
  pub buffer_size : ℕ
  pub un_ack_statuses : List (Str × TaskStatus)
  pub phase : Phase
  -- whether ctxCancel was called
  pub cancelled : Bool
  -- for the proofs: the statuses handed to `update`, and the UUIDs given to Acknowledge
  pub given : List TaskStatus
  pub acknowledged : List Str

unfoldable pub buffered_updater : ℕ → Updater
buffered_updater buffer_size = record {
  buffer = [];
  buffer_size = buffer_size;
  un_ack_statuses = [];
  phase = idle;
  cancelled = false;
  given = [];
  acknowledged = [];
}

-- `u.buffer <- status` in `update`.
unfoldable pub enqueue : TaskStatus → Updater → Updater
enqueue s u = record u { buffer = u.buffer ++ s ∷ []; given = s ∷ u.given }

unfoldable pub acknowledge : Str → Updater → Updater
acknowledge id u = record u {
  un_ack_statuses = delete id u.un_ack_statuses;
  acknowledged = id ∷ u.acknowledged;
}

-- `u.unAckStatuses[stringUUID] = status`
unfoldable pub remember : TaskStatus → Updater → Updater
remember s u = record u { un_ack_statuses = insert s.uuid s u.un_ack_statuses; phase = sending s }

-- `u.buffer <- status` in `loop`.
unfoldable pub requeue : TaskStatus → Updater → Updater
requeue s u = record u { buffer = u.buffer ++ s ∷ []; phase = idle }

-- What `send` returns, where Do gave an error or none, and a response, if any, whose Close gives an
-- error or none.
unfoldable pub send : Option (Option Str) → Option Str → Option Str
send none error = error
send (some close) error = close

unfoldable pub after_send : Option Str → TaskStatus → Phase
after_send none s = idle
after_send (some e) s = requeueing s

unfoldable pub sent : Option (Option Str) → Option Str → TaskStatus → Updater → Updater
unfolding send after_send
sent response error s u = record u { phase = after_send (send response error) s }

unfoldable pub get_unacknowledged : Updater → List TaskStatus
get_unacknowledged u = map (λ b. b.1) u.un_ack_statuses

-- One tick of Wait: none goes on waiting. `late` is whether the timeout has passed. The updater goes
-- on meanwhile, so each read has the updater as it is then: the length of the buffer, the
-- unacknowledged statuses, and both again for the error.
unfoldable pub wait_tick : Bool → Updater → Updater → Updater → Updater → Option (Result (Unit {0}))
unfolding get_unacknowledged
wait_tick late at_buffer at_unacknowledged at_buffer_left at_unacknowledged_left =
    if length at_buffer.buffer == 0 && length (get_unacknowledged at_unacknowledged) == 0
    then some (ok tt)
    else if late
    then some (
        err (
          codes "timeout during state update buffer cleaning, "
          ++ (print_ℕ (length at_buffer_left.buffer)
              ++ (codes " events remained, "
                  ++ (print_ℕ (length (get_unacknowledged at_unacknowledged_left))
                      ++ codes " events unacknowledged")))))
    else none

-- A status is sent under a UUID that no other status has (uuid.NewRandom).
pub data Step : Updater → Updater → Type 0 where
  update :
      (u : Updater) (s : TaskStatus)
      → length u.buffer < u.buffer_size
      → ((x : TaskStatus) → In x u.given → x.uuid ≢ s.uuid)
      → Step u (enqueue s u)
  receive :
      (u : Updater) (s : TaskStatus) (rest : List TaskStatus)
      → u.phase ≡ idle
      → u.buffer ≡ s ∷ rest
      → Step u (record u { buffer = rest; phase = received s })
  remembers : (u : Updater) (s : TaskStatus) → u.phase ≡ received s → Step u (remember s u)
  sends :
      (u : Updater) (s : TaskStatus) (response : Option (Option Str)) (error : Option Str)
      → u.phase ≡ sending s
      → Step u (sent response error s u)
  requeues :
      (u : Updater) (s : TaskStatus)
      → u.phase ≡ requeueing s
      → length u.buffer < u.buffer_size
      → Step u (requeue s u)
  acknowledges : (u : Updater) (id : Str) → Step u (acknowledge id u)
  cancel : (u : Updater) → Step u (record u { cancelled = true })
  stops : (u : Updater) → u.phase ≡ idle → u.cancelled ≡ true → Step u (record u { phase = ended })

pub data Reach (u : Updater) : Updater → Type 0 where
  here : Reach u u
  next : {v w : Updater} → Reach u v → Step v w → Reach u w
