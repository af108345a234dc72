-- ===== src/Updater/Waiting.antt =====
-- What a successful Wait means (state/state.go).
use mesos_executor.Common.{
  ℕ, ◌≢◌, some, List, [], ◌∷◌, map, Str, Bool, ◌≡◌, refl, ◌⊎◌, inl, inr, arith, length, In, ok,
  lookup,
}
use mesos_executor.Updater.{
  Updater, TaskStatus, idle, received, buffered_updater, wait_tick, get_unacknowledged, Step,
  receive, Reach,
}
use mesos_executor.Updater.Delivery.{IsReceived, no_status_requeued_only}

empty_of_length : {A : Type 0} (xs : List A) → length xs ≡ 0 → xs ≡ []
empty_of_length [] h = refl
empty_of_length (x ∷ xs) h = absurd (omega arith)

map_empty : {A B : Type 0} (f : A → B) (xs : List A) → length (map f xs) ≡ 0 → xs ≡ []
map_empty f [] h = refl
map_empty f (x ∷ xs) h = absurd (omega arith)

wait_tick-empty :
    (late : Bool) (u v w z : Updater)
    → wait_tick late u v w z ≡ some (ok tt)
    → (u.buffer ≡ []) × (v.un_ack_statuses ≡ [])
unfolding wait_tick get_unacknowledged
wait_tick-empty late u v w z h = (
  empty_of_length u.buffer (ground arith),
  map_empty (λ (b : Str × TaskStatus). b.1) v.un_ack_statuses (ground arith),
)

not_found :
    (x : TaskStatus) (unacknowledged : List (Str × TaskStatus))
    → unacknowledged ≡ []
    → lookup x.uuid unacknowledged ≢ some x
unfolding lookup
not_found x [] e l = absurd (ground arith)
not_found x (b ∷ bs) e l = absurd (ground arith)

-- Where Wait returns without an error, however the updater went on between its two reads, every
-- status that was handed to the updater before the first read, that of the buffer, has been
-- acknowledged by the second, except one that the goroutine has received but not yet put among the
-- unacknowledged ones.
pub wait-acknowledged :
    (n : ℕ) {u v : Updater} (late : Bool) (w z : Updater) (x : TaskStatus)
    → Reach (buffered_updater n) u
    → Reach u v
    → wait_tick late u v w z ≡ some (ok tt)
    → In x u.given
    → In x.uuid v.acknowledged ⊎ IsReceived x v.phase
wait-acknowledged n {u} {v} late w z x before between e h =
    let empty = wait_tick-empty late u v w z e in
    elim (no_status_requeued_only n x before between h empty.0) [
      | inl a ↦ inl a
      | inr k ↦ elim k [ inl r ↦ inr r | inr l ↦ absurd (not_found x v.un_ack_statuses empty.1 l) ]
    ]

-- In that gap Wait does return too early: wherever the last status in the buffer is received while
-- none is unacknowledged, a tick of Wait that reads next returns without an error, and the status has
-- not been sent.
pub wait_too_early :
    (u : Updater) (s : TaskStatus) (late : Bool)
    → u.phase ≡ idle
    → u.buffer ≡ s ∷ []
    → u.un_ack_statuses ≡ []
    → (v : Updater) × Step u v × (v.phase ≡ received s) × (wait_tick late v v v v ≡ some (ok tt))
unfolding wait_tick
wait_too_early u s late p b e =
    (record u { buffer = []; phase = received s }, receive u s [] p b, refl, rw e)
