-- ===== src/Updater/Blocking.antt =====
-- A full buffer under a failed request (state/state.go): the goroutine of `loop`, the only reader
-- of the buffer, is itself blocked on writing to it.
use mesos_executor.Common.{Str, ◌≤◌, List, ◌≡◌, sym, ap, ◌∙◌, subst, arith, length}
use mesos_executor.Updater.{
  Updater, TaskStatus, Phase, idle, ended, received, sending, requeueing, acknowledge, Step, update,
  receive, remembers, sends, requeues, acknowledges, cancel, stops, Reach, here, next,
}

-- The goroutine puts `s` back into a buffer with no room.
abbrev pub IsBlocked : TaskStatus → List TaskStatus → Updater → Type 0
IsBlocked s buffer u =
    (u.phase ≡ requeueing s) × (u.buffer ≡ buffer) × (u.buffer_size ≤ length buffer)

abbrev RequeuesStatus : Phase → Type 0
RequeuesStatus (requeueing s) = Unit
RequeuesStatus idle = ⊥
RequeuesStatus ended = ⊥
RequeuesStatus (received s) = ⊥
RequeuesStatus (sending s) = ⊥

other_phase :
    (u : Updater) {p : Phase} {s : TaskStatus}
    → u.phase ≡ requeueing s
    → u.phase ≡ p
    → RequeuesStatus p
other_phase u e f = subst RequeuesStatus (sym e ∙ f) tt

acknowledge-IsBlocked :
    (s : TaskStatus) (buffer : List TaskStatus) (u : Updater) (id : Str)
    → IsBlocked s buffer u
    → IsBlocked s buffer (acknowledge id u)
unfolding acknowledge
acknowledge-IsBlocked s buffer u id h = h

Step-IsBlocked :
    (s : TaskStatus) (buffer : List TaskStatus) {u v : Updater}
    → Step u v
    → IsBlocked s buffer u
    → IsBlocked s buffer v
Step-IsBlocked s buffer (update u x room fresh) (p, b, full) = absurd (omega (arith, ap length b))
Step-IsBlocked s buffer (receive u x rest q e) (p, b, full) = absurd (other_phase u p q)
Step-IsBlocked s buffer (remembers u x q) (p, b, full) = absurd (other_phase u p q)
Step-IsBlocked s buffer (sends u x response error q) (p, b, full) = absurd (other_phase u p q)
Step-IsBlocked s buffer (requeues u x q room) (p, b, full) = absurd (omega (arith, ap length b))
Step-IsBlocked s buffer (acknowledges u id) h = acknowledge-IsBlocked s buffer u id h
Step-IsBlocked s buffer (cancel u) (p, b, full) = (p, b, full)
Step-IsBlocked s buffer (stops u q c) (p, b, full) = absurd (other_phase u p q)

-- Once the goroutine puts a status back into a full buffer the updater is blocked for good: in
-- every later state it is still putting that status back and the buffer holds the same statuses,
-- so no further Update returns and nothing more is sent, whatever is acknowledged or cancelled.
pub Reach-IsBlocked :
    (s : TaskStatus) (buffer : List TaskStatus) {u v : Updater}
    → Reach u v
    → IsBlocked s buffer u
    → IsBlocked s buffer v
Reach-IsBlocked s buffer here h = h
Reach-IsBlocked s buffer (next r t) h = Step-IsBlocked s buffer t (Reach-IsBlocked s buffer r h)
