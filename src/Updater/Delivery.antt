-- ===== src/Updater/Delivery.antt =====
-- No status is lost by the updater (state/state.go).
use mesos_executor.Common.{
  ℕ, Option, none, some, List, [], ◌∷◌, Str, str_eq, str_eq_iff, Bool, true, Bool-cases, ◌≡◌, refl,
  sym, ap, ◌∙◌, ◌≢◌, ◌⊎◌, inl, inr, In, In-append_left, In-append_right, In-append_cases, lookup,
  insert, lookup-insert, lookup-insert_self, lookup-delete, subst,
}
use mesos_executor.Updater.{
  Updater, TaskStatus, Phase, idle, ended, received, sending, requeueing, buffered_updater, enqueue,
  acknowledge, remember, requeue, send, sent, after_send, Step, update, receive, remembers, sends,
  requeues, acknowledges, cancel, stops, Reach, here, next,
}

-- The status that the goroutine has taken from the buffer and not yet remembered.
abbrev pub IsReceived : TaskStatus → Phase → Type 0
IsReceived x idle = ⊥
IsReceived x ended = ⊥
IsReceived x (received s) = s ≡ x
IsReceived x (sending s) = ⊥
IsReceived x (requeueing s) = ⊥

-- A status is still known to the updater: it waits in the buffer, the goroutine holds it, or it is
-- unacknowledged.
abbrev pub Held : Updater → TaskStatus → Type 0
Held u x = In x u.buffer ⊎ IsReceived x u.phase ⊎ (lookup x.uuid u.un_ack_statuses ≡ some x)

abbrev InPhase : TaskStatus → Phase → Type 0
InPhase x idle = ⊥
InPhase x ended = ⊥
InPhase x (received s) = s ≡ x
InPhase x (sending s) = s ≡ x
InPhase x (requeueing s) = s ≡ x

record Inv (u : Updater) : Type 0 where
  unique : (x y : TaskStatus) → In x u.given → In y u.given → x.uuid ≡ y.uuid → x ≡ y
  buffered : (x : TaskStatus) → In x u.buffer → In x u.given
  busy : (x : TaskStatus) → InPhase x u.phase → In x u.given
  held : (x : TaskStatus) → In x u.given → In x.uuid u.acknowledged ⊎ Held u x

abbrev uuid_of : TaskStatus → Str
uuid_of s = s.uuid

start-Inv : (n : ℕ) → Inv (buffered_updater n)
unfolding buffered_updater
start-Inv n = record {
  unique = λ x y h k e. absurd h;
  buffered = λ x h. h;
  busy = λ x h. absurd h;
  held = λ x h. absurd h;
}

enqueue-Inv :
    (u : Updater) (s : TaskStatus)
    → ((x : TaskStatus) → In x u.given → x.uuid ≢ s.uuid)
    → Inv u
    → Inv (enqueue s u)
unfolding enqueue
enqueue-Inv u s fresh i = record {
  unique = λ x y h k e. elim h [
    | inl a ↦ elim k [
      | inl b ↦ sym a ∙ b
      | inr k' ↦ absurd (fresh y k' (sym e ∙ ap uuid_of (sym a)))
    ]
    | inr h' ↦ elim k [
      | inl b ↦ absurd (fresh x h' (e ∙ ap uuid_of (sym b)))
      | inr k' ↦ i.unique x y h' k' e
    ]
  ];
  buffered = λ x h. elim (In-append_cases x u.buffer (s ∷ []) h) [
    | inl old ↦ inr (i.buffered x old)
    | inr new ↦ elim new [ inl e ↦ inl e | inr z ↦ absurd z ]
  ];
  busy = λ x h. inr (i.busy x h);
  held = λ x h. elim h [
    | inl e ↦ inr (inl (In-append_right x u.buffer (s ∷ []) (inl e)))
    | inr h' ↦ elim (i.held x h') [
      | inl a ↦ inl a
      | inr k ↦ elim k [
        | inl b ↦ inr (inl (In-append_left x u.buffer (s ∷ []) b))
        | inr r ↦ inr (inr r)
      ]
    ]
  ];
}

receive-Inv :
    (u : Updater) (s : TaskStatus) (rest : List TaskStatus)
    → u.phase ≡ idle
    → u.buffer ≡ s ∷ rest
    → Inv u
    → Inv (record u { buffer = rest; phase = received s })
receive-Inv u s rest p b i = record {
  unique = i.unique;
  buffered = λ x h. i.buffered x (rw b (inr h));
  busy = λ x e. i.buffered x (rw b (inl e));
  held = λ x h. elim (i.held x h) [
    | inl a ↦ inl a
    | inr k ↦ elim k [
      | inl m ↦ elim (split x m) [ inl e ↦ inr (inr (inl e)) | inr r ↦ inr (inl r) ]
      | inr k' ↦ elim k' [ inl z ↦ absurd (subst (IsReceived x) p z) | inr l ↦ inr (inr (inr l)) ]
    ]
  ];
}
  where
    split : (x : TaskStatus) → In x u.buffer → (s ≡ x) ⊎ In x rest
    split x m = rw b at m

remember-found :
    (u : Updater) (s x : TaskStatus)
    → s ≡ x
    → lookup x.uuid (insert s.uuid s u.un_ack_statuses) ≡ some x
remember-found u s x e =
    subst (λ y. lookup y.uuid (insert s.uuid s u.un_ack_statuses) ≡ some y) e
      (lookup-insert_self s.uuid s u.un_ack_statuses)

remember-kept :
    (u : Updater) (s x : TaskStatus)
    → u.phase ≡ received s
    → Inv u
    → In x u.given
    → lookup x.uuid u.un_ack_statuses ≡ some x
    → lookup x.uuid (insert s.uuid s u.un_ack_statuses) ≡ some x
remember-kept u s x p i h l = elim (Bool-cases (str_eq s.uuid x.uuid)) [
  | inl same ↦ remember-found u s x (
      i.unique s x (i.busy s (subst (InPhase s) (sym p) refl)) h
        ((str_eq_iff s.uuid x.uuid).0 same))
  | inr other ↦ rw (lookup-insert s.uuid x.uuid s u.un_ack_statuses, other) l
]

remember-Inv : (u : Updater) (s : TaskStatus) → u.phase ≡ received s → Inv u → Inv (remember s u)
unfolding remember
remember-Inv u s p i = record {
  unique = i.unique;
  buffered = i.buffered;
  busy = λ x e. i.busy x (subst (InPhase x) (sym p) e);
  held = λ x h. elim (i.held x h) [
    | inl a ↦ inl a
    | inr k ↦ elim k [
      | inl m ↦ inr (inl m)
      | inr k' ↦ elim k' [
        | inl r ↦ inr (inr (inr (remember-found u s x (subst (IsReceived x) p r))))
        | inr l ↦ inr (inr (inr (remember-kept u s x p i h l)))
      ]
    ]
  ];
}

after_send-IsReceived : (x s : TaskStatus) (r : Option Str) → IsReceived x (after_send r s) → ⊥
unfolding after_send
after_send-IsReceived x s none h = h
after_send-IsReceived x s (some e) h = h

after_send-InPhase : (x s : TaskStatus) (r : Option Str) → InPhase x (after_send r s) → s ≡ x
unfolding after_send
after_send-InPhase x s none h = absurd h
after_send-InPhase x s (some e) h = h

sent-Inv :
    (u : Updater) (s : TaskStatus) (response : Option (Option Str)) (error : Option Str)
    → u.phase ≡ sending s
    → Inv u
    → Inv (sent response error s u)
unfolding sent
sent-Inv u s response error p i = record {
  unique = i.unique;
  buffered = i.buffered;
  busy =
      λ x h. i.busy x (subst (InPhase x) (sym p) (after_send-InPhase x s (send response error) h));
  held = λ x h. elim (i.held x h) [
    | inl a ↦ inl a
    | inr k ↦ elim k [
      | inl m ↦ inr (inl m)
      | inr k' ↦ elim k' [ inl r ↦ absurd (subst (IsReceived x) p r) | inr l ↦ inr (inr (inr l)) ]
    ]
  ];
}

requeue-Inv : (u : Updater) (s : TaskStatus) → u.phase ≡ requeueing s → Inv u → Inv (requeue s u)
unfolding requeue
requeue-Inv u s p i = record {
  unique = i.unique;
  buffered = λ x h. elim (In-append_cases x u.buffer (s ∷ []) h) [
    | inl old ↦ i.buffered x old
    | inr new ↦ elim new [ inl e ↦ i.busy x (subst (InPhase x) (sym p) e) | inr z ↦ absurd z ]
  ];
  busy = λ x h. absurd h;
  held = λ x h. elim (i.held x h) [
    | inl a ↦ inl a
    | inr k ↦ elim k [
      | inl m ↦ inr (inl (In-append_left x u.buffer (s ∷ []) m))
      | inr k' ↦ elim k' [ inl r ↦ absurd (subst (IsReceived x) p r) | inr l ↦ inr (inr (inr l)) ]
    ]
  ];
}

acknowledge-Inv : (u : Updater) (id : Str) → Inv u → Inv (acknowledge id u)
unfolding acknowledge
acknowledge-Inv u id i = record {
  unique = i.unique;
  buffered = i.buffered;
  busy = i.busy;
  held = λ x h. elim (i.held x h) [
    | inl a ↦ inl (inr a)
    | inr k ↦ elim k [
      | inl m ↦ inr (inl m)
      | inr k' ↦ elim k' [
        | inl r ↦ inr (inr (inl r))
        | inr l ↦ elim (Bool-cases (str_eq id x.uuid)) [
          | inl same ↦ inl (inl ((str_eq_iff id x.uuid).0 same))
          | inr other ↦ inr (inr (inr (rw (lookup-delete id x.uuid u.un_ack_statuses, other) l)))
        ]
      ]
    ]
  ];
}

idle-Inv :
    (u : Updater) (c : Bool) (phase : Phase)
    → ((x : TaskStatus) → InPhase x phase → InPhase x u.phase)
    → ((x : TaskStatus) → IsReceived x u.phase → IsReceived x phase)
    → Inv u
    → Inv (record u { cancelled = c; phase = phase })
idle-Inv u c phase f g i = record {
  unique = i.unique;
  buffered = i.buffered;
  busy = λ x h. i.busy x (f x h);
  held = λ x h. elim (i.held x h) [
    | inl a ↦ inl a
    | inr k ↦ elim k [
      | inl m ↦ inr (inl m)
      | inr k' ↦ elim k' [ inl r ↦ inr (inr (inl (g x r))) | inr l ↦ inr (inr (inr l)) ]
    ]
  ];
}

Step-Inv : {u v : Updater} → Step u v → Inv u → Inv v
Step-Inv (update u s room fresh) i = enqueue-Inv u s fresh i
Step-Inv (receive u s rest p b) i = receive-Inv u s rest p b i
Step-Inv (remembers u s p) i = remember-Inv u s p i
Step-Inv (sends u s response error p) i = sent-Inv u s response error p i
Step-Inv (requeues u s p room) i = requeue-Inv u s p i
Step-Inv (acknowledges u id) i = acknowledge-Inv u id i
Step-Inv (cancel u) i = idle-Inv u true u.phase (λ x h. h) (λ x h. h) i
Step-Inv (stops u p c) i =
    idle-Inv u u.cancelled ended (λ x h. absurd h) (λ x r. absurd (subst (IsReceived x) p r)) i

Reach-Inv : {u v : Updater} → Inv u → Reach u v → Inv v
Reach-Inv i here = i
Reach-Inv i (next r s) = Step-Inv s (Reach-Inv i r)

-- However updates, acknowledgements, sends that succeed or fail and requeues are interleaved: a
-- status that was handed to the updater has been acknowledged, or the updater still holds it, in
-- the buffer, in the goroutine's hands or among the unacknowledged statuses.
pub no_status_lost :
    (n : ℕ) {u : Updater} (x : TaskStatus)
    → Reach (buffered_updater n) u
    → In x u.given
    → In x.uuid u.acknowledged ⊎ Held u x
no_status_lost n x r h = (Reach-Inv (start-Inv n) r).held x h

-- A status that has left the buffer for good: acknowledged, just received, or unacknowledged.
abbrev pub IsTaken : Updater → TaskStatus → Type 0
IsTaken u x =
    In x.uuid u.acknowledged ⊎ IsReceived x u.phase ⊎ (lookup x.uuid u.un_ack_statuses ≡ some x)

Step-given : {u v : Updater} (x : TaskStatus) → Step u v → In x u.given → In x v.given
unfolding enqueue remember requeue sent acknowledge
Step-given x (update u s room fresh) h = inr h
Step-given x (receive u s rest p b) h = h
Step-given x (remembers u s p) h = h
Step-given x (sends u s response error p) h = h
Step-given x (requeues u s p room) h = h
Step-given x (acknowledges u id) h = h
Step-given x (cancel u) h = h
Step-given x (stops u p c) h = h

-- Only where the goroutine holds a status does a step have to say what becomes of it.
IsTaken-by :
    (u v : Updater) (x : TaskStatus)
    → (In x.uuid u.acknowledged → In x.uuid v.acknowledged)
    → (IsReceived x u.phase → IsTaken v x)
    → (lookup x.uuid u.un_ack_statuses ≡ some x → IsTaken v x)
    → IsTaken u x
    → IsTaken v x
IsTaken-by u v x f g k h = elim h [
  | inl a ↦ inl (f a)
  | inr r ↦ elim r [ inl e ↦ g e | inr l ↦ k l ]
]

Step-IsTaken :
    {u v : Updater} (x : TaskStatus) → Step u v → Inv u → In x u.given → IsTaken u x → IsTaken v x
unfolding enqueue remember requeue sent acknowledge
Step-IsTaken x (update u s room fresh) i g h = h
Step-IsTaken x (receive u s rest p b) i g h =
    IsTaken-by u (record u { buffer = rest; phase = received s }) x (λ a. a)
      (λ r. absurd (subst (IsReceived x) p r)) (λ l. inr (inr l)) h
Step-IsTaken x (remembers u s p) i g h =
    IsTaken-by u (remember s u) x (λ a. a)
      (λ r. inr (inr (remember-found u s x (subst (IsReceived x) p r))))
      (λ l. inr (inr (remember-kept u s x p i g l))) h
Step-IsTaken x (sends u s response error p) i g h =
    IsTaken-by u (sent response error s u) x (λ a. a) (λ r. absurd (subst (IsReceived x) p r))
      (λ l. inr (inr l)) h
Step-IsTaken x (requeues u s p room) i g h =
    IsTaken-by u (requeue s u) x (λ a. a) (λ r. absurd (subst (IsReceived x) p r))
      (λ l. inr (inr l)) h
Step-IsTaken x (acknowledges u id) i g h =
    IsTaken-by u (acknowledge id u) x (λ a. inr a) (λ r. inr (inl r))
      (λ l. elim (Bool-cases (str_eq id x.uuid)) [
        | inl same ↦ inl (inl ((str_eq_iff id x.uuid).0 same))
        | inr other ↦ inr (inr (rw (lookup-delete id x.uuid u.un_ack_statuses, other) l))
      ])
      h
Step-IsTaken x (cancel u) i g h = h
Step-IsTaken x (stops u p c) i g h =
    IsTaken-by u (record u { phase = ended }) x (λ a. a) (λ r. absurd (subst (IsReceived x) p r))
      (λ l. inr (inr l)) h

Reach-IsTaken :
    {u v : Updater} (x : TaskStatus)
    → Reach u v
    → Inv u
    → In x u.given
    → IsTaken u x
    → In x v.given × IsTaken v x
Reach-IsTaken x here i g h = (g, h)
Reach-IsTaken x (next r s) i g h =
    let (g', h') = Reach-IsTaken x r i g h in
    (Step-given x s g', Step-IsTaken x s (Reach-Inv i r) g' h')

-- Whatever happens later, a status that is not in the buffer at one time, and was handed to the
-- updater before, stays taken.
pub no_status_requeued_only :
    (n : ℕ) {u v : Updater} (x : TaskStatus)
    → Reach (buffered_updater n) u
    → Reach u v
    → In x u.given
    → u.buffer ≡ []
    → IsTaken v x
no_status_requeued_only n {u} x before later g empty =
    let i = Reach-Inv (start-Inv n) before in
    (Reach-IsTaken x later i g (elim (i.held x g) [
      | inl a ↦ inl a
      | inr held ↦ elim held [ inl b ↦ absurd (subst (In x) empty b) | inr k ↦ inr k ]
    ])).1
