-- ===== src/Updater/Tests.antt =====
-- Runs of the updater.
use mesos_executor.Common.{
  delete, insert, str_eq, none, some, [], ◌∷◌, codes, true, false, ◌≡◌, ◌≢◌, ap, ◌∙◌, inr, refl,
  ◌⊎◌, inl, In, arith, ok,
}
use mesos_executor.Mesos.{task_running, task_failed}
use mesos_executor.Executor.{plain}
use mesos_executor.Updater.{
  Updater, TaskStatus, received, requeueing, buffered_updater, enqueue, acknowledge, remember, sent,
  wait_tick, Step, update, receive, remembers, sends, acknowledges, cancel, Reach, here, next,
}
use mesos_executor.Updater.Delivery.{Held, IsReceived, no_status_lost}
use mesos_executor.Updater.Waiting.{wait-acknowledged, wait_too_early}
use mesos_executor.Updater.Blocking.{IsBlocked, Reach-IsBlocked}

abbrev running_status : TaskStatus
running_status = record { uuid = codes "u1"; report = plain (codes "web.1") task_running }

abbrev failed_status : TaskStatus
failed_status = record { uuid = codes "u2"; report = plain (codes "web.1") task_failed }

abbrev updated_once : Updater
updated_once = enqueue running_status (buffered_updater 2)

abbrev receiving : Updater
receiving = record updated_once { buffer = []; phase = received running_status }

run_to_receiving : Reach (buffered_updater 2) receiving
unfolding buffered_updater enqueue
run_to_receiving =
    next (next here (update (buffered_updater 2) running_status (omega arith) (λ x h. absurd h)))
      (receive updated_once running_status [] refl refl)

no_status_lost_example : In (codes "u1") receiving.acknowledged ⊎ Held receiving running_status
unfolding buffered_updater enqueue
no_status_lost_example = no_status_lost 2 running_status run_to_receiving (inl refl)

abbrev delivered : Updater
delivered =
    acknowledge (codes "u1")
      (sent (some none) none running_status (remember running_status receiving))

run_to_delivered : Reach (buffered_updater 2) delivered
unfolding buffered_updater enqueue remember sent
run_to_delivered =
    next
      (next (next run_to_receiving (remembers receiving running_status refl))
        (sends (remember running_status receiving) running_status (some none) none refl))
      (acknowledges (sent (some none) none running_status (remember running_status receiving))
        (codes "u1"))

-- A status that is handed over between the two reads is not spoken of.
abbrev updated_again : Updater
updated_again = enqueue failed_status delivered

fresh_uuid : (x : TaskStatus) → In x delivered.given → x.uuid ≢ failed_status.uuid
unfolding buffered_updater enqueue remember sent acknowledge
fresh_uuid x h same = elim h [
  | inl e ↦ absurd (u1≢u2 (ap (λ (y : TaskStatus). y.uuid) e ∙ same))
  | inr z ↦ absurd z
]
  where
    u1≢u2 : codes "u1" ≢ codes "u2"
    u1≢u2 e = absurd (ground arith)

wait-acknowledged_example :
    In (codes "u1") updated_again.acknowledged ⊎ IsReceived running_status updated_again.phase
unfolding buffered_updater enqueue remember sent acknowledge wait_tick delete insert str_eq
wait-acknowledged_example =
    wait-acknowledged 2 false updated_again updated_again running_status run_to_delivered
      (next here (update delivered failed_status (omega arith) fresh_uuid)) refl (inl refl)

wait_too_early_example :
    (v : Updater) × Step updated_once v
    × (v.phase ≡ received running_status)
    × (wait_tick false v v v v ≡ some (ok tt))
unfolding buffered_updater enqueue
wait_too_early_example = wait_too_early updated_once running_status false refl refl refl

-- A buffer of one status that is full while another one is put back.
abbrev full : Updater
full = record (buffered_updater 1) {
  buffer = running_status ∷ [];
  phase = requeueing failed_status;
}

abbrev full_cancelled : Updater
full_cancelled = record full { cancelled = true }

Reach-IsBlocked_example : IsBlocked failed_status (running_status ∷ []) full_cancelled
unfolding buffered_updater
Reach-IsBlocked_example =
    Reach-IsBlocked failed_status (running_status ∷ []) (next here (cancel full))
      (refl, refl, omega arith)
