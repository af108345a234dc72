-- ===== src/Hook/Tests.antt =====
-- The hook manager and the exec hook at concrete hooks.
use mesos_executor.Common.{[], ◌∷◌, Str, codes, err, false, ◌≡◌, refl}
use mesos_executor.Hook.{handle_event}
use mesos_executor.Hook.Manager.{handle_event-stop}
use mesos_executor.Samples.{start_event, grant, refuse}

abbrev first : Str
first = codes "A=1"

abbrev second : Str
second = codes "B=2"

handle_event-stop_example :
    handle_event (grant first ∷ refuse ∷ grant second ∷ []) start_event false 0
    ≡ (2, err (codes "refused"))
handle_event-stop_example =
    handle_event-stop (grant first ∷ []) refuse (grant second ∷ []) start_event 0 (codes "refused")
      (tt, tt) refl
