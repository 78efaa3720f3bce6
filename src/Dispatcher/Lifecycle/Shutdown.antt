-- ===== src/Dispatcher/Lifecycle/Shutdown.antt =====
-- internal/core/dispatcher.go: what `Shutdown` leaves behind.
use jobx.Prelude.{◌≡◌, refl, ap, Option, none, some, arith}
use jobx.Errors.{Error}
use jobx.Dispatcher.State.{Dispatcher}
use jobx.Dispatcher.Lifecycle.{
  WaitEnd, wait_workers, shut_down_once, first_result, stored_result, shutdown,
}

-- After the `shutdownOnce` its result is stored.
first_result-stored :
    (o : Option (Option Error)) (wait : WaitEnd) (d : Dispatcher)
    → d.shutdown_result ≡ o
    → (e : Option Error) × ((first_result o wait d).shutdown_result ≡ some e)
unfolding first_result shut_down_once wait_workers
first_result-stored none wait d h = (_, refl)
first_result-stored (some e) wait d h = (e, h)

first_result-again :
    (e : Option Error) (o : Option (Option Error)) (wait : WaitEnd) (d : Dispatcher)
    → o ≡ some e
    → first_result o wait d ≡ d
unfolding first_result
first_result-again e o wait d h = ground arith

-- A second `Shutdown` returns the error of the first one and changes nothing.
shutdown-again :
    (first second : WaitEnd) (d : Dispatcher)
    → shutdown second (shutdown first d).1 ≡ shutdown first d
unfolding shutdown
shutdown-again first second d =
    let (e, stored) = first_result-stored d.shutdown_result first d refl in
    ap (λ x. (stored_result x.shutdown_result, x))
      (first_result-again e _ second (first_result d.shutdown_result first d) stored)
