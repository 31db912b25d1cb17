-- ===== src/NsdManager/Tests.antt =====
-- QZeroConfNsdManager.java with concrete services.
use qt_zero_conf.NsdManager.{
  on_service_resolved, on_resolve_failed, service_resolved, resolve_failed, process_resolver_queue,
  enqueue_resolver, service_found, ServiceInfo, run, step, Entry, new_state, Platform, State,
}
use qt_zero_conf.Base.{arith, false, none, ◌≡◌, true, [], ◌∷◌, refl, ◌++◌, some, ℕ, List}
use qt_zero_conf.NsdManager.Single.{run-Keeps, Keeps, IsValid}
use qt_zero_conf.NsdManager.Queue.{asked, run-TakesInOrder, TakesInOrder}
use qt_zero_conf.NsdManager.Delivery.{found_by_other, calls_for}
use qt_zero_conf.NsdManager.Drain.{queue_drains, resolving}

abbrev service : ℕ → ServiceInfo
service n = record {
  name = n ∷ [];
  type = b't' ∷ [];
  host_name = [];
  address = [];
  port = 80;
  attributes = [];
}

abbrev append_attribute : Platform
append_attribute = record { set_attribute = λ m key value. m ++ (key, value) ∷ [] }

abbrev busy : State
busy = record new_state { pending_resolve = some (service 1) }

-- Two services are found, the first fails because another is active, and the second is resolved.
abbrev life : List Entry
life =
    service_found 7 (service 1)
    ∷ service_found 8 (service 2)
    ∷ resolve_failed 7 true
    ∷ service_resolved 7 (service 2)
    ∷ []

new_state-IsValid : IsValid new_state
unfolding new_state
new_state-IsValid = record { busy = λ _. refl; no_null = tt }

run-TakesInOrder_example :
    TakesInOrder new_state
      (some (service 1) ∷ some (service 2) ∷ some (service 1) ∷ [])
      (run append_attribute new_state life)
unfolding new_state step enqueue_resolver process_resolver_queue
run-TakesInOrder_example = run-TakesInOrder append_attribute new_state life

run-Keeps_example : Keeps new_state 2 (run append_attribute new_state life)
unfolding new_state step enqueue_resolver process_resolver_queue on_resolve_failed
    on_service_resolved
run-Keeps_example =
    run-Keeps append_attribute new_state life (tt, (tt, (λ e. cc, (λ e. cc, tt)))) new_state-IsValid

found_by_other_example :
    let q = run append_attribute (resolving (service 1) [] (λ id. none)) (
      service_found 8 (service 2)
      ∷ service_resolved 7 (service 1)
      ∷ service_resolved 7 (service 2)
      ∷ []) in
    (asked q.1 ≡ some (service 2) ∷ []) × (calls_for 8 q.1 ≡ 0)
found_by_other_example =
    found_by_other append_attribute (service 1) (service 2) [] (λ id. none) 8
      ((7, some (service 1)) ∷ (7, some (service 2)) ∷ []) tt (omega arith, (omega arith, tt)) refl

queue_drains_example :
    let q =
      run append_attribute
        (resolving (service 1) (some (service 2) ∷ []) (λ id. none))
        (service_resolved 7 (service 1) ∷ resolve_failed 7 false ∷ []) in
    (q.0.resolver_queue ≡ []) × (q.0.pending_resolve ≡ none) × (asked q.1 ≡ some (service 2) ∷ [])
queue_drains_example =
    queue_drains append_attribute (service 1) (some (service 2) ∷ []) (λ id. none)
      ((7, some (service 1)) ∷ (7, none) ∷ []) tt refl
