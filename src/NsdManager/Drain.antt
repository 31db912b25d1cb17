-- ===== src/NsdManager/Drain.antt =====
-- QZeroConfNsdManager.java: the queue is worked off.
use qt_zero_conf.Base.{
  refl, ap, arith, suc, ◌≡◌, length, none, some, false, [], ◌∷◌, Option, ℕ, List,
}
use qt_zero_conf.NsdManager.{
  Platform, service_resolved, process_resolver_queue, State, on_resolve_failed, resolve_failed,
  Entry, on_service_resolved, step, ServiceInfo, run,
}
use qt_zero_conf.Text.{Text}
use qt_zero_conf.NsdManager.Single.{NoNull}
use qt_zero_conf.NsdManager.Queue.{asked}

-- How a resolution ends for good: the listener of an instance is given the service, or the resolution
-- fails, and not because another is active.
abbrev pub ending : ℕ × Option ServiceInfo → Entry
ending (id, none) = resolve_failed id false
ending (id, some info) = service_resolved id info

abbrev pub endings : List (ℕ × Option ServiceInfo) → List Entry
endings [] = []
endings (e ∷ es) = ending e ∷ endings es

-- A service is being resolved, and others wait.
abbrev pub resolving : ServiceInfo → List (Option ServiceInfo) → (ℕ → Option Text) → State
resolving busy waiting names = record {
  resolver_queue = waiting;
  pending_resolve = some busy;
  registration_name = names;
}

-- When as many resolutions end as services wait, and one more, every service that waited was asked
-- for, in order, none waits any more and none is being resolved.
pub queue_drains :
    (p : Platform) (busy : ServiceInfo) (waiting : List (Option ServiceInfo))
    (names : ℕ → Option Text) (es : List (ℕ × Option ServiceInfo))
    → NoNull waiting
    → length es ≡ suc (length waiting)
    → let q = run p (resolving busy waiting names) (endings es) in
      (q.0.resolver_queue ≡ []) × (q.0.pending_resolve ≡ none) × (asked q.1 ≡ waiting)
unfolding run step on_service_resolved on_resolve_failed process_resolver_queue
queue_drains p busy waiting names [] h n = absurd (omega (arith, n))
queue_drains p busy [] names ((id, none) ∷ []) h n = (refl, refl, refl)
queue_drains p busy [] names ((id, some info) ∷ []) h n = (refl, refl, refl)
queue_drains p busy [] names (e ∷ f ∷ es) h n = absurd (omega (arith, n))
queue_drains p busy (none ∷ waiting) names (e ∷ es) h n = absurd h
queue_drains p busy (some info ∷ waiting) names ((id, none) ∷ es) h n =
    let rest = queue_drains p info waiting names es h (omega (arith, n)) in
    (rest.0, rest.1, ap (λ l. some info ∷ l) rest.2)
queue_drains p busy (some info ∷ waiting) names ((id, some done) ∷ es) h n =
    let rest = queue_drains p info waiting names es h (omega (arith, n)) in
    (rest.0, rest.1, ap (λ l. some info ∷ l) rest.2)
