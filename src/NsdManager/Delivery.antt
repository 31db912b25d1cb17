-- ===== src/NsdManager/Delivery.antt =====
-- QZeroConfNsdManager.java: the instance to which a resolved service is reported.
use qt_zero_conf.NsdManager.{
  Call, ServiceInfo, State, Platform, process_resolver_queue, on_service_resolved,
  on_resolve_failed, service_found, enqueue_resolver, step, run,
}
use qt_zero_conf.NsdManager.Drain.{ending, endings, queue_drains, resolving}
use qt_zero_conf.NsdManager.Queue.{asked, process_cases}
use qt_zero_conf.NsdManager.Single.{NoNull, NoNull-snoc}
use qt_zero_conf.Base.{
  Option, refl, none, ◌∷◌, ◌++◌, [], some, ◌≡◌, ◌≢◌, ◌+◌, ◌==◌, ℕ, suc, List, arith, length,
  if◌then◌else◌,
}
use qt_zero_conf.Text.{Text}

-- The instance whose listener a call hands over, or to which it reports.
abbrev pub called_for : Call → ℕ
called_for (Call.register_service info id) = id
called_for (Call.unregister_service id) = id
called_for (Call.stop_service_discovery id) = id
called_for (Call.discover_services type id) = id
called_for (Call.resolve_service info id) = id
called_for (Call.on_service_resolved_jni id info) = id
called_for (Call.on_service_removed_jni id name) = id
called_for (Call.on_service_name_changed_jni id name) = id
called_for (Call.on_browser_state_changed_jni id running failed) = id
called_for (Call.on_publisher_state_changed_jni id running failed) = id

-- How many of the calls are for an instance.
abbrev pub calls_for : ℕ → List Call → ℕ
calls_for b [] = 0
calls_for b (c ∷ cs) = (if called_for c == b then 1 else 0) + calls_for b cs

calls_for-append :
    (b : ℕ) (cs ds : List Call) → calls_for b (cs ++ ds) ≡ calls_for b cs + calls_for b ds
calls_for-append b [] ds = omega arith
calls_for-append b (c ∷ cs) ds = omega (arith, calls_for-append b cs ds)

-- The listeners are of other instances.
abbrev pub AreOthers : ℕ → List (ℕ × Option ServiceInfo) → Type 0
AreOthers b [] = Unit {0}
AreOthers b ((id, end) ∷ es) = (id ≢ b) × AreOthers b es

process-own : (s : State) (id b : ℕ) → id ≢ b → calls_for b (process_resolver_queue s id).1 ≡ 0
unfolding process_resolver_queue
process-own s id b other =
    process_cases (λ q. calls_for b q.1 ≡ 0) s id (λ e. refl) (λ pending e. refl)
      (λ info infos e p. ground (arith, other))

-- An end of a resolution that the listener of an instance is told of makes no call for another.
ending-own :
    (p : Platform) (s : State) (id b : ℕ) (end : Option ServiceInfo)
    → id ≢ b
    → calls_for b (step p s (ending (id, end))).1 ≡ 0
unfolding step on_resolve_failed on_service_resolved
ending-own p s id b none other = process-own (record s { pending_resolve = none }) id b other
ending-own p s id b (some info) other =
    ground (arith, other, process-own (record s { pending_resolve = none }) id b other)

endings-own :
    (p : Platform) (s : State) (b : ℕ) (es : List (ℕ × Option ServiceInfo))
    → AreOthers b es
    → calls_for b (run p s (endings es)).1 ≡ 0
unfolding run
endings-own p s b [] others = refl
endings-own p s b ((id, end) ∷ es) others =
    let q = step p s (ending (id, end)) in
    omega (
      arith,
      ending-own p s id b end others.0,
      endings-own p q.0 b es others.1,
      calls_for-append b q.1 (run p q.0 (endings es)).1,
    )

-- While a service is being resolved, one that is found waits behind the others.
found_waits :
    (p : Platform) (busy info : ServiceInfo) (waiting : List (Option ServiceInfo))
    (names : ℕ → Option Text) (b : ℕ)
    → step p (resolving busy waiting names) (service_found b info)
      ≡ (resolving busy (waiting ++ some info ∷ []) names, [])
unfolding step enqueue_resolver process_resolver_queue
found_waits p busy info [] names b = refl
found_waits p busy info (w ∷ waiting) names b = refl

-- While a service is being resolved and others, none of them null, wait, the instance `b` finds the
-- service `info`. Then as many resolutions end as services wait, and one more, and the listeners
-- that are told of it are all of other instances. Every service that waited is resolved, and `info`
-- last of all; but no call is for `b`: neither is `info` resolved with a listener of `b`, nor is
-- anything reported to `b`.
pub found_by_other :
    (p : Platform) (busy info : ServiceInfo) (waiting : List (Option ServiceInfo))
    (names : ℕ → Option Text) (b : ℕ) (es : List (ℕ × Option ServiceInfo))
    → NoNull waiting
    → AreOthers b es
    → length es ≡ suc (length (waiting ++ some info ∷ []))
    → let q = run p (resolving busy waiting names) (service_found b info ∷ endings es) in
      (asked q.1 ≡ waiting ++ some info ∷ []) × (calls_for b q.1 ≡ 0)
unfolding run
found_by_other p busy info waiting names b es given others n =
    rw (found_waits p busy info waiting names b) (
      (queue_drains p busy (waiting ++ some info ∷ []) names es
          (NoNull-snoc waiting (some info) (λ e. cc) given) n).2,
      endings-own p (resolving busy (waiting ++ some info ∷ []) names) b es others,
    )
