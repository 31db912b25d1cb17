-- ===== src/NsdManager/Single.antt =====
-- QZeroConfNsdManager.java: "There can only be one resolver at a time per application".
use qt_zero_conf.Base.{
  subst, sym, ◌∙◌, false, length-append, ap, true, refl, ◌≤◌, arith, length, ◌≢◌, ◌+◌, [], suc,
  some, ◌++◌, none, ◌∷◌, ◌≡◌, ℕ, Option, List,
}
use qt_zero_conf.NsdManager.{
  unregistration_failed, service_unregistered, registration_failed, service_lost,
  stop_discovery_failed, start_discovery_failed, discovery_stopped, discovery_started, discovers,
  stops_discovery, unregisters, service_registered, service_found, registers, on_service_resolved,
  do_register_service, run, enqueue_resolver, next_resolve, resolve_service, on_resolve_failed,
  resolve_failed, step, Call, process_resolver_queue, service_resolved, Entry, ServiceInfo,
  Platform, State,
}
use qt_zero_conf.NsdManager.Queue.{asked-registered, asked-append, asked, process_cases}

-- No null waits.
abbrev pub NoNull : List (Option ServiceInfo) → Type 0
NoNull [] = Unit {0}
NoNull (none ∷ l) = ⊥
NoNull (some info ∷ l) = NoNull l

-- A service waits only while another is being resolved, and none that waits is null.
pub record IsValid (s : State) : Type 0 where
  pub busy : s.pending_resolve ≡ none → s.resolver_queue ≡ []
  pub no_null : NoNull s.resolver_queue

-- A resolve listener is called only while a service is being resolved.
abbrev pub Allowed : State → Entry → Type 0
Allowed s (service_resolved id info) = s.pending_resolve ≢ none
Allowed s (resolve_failed id already_active) = s.pending_resolve ≢ none
Allowed s _ = Unit {0}

abbrev pub AllowedAll : Platform → State → List Entry → Type 0
AllowedAll p s [] = Unit {0}
AllowedAll p s (e ∷ es) = Allowed s e × AllowedAll p (step p s e).0 es

-- How many services are being resolved.
abbrev pub active : Option ServiceInfo → ℕ
active none = 0
active (some info) = 1

-- How many resolutions come to an end.
abbrev pub ended : List Entry → ℕ
ended [] = 0
ended (service_resolved id info ∷ es) = suc (ended es)
ended (resolve_failed id already_active ∷ es) = suc (ended es)
ended (_ ∷ es) = ended es

pub NoNull-snoc :
    (l : List (Option ServiceInfo)) (info : Option ServiceInfo)
    → info ≢ none
    → NoNull l
    → NoNull (l ++ info ∷ [])
NoNull-snoc [] none given h = absurd (given refl)
NoNull-snoc [] (some i) given h = tt
NoNull-snoc (none ∷ l) info given h = h
NoNull-snoc (some i ∷ l) info given h = NoNull-snoc l info given h

-- What is asked for is resolved from then on: of what was active and what is asked for, `n` end.
abbrev pub Keeps : State → ℕ → State × List Call → Type 0
Keeps s n q =
    IsValid q.0 × (active s.pending_resolve + length (asked q.1) ≡ n + active q.0.pending_resolve)

next-Keeps :
    (s : State) (id : ℕ) (info : Option ServiceInfo) (infos : List (Option ServiceInfo))
    → s.pending_resolve ≡ none
    → NoNull (info ∷ infos)
    → Keeps s 0
        (record s { resolver_queue = infos; pending_resolve = info }, resolve_service info id ∷ [])
next-Keeps s id none infos e h = absurd h
next-Keeps s id (some info) infos e h = (record { busy = λ n. cc; no_null = h }, rw e refl)

-- A queue with no null, whether a service is being resolved or not.
process-Keeps :
    (s : State) (id : ℕ) → NoNull s.resolver_queue → Keeps s 0 (process_resolver_queue s id)
process-Keeps s id h =
    process_cases (Keeps s 0) s id (λ e. (record { busy = λ _. e; no_null = h }, omega arith))
      (λ pending e. (record { busy = λ n. cc; no_null = h }, omega arith))
      (λ info infos e p. next-Keeps s id info infos p (rw e at h))

enqueue-Keeps :
    (s : State) (id : ℕ) (info : Option ServiceInfo)
    → info ≢ none
    → NoNull s.resolver_queue
    → Keeps s 0 (enqueue_resolver s id info)
unfolding enqueue_resolver
enqueue-Keeps s id info given h =
    process-Keeps (record s { resolver_queue = s.resolver_queue ++ info ∷ [] }) id
      (NoNull-snoc s.resolver_queue info given h)

active_cases : (o : Option ServiceInfo) → o ≢ none → active o ≡ 1
active_cases none h = absurd (h refl)
active_cases (some info) h = refl

active_le : (o : Option ServiceInfo) → active o ≤ 1
active_le none = omega arith
active_le (some info) = omega arith

-- The service that was being resolved is dropped.
drop-Keeps :
    (s : State) (id : ℕ)
    → s.pending_resolve ≢ none
    → NoNull s.resolver_queue
    → Keeps s 1 (next_resolve s id)
drop-Keeps s id ok h =
    let next = process-Keeps (record s { pending_resolve = none }) id h in
    (next.0, omega (arith, next.1, active_cases s.pending_resolve ok))

again-Keeps :
    (s : State) (id : ℕ)
    → s.pending_resolve ≢ none
    → NoNull s.resolver_queue
    → Keeps s 1 (on_resolve_failed s id true)
unfolding on_resolve_failed
again-Keeps s id ok h =
    let q = enqueue_resolver s id s.pending_resolve in
    let first = enqueue-Keeps s id s.pending_resolve ok h in
    let next = process-Keeps (record q.0 { pending_resolve = none }) id first.0.no_null in
    let more = (next_resolve q.0 id).1 in
    (
      next.0,
      omega (
        arith,
        first.1,
        next.1,
        active_cases s.pending_resolve ok,
        active_le q.0.pending_resolve,
        ap length (asked-append q.1 more),
        length-append (asked q.1) (asked more),
      ),
    )

-- Nothing is asked for and the static members are those of before.
aside-Keeps :
    (s : State) (q : State × List Call)
    → (q.0.resolver_queue ≡ s.resolver_queue)
      × (q.0.pending_resolve ≡ s.pending_resolve)
      × (asked q.1 ≡ [])
    → IsValid s
    → Keeps s 0 q
aside-Keeps s q same v = (
  record {
    busy = λ n. same.0 ∙ v.busy (sym same.1 ∙ n);
    no_null = subst NoNull (sym same.0) v.no_null;
  },
  rw (same.1, same.2) (omega arith),
)

-- How many resolutions an entry ends.
abbrev pub ends : Entry → ℕ
ends e = ended (e ∷ [])

step-Keeps :
    (p : Platform) (s : State) (e : Entry) → Allowed s e → IsValid s → Keeps s (ends e) (step p s e)
unfolding step do_register_service on_service_resolved on_resolve_failed
step-Keeps p s (registers id name type port txt true) ok v =
    aside-Keeps s (step p s (registers id name type port txt true)) (refl, refl, refl) v
step-Keeps p s (registers id name type port txt false) ok v =
    aside-Keeps s (step p s (registers id name type port txt false)) (refl, refl, refl) v
step-Keeps p s (service_found id info) ok v = enqueue-Keeps s id (some info) (λ e. cc) v.no_null
step-Keeps p s (service_resolved id info) ok v = drop-Keeps s id ok v.no_null
step-Keeps p s (service_registered id info) ok v =
    aside-Keeps s (step p s (service_registered id info)) (refl, refl, asked-registered s id info) v
step-Keeps p s (resolve_failed id true) ok v = again-Keeps s id ok v.no_null
step-Keeps p s (resolve_failed id false) ok v = drop-Keeps s id ok v.no_null
step-Keeps p s (unregisters id) ok v =
    aside-Keeps s (step p s (unregisters id)) (refl, refl, refl) v
step-Keeps p s (stops_discovery id) ok v =
    aside-Keeps s (step p s (stops_discovery id)) (refl, refl, refl) v
step-Keeps p s (discovers id type) ok v =
    aside-Keeps s (step p s (discovers id type)) (refl, refl, refl) v
step-Keeps p s (discovery_started id) ok v =
    aside-Keeps s (step p s (discovery_started id)) (refl, refl, refl) v
step-Keeps p s (discovery_stopped id) ok v =
    aside-Keeps s (step p s (discovery_stopped id)) (refl, refl, refl) v
step-Keeps p s (start_discovery_failed id) ok v =
    aside-Keeps s (step p s (start_discovery_failed id)) (refl, refl, refl) v
step-Keeps p s (stop_discovery_failed id) ok v =
    aside-Keeps s (step p s (stop_discovery_failed id)) (refl, refl, refl) v
step-Keeps p s (service_lost id info) ok v =
    aside-Keeps s (step p s (service_lost id info)) (refl, refl, refl) v
step-Keeps p s (registration_failed id) ok v =
    aside-Keeps s (step p s (registration_failed id)) (refl, refl, refl) v
step-Keeps p s (service_unregistered id) ok v =
    aside-Keeps s (step p s (service_unregistered id)) (refl, refl, refl) v
step-Keeps p s (unregistration_failed id) ok v =
    aside-Keeps s (step p s (unregistration_failed id)) (refl, refl, refl) v

ended-cons : (e : Entry) (es : List Entry) → ended (e ∷ es) ≡ ends e + ended es
ended-cons (service_resolved id info) es = omega arith
ended-cons (resolve_failed id already_active) es = omega arith
ended-cons _ es = omega arith

-- If resolve listeners are called only while a service is being resolved, then after any entries
-- from a valid state no service waits unless another is being resolved, and the services that were
-- asked for are as many as the resolutions that ended, with the one that is being resolved, if
-- there is one: there is never a second.
pub run-Keeps :
    (p : Platform) (s : State) (es : List Entry)
    → AllowedAll p s es
    → IsValid s
    → Keeps s (ended es) (run p s es)
unfolding run
run-Keeps p s [] ok v = (v, omega arith)
run-Keeps p s (e ∷ es) ok v =
    let now = step-Keeps p s e ok.0 v in
    let later = run-Keeps p (step p s e).0 es ok.1 now.0 in
    let made = (step p s e).1 in
    let more = (run p (step p s e).0 es).1 in
    (
      later.0,
      omega (
        arith,
        now.1,
        later.1,
        ended-cons e es,
        ap length (asked-append made more),
        length-append (asked made) (asked more),
      ),
    )
