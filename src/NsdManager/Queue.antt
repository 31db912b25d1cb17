-- ===== src/NsdManager/Queue.antt =====
-- QZeroConfNsdManager.java: the order in which found services are resolved, one at a time.
use qt_zero_conf.Base.{
  arith, false, sym, Option-cases, inr, refl, ap, true, inl, ◌∙◌, none, ◌∷◌, ◌⊎◌, append_assoc,
  append-nil, some, ◌++◌, [], Option, ℕ, ◌≡◌, List,
}
use qt_zero_conf.NsdManager.{
  next_resolve, on_resolve_failed, on_service_resolved, do_register_service, run,
  on_service_registered, unregistration_failed, service_unregistered, registration_failed,
  service_lost, on_publisher_state_changed_jni, stop_discovery_failed, on_browser_state_changed_jni,
  start_discovery_failed, on_service_name_changed_jni, discovery_stopped, on_service_removed_jni,
  on_service_resolved_jni, discovery_started, discover_services, discovers, stop_service_discovery,
  stops_discovery, unregister_service, unregisters, register_service, service_registered,
  resolve_failed, resolve_service, service_resolved, service_found, registers,
  process_resolver_queue, ServiceInfo, Platform, Entry, Call, State, enqueue_resolver, step,
}

-- What is handed to resolveService, in order.
abbrev pub asked : List Call → List (Option ServiceInfo)
asked [] = []
asked (resolve_service info id ∷ cs) = info ∷ asked cs
asked (_ ∷ cs) = asked cs

pub asked-append : (cs ds : List Call) → asked (cs ++ ds) ≡ asked cs ++ asked ds
asked-append [] ds = refl
asked-append (resolve_service info id ∷ cs) ds = ap (λ l. info ∷ l) (asked-append cs ds)
asked-append (register_service info id ∷ cs) ds = asked-append cs ds
asked-append (unregister_service id ∷ cs) ds = asked-append cs ds
asked-append (stop_service_discovery id ∷ cs) ds = asked-append cs ds
asked-append (discover_services type id ∷ cs) ds = asked-append cs ds
asked-append (on_service_resolved_jni id info ∷ cs) ds = asked-append cs ds
asked-append (on_service_removed_jni id name ∷ cs) ds = asked-append cs ds
asked-append (on_service_name_changed_jni id name ∷ cs) ds = asked-append cs ds
asked-append (on_browser_state_changed_jni id running err ∷ cs) ds = asked-append cs ds
asked-append (on_publisher_state_changed_jni id running err ∷ cs) ds = asked-append cs ds

-- What an entry puts behind the queue: a service that is found, and one whose resolution fails
-- because another is active.
abbrev pub joins : State → Entry → List (Option ServiceInfo)
joins s (service_found id info) = some info ∷ []
joins s (resolve_failed id true) = s.pending_resolve ∷ []
joins s _ = []

-- An operation asks for services from the front of the queue, and puts others behind it.
abbrev pub TakesInOrder : State → List (Option ServiceInfo) → State × List Call → Type 0
TakesInOrder s new q = asked q.1 ++ q.0.resolver_queue ≡ s.resolver_queue ++ new

List-cases {ℓ} : {A : Type ℓ} (l : List A) → (l ≡ []) ⊎ ((a : A) × (rest : List A) × (l ≡ a ∷ rest))
List-cases [] = inl refl
List-cases (a ∷ rest) = inr (a, rest, refl)

module _ {ℓ} (P : State × List Call → Type ℓ) (s : State) (id : ℕ) where
  pub process_cases :
      (s.resolver_queue ≡ [] → P (s, []))
      → ((pending : ServiceInfo) → s.pending_resolve ≡ some pending → P (s, []))
      → ((info : Option ServiceInfo) (infos : List (Option ServiceInfo))
          → s.resolver_queue ≡ info ∷ infos
          → s.pending_resolve ≡ none
          → P (
            record s { resolver_queue = infos; pending_resolve = info },
            resolve_service info id ∷ [],
          ))
      → P (process_resolver_queue s id)
  unfolding process_resolver_queue
  process_cases empty busy next = elim (List-cases s.resolver_queue) [
    | inl e ↦ rw (e, process_resolver_queue) (empty e)
    | inr (info, infos, e) ↦ elim (Option-cases s.pending_resolve) [
      | inl p ↦ rw (e, p, process_resolver_queue) (next info infos e p)
      | inr (pending, p) ↦ rw (e, p, process_resolver_queue) (busy pending p)
    ]
  ]

process-TakesInOrder : (s : State) (id : ℕ) → TakesInOrder s [] (process_resolver_queue s id)
process-TakesInOrder s id =
    process_cases (TakesInOrder s []) s id (λ e. rw (e, append-nil) refl)
      (λ pending e. rw append-nil refl) (λ info infos e p. rw (e, append-nil) refl)

enqueue-TakesInOrder :
    (s : State) (id : ℕ) (info : Option ServiceInfo)
    → TakesInOrder s (info ∷ []) (enqueue_resolver s id info)
unfolding enqueue_resolver
enqueue-TakesInOrder s id info =
    process-TakesInOrder (record s { resolver_queue = s.resolver_queue ++ info ∷ [] }) id
    ∙ append-nil (s.resolver_queue ++ info ∷ [])

-- Two operations one after the other.
both-TakeInOrder :
    (s : State) (a b : List (Option ServiceInfo)) (p q : State × List Call)
    → TakesInOrder s a p
    → TakesInOrder p.0 b q
    → TakesInOrder s (a ++ b) (q.0, p.1 ++ q.1)
both-TakeInOrder s a b p q f g =
    ap (λ l. l ++ q.0.resolver_queue) (asked-append p.1 q.1)
    ∙ append_assoc (asked p.1) (asked q.1) q.0.resolver_queue
    ∙ ap (λ l. asked p.1 ++ l) g
    ∙ sym (append_assoc (asked p.1) p.0.resolver_queue b)
    ∙ ap (λ l. l ++ b) f
    ∙ append_assoc s.resolver_queue a b

pub asked-registered :
    (s : State) (id : ℕ) (info : ServiceInfo) → asked (on_service_registered s id info) ≡ []
unfolding on_service_registered
asked-registered s id info = ground arith

step-TakesInOrder : (p : Platform) (s : State) (e : Entry) → TakesInOrder s (joins s e) (step p s e)
unfolding step do_register_service on_service_resolved on_resolve_failed
step-TakesInOrder p s (registers id name type port txt true) = sym (append-nil s.resolver_queue)
step-TakesInOrder p s (registers id name type port txt false) = sym (append-nil s.resolver_queue)
step-TakesInOrder p s (service_found id info) = enqueue-TakesInOrder s id (some info)
step-TakesInOrder p s (service_resolved id info) =
    process-TakesInOrder (record s { pending_resolve = none }) id
step-TakesInOrder p s (service_registered id info) =
    rw (asked-registered s id info) (sym (append-nil s.resolver_queue))
step-TakesInOrder p s (resolve_failed id true) =
    let q = enqueue_resolver s id s.pending_resolve in
    both-TakeInOrder s (s.pending_resolve ∷ []) [] q (next_resolve q.0 id)
      (enqueue-TakesInOrder s id s.pending_resolve)
      (process-TakesInOrder (record q.0 { pending_resolve = none }) id)
step-TakesInOrder p s (resolve_failed id false) =
    process-TakesInOrder (record s { pending_resolve = none }) id
step-TakesInOrder p s (unregisters id) = sym (append-nil s.resolver_queue)
step-TakesInOrder p s (stops_discovery id) = sym (append-nil s.resolver_queue)
step-TakesInOrder p s (discovers id type) = sym (append-nil s.resolver_queue)
step-TakesInOrder p s (discovery_started id) = sym (append-nil s.resolver_queue)
step-TakesInOrder p s (discovery_stopped id) = sym (append-nil s.resolver_queue)
step-TakesInOrder p s (start_discovery_failed id) = sym (append-nil s.resolver_queue)
step-TakesInOrder p s (stop_discovery_failed id) = sym (append-nil s.resolver_queue)
step-TakesInOrder p s (service_lost id info) = sym (append-nil s.resolver_queue)
step-TakesInOrder p s (registration_failed id) = sym (append-nil s.resolver_queue)
step-TakesInOrder p s (service_unregistered id) = sym (append-nil s.resolver_queue)
step-TakesInOrder p s (unregistration_failed id) = sym (append-nil s.resolver_queue)

-- All that entries put behind the queue.
abbrev pub joins_all : Platform → State → List Entry → List (Option ServiceInfo)
joins_all p s [] = []
joins_all p s (e ∷ es) = joins s e ++ joins_all p (step p s e).0 es

-- Over any entries, the services that are asked for, in order, and then those that still wait are
-- the services that waited before and then those that were found, in order, with each service whose
-- resolution failed because another was active once more at its end.
pub run-TakesInOrder :
    (p : Platform) (s : State) (es : List Entry) → TakesInOrder s (joins_all p s es) (run p s es)
unfolding run
run-TakesInOrder p s [] = sym (append-nil s.resolver_queue)
run-TakesInOrder p s (e ∷ es) =
    both-TakeInOrder s (joins s e) (joins_all p (step p s e).0 es) (step p s e)
      (run p (step p s e).0 es) (step-TakesInOrder p s e) (run-TakesInOrder p (step p s e).0 es)
