-- ===== src/NsdManager.antt =====
-- QZeroConfNsdManager.java: the Java side of the Android wrapper, over android.net.nsd.NsdManager.
-- The queue of services to resolve and the one that is being resolved are static: all instances
-- share them. An instance is named by the `id` that it was made with.
pub mod Queue
pub mod Single
pub mod Drain
pub mod Delivery
mod Tests
use qt_zero_conf.Base.{
  ℕ, Bool, true, false, ◌==◌, List, [], ◌∷◌, ◌++◌, Option, none, some, if◌then◌else◌,
}
use qt_zero_conf.Text.{Text, text_eq}
use qt_zero_conf.QMap.{QMap}

-- NsdServiceInfo, of which the parts that are not set are empty.
pub record ServiceInfo : Type 0 where
  pub name : Text
  pub type : Text
  pub host_name : Text
  pub address : Text
  pub port : ℕ
  pub attributes : QMap Text

-- What NsdServiceInfo.setAttribute makes of the attributes.
pub record Platform : Type 0 where
  pub set_attribute : QMap Text → Text → Text → QMap Text

-- The calls of NsdManager, each with the instance whose listener it hands over, and the native
-- methods, each with the `id` that it is given.
pub data Call : Type 0 where
  register_service : ServiceInfo → ℕ → Call
  unregister_service stop_service_discovery : ℕ → Call
  discover_services : Text → ℕ → Call
  resolve_service : Option ServiceInfo → ℕ → Call
  on_service_resolved_jni : ℕ → ServiceInfo → Call
  on_service_removed_jni on_service_name_changed_jni : ℕ → Text → Call
  on_browser_state_changed_jni on_publisher_state_changed_jni : ℕ → Bool → Bool → Call

-- The static members, where `none` is null, and the member registrationName of each instance.
pub record State : Type 0 where
  pub resolver_queue : List (Option ServiceInfo)
  pub pending_resolve : Option ServiceInfo
  pub registration_name : ℕ → Option Text

-- The static members as the class is loaded, and no instance with a name.
unfoldable pub new_state : State
new_state = record { resolver_queue = []; pending_resolve = none; registration_name = λ id. none }

-- processResolverQueue of the instance `id`.
unfoldable pub process_resolver_queue : State → ℕ → State × List Call
process_resolver_queue s id = elim s.resolver_queue [
  | [] ↦ (s, [])
  | info ∷ infos ↦ elim s.pending_resolve [
    | some pending ↦ (s, [])
    | none ↦
        (record s { resolver_queue = infos; pending_resolve = info }, resolve_service info id ∷ [])
  ]
]

-- enqueueResolver
unfoldable pub enqueue_resolver : State → ℕ → Option ServiceInfo → State × List Call
enqueue_resolver s id info =
    process_resolver_queue (record s { resolver_queue = s.resolver_queue ++ info ∷ [] }) id

-- `pendingResolve = null; processResolverQueue();`
abbrev pub next_resolve : State → ℕ → State × List Call
next_resolve s id = process_resolver_queue (record s { pending_resolve = none }) id

-- onResolveFailed; `already_active` is `errorCode == NsdManager.FAILURE_ALREADY_ACTIVE`.
unfoldable pub on_resolve_failed : State → ℕ → Bool → State × List Call
on_resolve_failed s id already_active =
    if already_active
    then (let (s', made) = enqueue_resolver s id s.pending_resolve in
        let (s'', more) = next_resolve s' id in (s'', made ++ more))
    else next_resolve s id

-- onServiceResolved
unfoldable pub on_service_resolved : State → ℕ → ServiceInfo → State × List Call
on_service_resolved s id info =
    let (s', made) = next_resolve s id in (s', on_service_resolved_jni id info ∷ made)

-- The loop of registerService over the TXT records.
unfoldable pub set_attributes : Platform → QMap Text → QMap Text → QMap Text
set_attributes p m [] = m
set_attributes p m ((key, value) ∷ es) = set_attributes p (p.set_attribute m key value) es

-- registerService; `accepted` tells that NsdManager throws no IllegalArgumentException.
unfoldable pub do_register_service :
    Platform → State → ℕ → Text → Text → ℕ → QMap Text → Bool → State × List Call
do_register_service p s id name type port txt_records accepted =
    let info : ServiceInfo = record {
      name = name;
      type = type;
      host_name = [];
      address = [];
      port = port;
      attributes = set_attributes p [] txt_records;
    } in
    let failed = if accepted then [] else on_publisher_state_changed_jni id false true ∷ [] in
    (
      record s { registration_name = λ i. if i == id then some name else s.registration_name i },
      register_service info id ∷ failed,
    )

-- `serviceInfo.getServiceName().equals(registrationName)`
abbrev pub is_name : Text → Option Text → Bool
is_name name none = false
is_name name (some registered) = text_eq name registered

-- onServiceRegistered
unfoldable pub on_service_registered : State → ℕ → ServiceInfo → List Call
on_service_registered s id info =
    let changed =
      if is_name info.name (s.registration_name id)
      then []
      else on_service_name_changed_jni id info.name ∷ [] in
    on_publisher_state_changed_jni id true false ∷ changed

-- An entry into the class: a method that C++ calls, or a method of one of the three listeners of an
-- instance. A resolve listener is of the instance that called resolveService.
pub data Entry : Type 0 where
  registers : ℕ → Text → Text → ℕ → QMap Text → Bool → Entry
  unregisters stops_discovery : ℕ → Entry
  discovers : ℕ → Text → Entry
  discovery_started discovery_stopped start_discovery_failed stop_discovery_failed : ℕ → Entry
  service_found service_lost service_resolved service_registered : ℕ → ServiceInfo → Entry
  resolve_failed : ℕ → Bool → Entry
  registration_failed service_unregistered unregistration_failed : ℕ → Entry

unfoldable pub step : Platform → State → Entry → State × List Call
step p s (registers id name type port txt_records accepted) =
    do_register_service p s id name type port txt_records accepted
step p s (unregisters id) = (s, unregister_service id ∷ [])
step p s (stops_discovery id) = (s, stop_service_discovery id ∷ [])
step p s (discovers id type) = (s, discover_services type id ∷ [])
step p s (discovery_started id) = (s, on_browser_state_changed_jni id true false ∷ [])
step p s (discovery_stopped id) = (s, on_browser_state_changed_jni id false false ∷ [])
step p s (start_discovery_failed id) = (s, on_browser_state_changed_jni id false true ∷ [])
step p s (stop_discovery_failed id) = (s, on_browser_state_changed_jni id false true ∷ [])
step p s (service_found id info) = enqueue_resolver s id (some info)
step p s (service_lost id info) = (s, on_service_removed_jni id info.name ∷ [])
step p s (service_resolved id info) = on_service_resolved s id info
step p s (service_registered id info) = (s, on_service_registered s id info)
step p s (resolve_failed id already_active) = on_resolve_failed s id already_active
step p s (registration_failed id) = (s, on_publisher_state_changed_jni id false true ∷ [])
step p s (service_unregistered id) = (s, on_publisher_state_changed_jni id false false ∷ [])
step p s (unregistration_failed id) = (s, on_publisher_state_changed_jni id false true ∷ [])

unfoldable pub run : Platform → State → List Entry → State × List Call
run p s [] = (s, [])
run p s (e ∷ es) = let (s', made) = step p s e in let (t, more) = run p s' es in (t, made ++ more)
