-- ===== src/AndroidNsd/Threads.antt =====
-- androidnsd.cpp: the objects of a process, the tasks that they hand to the Android thread, and the
-- calls of slots that its callbacks queue for the Qt thread. An object is named by its number in the
-- list of all that were made, in which a deleted one is `none`; the same number names its Java
-- object, which lives as long as a task refers to it.
use qt_zero_conf.AndroidNsd.{
  native_service_name_changed, native_publisher_state_changed, native_browser_state_changed,
  native_service_removed, register_natives, native_service_resolved, new_manager, invoke, Native,
  service_resolved, Resolved, discover_services, unregister_service, stop_service_discovery,
  register_service, new_state, State, Effects, Slot, Platform,
}
use qt_zero_conf.Base.{
  not, ◌||◌, ◌==◌, length, if◌then◌else◌, get_elem?, false, none, Bool, some, ◌∷◌, set, ◌++◌,
  Option, List, [], ℕ,
}
use qt_zero_conf.QMap.{insert, is_some, QMap}
use qt_zero_conf.Text.{Text}
use qt_zero_conf.Service.{calls}

-- A lambda given to runOnAndroidMainThread, with what it captures: that of startServicePublish the
-- object itself and the port, the others the Java object.
pub data Task : Type 0 where
  registers : ℕ → ℕ → Task
  unregisters stops_discovery : ℕ → Task
  discovers : ℕ → Text → Task

-- `misused` tells that QMetaObject::invokeMethod was called on a deleted object.
pub record World : Type 0 where
  pub heap : List (Option State)
  pub instances : List ℕ
  pub tasks : List Task
  pub posted : List (ℕ × Slot)
  pub misused : Bool

unfoldable pub new_world : World
new_world = record { heap = []; instances = []; tasks = []; posted = []; misused = false }

abbrev pub join : Option (Option State) → Option State
join none = none
join (some o) = o

abbrev pub object : World → ℕ → Option State
object w i = join (get_elem? w.heap i)

-- `s_instances.contains(ref)`
unfoldable pub is_instance : ℕ → List ℕ → Bool
is_instance i [] = false
is_instance i (j ∷ js) = i == j || is_instance i js

-- `s_instances.removeAll(this)`
unfoldable pub remove_all : ℕ → List ℕ → List ℕ
remove_all i [] = []
remove_all i (j ∷ js) = if i == j then remove_all i js else j ∷ remove_all i js

-- The table `methods` of the constructor.
unfoldable pub natives : List Native
natives =
    native_service_resolved ∷ native_service_removed ∷ native_browser_state_changed
    ∷ native_publisher_state_changed ∷ native_service_name_changed ∷ []

-- The constructor; `valid` is `nsdManager.isValid()`. The object is an instance either way.
unfoldable pub create : World → Bool → World × Effects
unfolding natives
create w valid = (
  record w { heap = w.heap ++ some new_state ∷ []; instances = w.instances ++ length w.heap ∷ [] },
  calls (new_manager (length w.heap))
      ∷ (if valid then calls (register_natives natives) ∷ [] else []),
)

-- The destructor.
unfoldable pub destroy : World → ℕ → World
destroy w i = record w { heap = set w.heap i none; instances = remove_all i w.instances }

-- startServicePublish of an object that is there.
unfoldable pub start_service_publish : World → ℕ → State → Text → Text → ℕ → World
start_service_publish w i s name type port = record w {
  heap = set w.heap i (some (record s { publish_name = name; publish_type = type }));
  tasks = w.tasks ++ registers i port ∷ [];
}

-- stopServicePublish; `suspended` is `applicationState() == Qt::ApplicationSuspended`.
unfoldable pub stop_service_publish : World → ℕ → Bool → World × Effects
stop_service_publish w i suspended =
    if suspended
    then (w, calls (unregister_service i) ∷ [])
    else (record w { tasks = w.tasks ++ unregisters i ∷ [] }, [])

-- startBrowser
unfoldable pub start_browser : World → ℕ → Text → World
start_browser w i type = record w { tasks = w.tasks ++ discovers i type ∷ [] }

-- stopBrowser
unfoldable pub stop_browser : World → ℕ → Bool → World × Effects
stop_browser w i suspended =
    if suspended
    then (w, calls (stop_service_discovery i) ∷ [])
    else (record w { tasks = w.tasks ++ stops_discovery i ∷ [] }, [])

-- The loop over txtRecords, whose keys and values become strings.
unfoldable pub txt_map : Platform → QMap Text → QMap Text
txt_map p [] = []
txt_map p ((key, value) ∷ m) = (p.from_utf8 key, p.from_utf8 value) ∷ txt_map p m

-- What a lambda does on the Android thread; `none` if it uses a deleted object.
unfoldable pub run_task : Platform → World → Task → Option Effects
unfolding txt_map
run_task p w (registers i port) = elim (object w i) [
  | none ↦ none
  | some s ↦
      some (
        calls (register_service i s.publish_name s.publish_type port (txt_map p s.txt_records))
        ∷ [])
]
run_task p w (unregisters i) = some (calls (unregister_service i) ∷ [])
run_task p w (stops_discovery i) = some (calls (stop_service_discovery i) ∷ [])
run_task p w (discovers i type) = some (calls (discover_services i type) ∷ [])

-- The native methods: a slot of an object is queued if the object is still an instance. A call of
-- invokeMethod on a deleted object is noted.
unfoldable pub post : World → ℕ → Slot → World
post w i slot =
    if is_instance i w.instances
    then record w {
      posted = w.posted ++ (i, slot) ∷ [];
      misused = not (is_some (object w i)) || w.misused;
    }
    else w

-- The loop of onServiceResolvedJNI over the map of Java, in which a value may be null.
unfoldable pub read_attributes : Platform → QMap Text → List (Text × Option Text) → QMap Text
read_attributes p m [] = m
read_attributes p m ((key, none) ∷ es) = read_attributes p (insert (p.to_utf8 key) [] m) es
read_attributes p m ((key, some value) ∷ es) = read_attributes p (insert (p.to_utf8 key) value m) es

-- onServiceResolvedJNI; `e` has the other arguments.
unfoldable pub on_service_resolved_jni :
    Platform → World → ℕ → Resolved → List (Text × Option Text) → World
unfolding post
on_service_resolved_jni p w i e attributes =
    post w i (service_resolved (record e { txt_records = read_attributes p [] attributes }))

-- The event loop of the Qt thread takes the first slot that is queued, if its object is still there.
unfoldable pub deliver : Platform → World → World × Effects
deliver p w = elim w.posted [
  | [] ↦ (w, [])
  | entry ∷ rest ↦ elim (object w (entry.0)) [
    | none ↦ (record w { posted = rest }, [])
    | some s ↦
        let (s', effects) = invoke p s (entry.1) in
        (record w { heap = set w.heap (entry.0) (some s'); posted = rest }, effects)
  ]
]
