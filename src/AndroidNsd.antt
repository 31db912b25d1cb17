-- ===== src/AndroidNsd.antt =====
-- androidnsd.cpp and androidnsd_p.h: QZeroConfPrivate over the Java class QZeroConfNsdManager. The
-- members of one object and its slots, which the Qt thread runs; AndroidNsd/Threads has the objects
-- of a process, with what they hand to the Android thread and what that hands back.
pub mod Threads
pub mod Slots
pub mod Tasks
pub mod Interface
pub mod Process
pub mod Listeners
mod Tests
use qt_zero_conf.Base.{
  ℕ, Bool, false, if◌then◌else◌, List, [], ◌∷◌, ◌++◌, Option, none, some, get_elem?, set, length,
  ◌%◌,
}
use qt_zero_conf.Text.{Text}
use qt_zero_conf.QMap.{QMap, lookup, insert, remove}
use qt_zero_conf.Service.{
  object_or_blank, ServiceData, Effect, blank, service_registration_failed, browser_failed, error,
  service_published, service_name_changed, service_added, service_updated, service_removed, emits,
}

-- What Qt gives: the text without what `QRegularExpression("^.")` matches, UTF-8 and the QString of
-- it, and the QHostAddress of an address.
pub record Platform : Type 0 where
  pub remove_start : Text → Text
  pub to_utf8 : Text → Text
  pub from_utf8 : Text → Text
  pub host_address : Text → Text

-- The native methods that the constructor registers with the Java class.
pub data Native : Type 0 where
  native_service_resolved native_service_removed native_browser_state_changed : Native
  native_publisher_state_changed native_service_name_changed : Native

-- The calls of JNI: the constructor of the Java object, which is given the QZeroConfPrivate as its
-- `id` and is named by the same number, RegisterNatives, and the methods of the Java object.
pub data Call : Type 0 where
  new_manager : ℕ → Call
  register_natives : List Native → Call
  register_service : ℕ → Text → Text → ℕ → QMap Text → Call
  unregister_service stop_service_discovery : ℕ → Call
  discover_services : ℕ → Text → Call

abbrev pub Effects : Type 0
Effects = List (Effect Call)

-- The members of QZeroConfPrivate, with the map `services` of QZeroConf and its objects.
pub record State : Type 0 where
  pub objects : List ServiceData
  pub services : QMap ℕ
  pub browser_exists : Bool
  pub publisher_exists : Bool
  pub txt_records : QMap Text
  pub publish_name : Text
  pub publish_type : Text

unfoldable pub new_state : State
new_state = record {
  objects = [];
  services = [];
  browser_exists = false;
  publisher_exists = false;
  txt_records = [];
  publish_name = [];
  publish_type = [];
}

-- The arguments of onServiceResolved, the address as a text.
pub record Resolved : Type 0 where
  pub name : Text
  pub type : Text
  pub host_name : Text
  pub address : Text
  pub port : ℕ
  pub txt_records : QMap Text

-- What onServiceResolved writes to the object of the service; the port goes from an int to a quint16.
unfoldable pub fill : Platform → ServiceData → Resolved → ServiceData
fill p d e = record d {
  name = e.name;
  type = p.remove_start e.type;
  host = e.host_name;
  port = e.port % 65536;
  ip = p.host_address e.address;
  txt = e.txt_records;
}

-- onServiceResolved
unfoldable pub on_service_resolved : Platform → State → Resolved → State × Effects
unfolding fill
on_service_resolved p s e = elim (lookup e.name s.services) [
  | some zcs ↦ (
    record s { objects = set s.objects zcs (fill p (object_or_blank (get_elem? s.objects zcs)) e) },
    emits (service_updated zcs) ∷ [],
  )
  | none ↦ (
    record s {
      objects = s.objects ++ fill p blank e ∷ [];
      services = insert e.name (length s.objects) s.services;
    },
    emits (service_added (length s.objects)) ∷ [],
  )
]

-- onServiceRemoved
unfoldable pub on_service_removed : State → Text → State × Effects
on_service_removed s name = elim (lookup name s.services) [
  | none ↦ (s, [])
  | some zcs ↦ (record s { services = remove name s.services }, emits (service_removed zcs) ∷ [])
]

-- onBrowserStateChanged
unfoldable pub on_browser_state_changed : State → Bool → Bool → State × Effects
on_browser_state_changed s running failed = (
  record s { browser_exists = running },
  if failed then emits (error browser_failed) ∷ [] else [],
)

-- onPublisherStateChanged
unfoldable pub on_publisher_state_changed : State → Bool → Bool → State × Effects
on_publisher_state_changed s running failed = (
  record s { publisher_exists = running },
  (if running then emits service_published ∷ [] else [])
      ++ (if failed then emits (error service_registration_failed) ∷ [] else []),
)

-- onServiceNameChanged
unfoldable pub on_service_name_changed : State → Text → State × Effects
on_service_name_changed s name = (s, emits (service_name_changed name) ∷ [])

-- addServiceTxtRecord(nameOnly)
unfoldable pub add_service_txt_name : Platform → State → Text → State
add_service_txt_name p s name = record s { txt_records = insert (p.to_utf8 name) [] s.txt_records }

-- addServiceTxtRecord(name, value)
unfoldable pub add_service_txt_record : Platform → State → Text → Text → State
add_service_txt_record p s name value = record s {
  txt_records = insert (p.to_utf8 name) (p.to_utf8 value) s.txt_records;
}

-- clearServiceTxtRecords
unfoldable pub clear_service_txt_records : State → State
clear_service_txt_records s = record s { txt_records = [] }

-- publishExists
unfoldable pub publish_exists : State → Bool
publish_exists s = s.publisher_exists

-- browserExists
unfoldable pub browser_exists : State → Bool
browser_exists s = s.browser_exists

-- A call of a slot that is queued for the Qt thread.
pub data Slot : Type 0 where
  service_resolved : Resolved → Slot
  service_lost : Text → Slot
  browser_state_changed publisher_state_changed : Bool → Bool → Slot
  name_changed : Text → Slot

unfoldable pub invoke : Platform → State → Slot → State × Effects
invoke p s (service_resolved e) = on_service_resolved p s e
invoke p s (service_lost name) = on_service_removed s name
invoke p s (browser_state_changed running failed) = on_browser_state_changed s running failed
invoke p s (publisher_state_changed running failed) = on_publisher_state_changed s running failed
invoke p s (name_changed name) = on_service_name_changed s name

unfoldable pub invoke_all : Platform → State → List Slot → State × Effects
invoke_all p s [] = (s, [])
invoke_all p s (e ∷ es) =
    let (s', effects) = invoke p s e in let (t, later) = invoke_all p s' es in (t, effects ++ later)
