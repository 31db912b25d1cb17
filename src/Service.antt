-- ===== src/Service.antt =====
-- qzeroconfservice.h and the signals of qzeroconf.h. A QZeroConfService is a shared pointer to a
-- QZeroConfServiceData: a handle is the index of the object in the list of all that were made, so
-- that the map of services, the resolvers and the signals name the same object.
pub mod Txt
pub mod Store
pub mod Signals
pub mod Debug
use qt_zero_conf.Base.{ℕ, suc, ◌++◌, List, [], ◌∷◌, Option, none, some, get_elem?, set, length}
use qt_zero_conf.Text.{Text}
use qt_zero_conf.QMap.{QMap}

-- What the wrappers take from Qt and from the Avahi libraries without state: the decimal text of
-- an interface index, the conversion of texts to UTF-8, the QHostAddress of an address, and the
-- list with one more TXT record.
pub record Externals : Type 0 where
  pub number : ℕ → Text
  pub to_utf8 : Text → Text
  pub host_address : Text → Text
  pub string_list_add : List Text → Text → List Text

pub record ServiceData : Type 0 where
  pub name : Text
  pub type : Text
  pub domain : Text
  pub host : Text
  pub ip : Text
  pub interface_index : ℕ
  pub port : ℕ
  pub txt : QMap Text

-- `new QZeroConfServiceData`, where the members without an initialiser are read as zero.
abbrev pub blank : ServiceData
blank = record {
  name = [];
  type = [];
  domain = [];
  host = [];
  ip = [];
  interface_index = 0;
  port = 0;
  txt = [];
}

-- The members of an object that may not be there.
abbrev pub object_or_blank : Option ServiceData → ServiceData
object_or_blank none = blank
object_or_blank (some d) = d

-- `name + QString::number(interface)`, under which a service and its resolver are filed.
unfoldable pub service_key : Externals → Text → ℕ → Text
service_key x name interface = name ++ x.number interface

-- QZeroConfServiceData::setIp on the object of a handle.
unfoldable pub set_ip : List ServiceData → ℕ → Text → List ServiceData
set_ip objects h ip = elim (get_elem? objects h) [
  | none ↦ objects
  | some d ↦ set objects h (record d { ip = ip })
]

-- QZeroConf::error_t
pub data ErrorT : Type 0 where
  no_error service_registration_failed service_name_collision browser_failed : ErrorT

-- The signals of QZeroConf.
pub data Signal : Type 0 where
  service_published : Signal
  service_name_changed : Text → Signal
  error : ErrorT → Signal
  service_added service_updated service_removed : ℕ → Signal

-- What an operation does to the outside, in order: signals that it emits, and calls of the
-- library below, of a type that each wrapper gives.
pub data Effect (C : Type 0) : Type 0 where
  emits : Signal → Effect C
  calls : C → Effect C
