-- ===== src/Avahi.antt =====
-- What the two Avahi wrappers, avahiclient.cpp and avahicore.cpp, share: the enumerations of the
-- Avahi interface, the arguments of its callbacks, and the calls that the wrappers make of it. A
-- call that makes an object carries the pointer that it returned, `none` for NULL. Where the
-- names differ the client's is avahi_…, and the core's avahi_s_… or avahi_server_….
pub mod Resources
use qt_zero_conf.Base.{ℕ, Bool, true, false, List, Option, none, some, if◌then◌else◌, ◌==◌}
use qt_zero_conf.Text.{Text}
use qt_zero_conf.Service.{Effect}

pub data Protocol : Type 0 where
  proto_inet proto_inet6 proto_unspec : Protocol

pub data EntryGroupState : Type 0 where
  uncommited registering established collision failure : EntryGroupState

pub data BrowserEvent : Type 0 where
  browser_new browser_remove browser_cache_exhausted browser_all_for_now browser_failure :
      BrowserEvent

-- QAbstractSocket::NetworkLayerProtocol
pub data LayerProtocol : Type 0 where
  ipv4_protocol ipv6_protocol any_ip_protocol unknown_protocol : LayerProtocol

-- AVAHI_IF_UNSPEC, -1, as the quint32 that it becomes.
abbrev pub if_unspec : ℕ
if_unspec = 4294967295

-- `if (interface <= 0) interface = AVAHI_IF_UNSPEC;` on a quint32.
abbrev pub publish_interface : ℕ → ℕ
publish_interface interface = if interface == 0 then if_unspec else interface

-- The arguments of browseCallback that it reads.
pub record Browse : Type 0 where
  pub interface : ℕ
  pub protocol : Protocol
  pub event : BrowserEvent
  pub name : Text
  pub type : Text
  pub domain : Text

-- The arguments of resolveCallback that it reads; `found` is `event == AVAHI_RESOLVER_FOUND`.
pub record Resolve : Type 0 where
  pub interface : ℕ
  pub found : Bool
  pub name : Text
  pub type : Text
  pub domain : Text
  pub host_name : Text
  pub address : Text
  pub port : ℕ
  pub txt : List Text

pub data Call : Type 0 where
  client_new client_free server_new server_free : Option ℕ → Call
  group_new group_commit group_free : Option ℕ → Call
  add_service : Option ℕ → ℕ → Text → Text → Text → ℕ → List Text → Call
  service_browser_new : Option ℕ → Protocol → Text → Option ℕ → Call
  service_browser_free : ℕ → Call
  service_resolver_new : Option ℕ → ℕ → Protocol → Text → Text → Text → Protocol → Option ℕ → Call
  service_resolver_free : Option ℕ → Call
  string_list_free : List Text → Call
  server_config_free : Call

abbrev pub Effects : Type 0
Effects = List (Effect Call)

-- What the library answers to the calls of one registration: the new group, and whether
-- adding the service and committing the group succeed (a result that is not negative).
pub record Replies : Type 0 where
  pub group : Option ℕ
  pub added : Bool
  pub committed : Bool
