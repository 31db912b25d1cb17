-- ===== src/AvahiClient.antt =====
-- avahiclient.cpp: QZeroConfPrivate and QZeroConf over the Avahi client library. Each function
-- returns the state after it and its effects in order. The slots connected to the signals are
-- taken not to call back into the object while it is in one of these functions.
pub mod Api
pub mod Interface
pub mod Cases
pub mod Txt
pub mod Aside
pub mod Invariant
pub mod Signals
pub mod Conserves
pub mod Lifecycle
pub mod Lifetime
pub mod Publish
pub mod Keys
pub mod Events
mod Tests
use qt_zero_conf.Base.{
  ℕ, ◌+◌, ◌≡◌, Bool, true, false, not, ◌||◌, List, [], ◌∷◌, ◌++◌, map, Option, none, some,
  if◌then◌else◌, length,
}
use qt_zero_conf.Text.{Text}
use qt_zero_conf.QMap.{QMap, is_some, lookup, contains, insert, remove, values}
use qt_zero_conf.Service.{
  Externals, ServiceData, blank, service_key, set_ip, service_registration_failed,
  service_name_collision, browser_failed, service_published, error, service_added, service_updated,
  service_removed, emits, calls,
}
use qt_zero_conf.Service.Txt.{read_txt, txt_pair}
use qt_zero_conf.Service.Signals.{emit_removed}
use qt_zero_conf.Avahi.{
  Protocol, proto_inet, proto_inet6, EntryGroupState, uncommited, registering, established,
  collision, failure, browser_new, browser_remove, browser_cache_exhausted, browser_all_for_now,
  browser_failure, BrowserEvent, LayerProtocol, ipv4_protocol, ipv6_protocol, any_ip_protocol,
  unknown_protocol, publish_interface, Browse, Resolve, client_new, client_free, group_new,
  group_commit, group_free, add_service, service_browser_new, service_browser_free,
  service_resolver_new, service_resolver_free, string_list_free, Effects, Replies,
}

-- The members of QZeroConfPrivate, with the map `services` of QZeroConf and the objects that
-- the shared pointers of it name. `none` is NULL.
pub record State : Type 0 where
  pub objects : List ServiceData
  pub services : QMap ℕ
  pub client : Option ℕ
  pub group : Option ℕ
  pub browser : Option ℕ
  pub a_protocol : Protocol
  pub resolvers : QMap (Option ℕ)
  pub txt : List Text

-- The constructor; `client` is what avahi_client_new returns, and `protocol` the value that the
-- member `aProtocol` has while nothing is assigned to it. avahi_qt_poll_get is never NULL.
unfoldable pub new_state : Option ℕ → Protocol → State × Effects
new_state client protocol = (
  record {
    objects = [];
    services = [];
    client = client;
    group = none;
    browser = none;
    a_protocol = protocol;
    resolvers = [];
    txt = [];
  },
  calls (client_new client) ∷ [],
)

unfoldable pub group_callback : State → Option ℕ → EntryGroupState → State × Effects
group_callback s g established = (s, emits service_published ∷ [])
group_callback s g collision =
    (record s { group = none }, calls (group_free g) ∷ emits (error service_name_collision) ∷ [])
group_callback s g failure = (
  record s { group = none },
  calls (group_free g) ∷ emits (error service_registration_failed) ∷ [],
)
group_callback s g uncommited = (s, [])
group_callback s g registering = (s, [])

unfoldable pub free_resolvers : List (Option ℕ) → Effects
free_resolvers [] = []
free_resolvers (r ∷ rs) = calls (service_resolver_free r) ∷ free_resolvers rs

unfoldable pub broswer_clean_up : State → State × Effects
broswer_clean_up s = elim s.browser [
  | none ↦ (s, [])
  | some b ↦ (
    record s { browser = none; services = []; resolvers = [] },
    calls (service_browser_free b) ∷ emit_removed (values s.services)
        ++ free_resolvers (values s.resolvers),
  )
]

module _ (x : Externals) where
  -- `AVAHI_BROWSER_NEW`; `r` is what avahi_service_resolver_new returns, if it is called.
  unfoldable pub on_browser_new : State → Browse → Option ℕ → State × Effects
  unfolding contains
  on_browser_new s e r =
      let key = service_key x e.name e.interface in
      if not (contains key s.resolvers)
      then (
        record s { resolvers = insert key r s.resolvers },
        calls (
              service_resolver_new s.client e.interface e.protocol e.name e.type e.domain
                s.a_protocol r)
            ∷ [],
      )
      else (s, [])

  -- `AVAHI_BROWSER_REMOVE`
  unfoldable pub on_browser_remove : State → Browse → State × Effects
  on_browser_remove s e =
      let key = service_key x e.name e.interface in
      elim (lookup key s.resolvers) [
        | none ↦ (s, [])
        | some r ↦
            let s' : State = record s { resolvers = remove key s.resolvers } in
            elim (lookup key s.services) [
              | none ↦ (s', calls (service_resolver_free r) ∷ [])
              | some zcs ↦ (
                record s' { services = remove key s.services },
                calls (service_resolver_free r) ∷ emits (service_removed zcs) ∷ [],
              )
            ]
      ]

  unfoldable pub on_browser_event : BrowserEvent → State → Browse → Option ℕ → State × Effects
  unfolding broswer_clean_up on_browser_new on_browser_remove
  on_browser_event browser_failure s e r =
      let (s', effects) = broswer_clean_up s in (s', effects ++ emits (error browser_failed) ∷ [])
  on_browser_event browser_new s e r = on_browser_new s e r
  on_browser_event browser_remove s e r = on_browser_remove s e
  on_browser_event browser_all_for_now s e r = (s, [])
  on_browser_event browser_cache_exhausted s e r = (s, [])

  -- browseCallback
  unfoldable pub browse_callback : State → Browse → Option ℕ → State × Effects
  unfolding on_browser_event
  browse_callback s e r = on_browser_event e.event s e r

  -- The object that resolveCallback fills for a service that it does not know.
  abbrev pub resolved : Resolve → ServiceData
  resolved e = record {
    name = e.name;
    type = e.type;
    domain = e.domain;
    host = e.host_name;
    ip = [];
    interface_index = e.interface;
    port = e.port;
    txt = read_txt [] e.txt;
  }

  unfoldable pub on_resolver_found : State → Resolve → State × Effects
  on_resolver_found s e =
      let key = service_key x e.name e.interface in
      let ip = x.host_address e.address in
      elim (lookup key s.services) [
        | some zcs ↦
            (record s { objects = set_ip s.objects zcs ip }, emits (service_updated zcs) ∷ [])
        | none ↦
            let zcs = length s.objects in
            let objects = s.objects ++ resolved e ∷ [] in
            (
              record s { objects = set_ip objects zcs ip; services = insert key zcs s.services },
              emits (service_added zcs) ∷ [],
            )
      ]

  -- The service is dropped if it cannot be resolved; its resolver stays.
  unfoldable pub on_resolver_failure : State → Resolve → State × Effects
  on_resolver_failure s e =
      let key = service_key x e.name e.interface in
      elim (lookup key s.services) [
        | none ↦ (s, [])
        | some zcs ↦
            (record s { services = remove key s.services }, emits (service_removed zcs) ∷ [])
      ]

  -- resolveCallback
  unfoldable pub resolve_callback : State → Resolve → State × Effects
  unfolding on_resolver_found on_resolver_failure
  resolve_callback s e = if e.found then on_resolver_found s e else on_resolver_failure s e
