-- ===== src/Bonjour/Callbacks.antt =====
-- bonjour.cpp: QZeroConfPrivate::resolve and the callbacks of dns_sd.
use qt_zero_conf.Base.{
  suc, ◌++◌, length, ◌∷◌, false, true, not, [], none, set, ◌&&◌, ◌/◌, ◌+◌, if◌then◌else◌, some, ◌*◌,
  ◌%◌, Option, ℕ, Bool,
}
use qt_zero_conf.Bonjour.Wire.{read_wire, out_of_fuel, overrun, entries, Wire}
use qt_zero_conf.Service.{
  service_updated, service_registration_failed, browser_failed, service_added, blank, ServiceData,
  error, service_removed, service_published, calls, emits, service_key, set_ip, Externals,
}
use qt_zero_conf.Bonjour.{
  service_resolve, get_addr_info, zcs_key, ref_deallocate, resolver_clean_up, ◌>>=◌, clean_up,
  resolver_at, object_at, Effects, Reply, Resolver, Visits, State,
}
use qt_zero_conf.Text.{Text}
use qt_zero_conf.QMap.{insert, remove, contains, lookup, QMap}

-- The arguments of browseCallback; `ok` is `err == kDNSServiceErr_NoError`, and `add` the flag
-- kDNSServiceFlagsAdd.
pub record Browse : Type 0 where
  pub ok : Bool
  pub add : Bool
  pub interface : ℕ
  pub name : Text
  pub type : Text
  pub domain : Text

-- The arguments of resolverCallback.
pub record Resolve : Type 0 where
  pub ok : Bool
  pub interface : ℕ
  pub host_name : Text
  pub port : ℕ
  pub txt_len : ℕ
  pub txt_record : Text

-- The arguments of addressReply.
pub record AddressReply : Type 0 where
  pub ok : Bool
  pub add : Bool
  pub interface : ℕ
  pub address : Text

-- qFromBigEndian<quint16> on a host whose byte order is little-endian.
unfoldable pub from_big_endian : ℕ → ℕ
from_big_endian p = p % 256 * 256 + p / 256 % 256

-- The loop's end as a map, or none for a read over the end of the record.
abbrev pub entries_of : Wire → Option (QMap Text)
entries_of (entries m) = some m
entries_of overrun = none
entries_of out_of_fuel = none

module _ (x : Externals) where
  -- What `resolve` does with the answer of DNSServiceResolve, for the Resolver `i`.
  abbrev pub watch_resolver : State → ℕ → Resolver → Reply → Option (State × Effects)
  watch_resolver s i r reply =
      if reply.ok && reply.has_socket
      then some
          (record s { heap = set s.heap i (some (record r { resolver_notifier = true })) }, [])
      else resolver_clean_up x s i

  -- QZeroConfPrivate::resolve
  unfoldable pub resolve : State → ℕ → Reply → Option (State × Effects)
  resolve s h reply =
      let d = object_at s h in
      let r : Resolver = record {
        zcs = h;
        resolver_ref = reply.ref;
        address_ref = none;
        resolver_notifier = false;
        address_notifier = false;
      } in
      let i = length s.heap in
      some (
        record s { resolvers = insert (zcs_key x s h) i s.resolvers; heap = s.heap ++ some r ∷ [] },
        calls (
              service_resolve d.interface_index (x.to_utf8 d.name) (x.to_utf8 d.type)
                (x.to_utf8 d.domain) reply.ref)
            ∷ [],
      )
      >>= λ t. watch_resolver t i r reply

  -- The object that browseCallback makes for a service.
  abbrev pub announced : Browse → ServiceData
  announced e = record blank {
    name = e.name;
    type = e.type;
    domain = e.domain;
    interface_index = e.interface;
  }

  -- A service that is announced and not known is made and resolved.
  unfoldable pub on_browse_add : State → Browse → Reply → Option (State × Effects)
  on_browse_add s e reply =
      if not (contains (service_key x e.name e.interface) s.services)
      then resolve (record s { objects = s.objects ++ announced e ∷ [] }) (length s.objects) reply
      else some (s, [])

  -- `if (ref->resolvers.contains(key)) ref->resolvers[key]->cleanUp();`
  abbrev pub clean_up_key : State → Option ℕ → Option (State × Effects)
  clean_up_key s none = some (s, [])
  clean_up_key s (some i) = resolver_clean_up x s i

  -- A service that goes and is known is dropped, with its resolver.
  unfoldable pub on_browse_remove : State → Browse → Option (State × Effects)
  on_browse_remove s e =
      let key = service_key x e.name e.interface in
      elim (lookup key s.services) [
        | none ↦ some (s, [])
        | some zcs ↦
            (clean_up_key (record s { services = remove key s.services }) (lookup key s.resolvers)
              >>= λ t. some (t, emits (service_removed zcs) ∷ []))
      ]

  -- The Resolver has the host, the port and the TXT records of the service, and asks for its
  -- address with the answer `reply`.
  unfoldable pub on_resolved :
      State → ℕ → Resolver → Resolve → QMap Text → Reply → Option (State × Effects)
  on_resolved s i r e m reply =
      let d = object_at s r.zcs in
      let filled =
        set s.objects r.zcs
          (record d { txt = m; host = e.host_name; port = from_big_endian e.port }) in
      let dropped : Effects = elim r.address_ref [
        | none ↦ []
        | some a ↦ calls (ref_deallocate (some a)) ∷ []
      ] in
      let asking = record r { address_ref = reply.ref } in
      some (
        record s { objects = filled; heap = set s.heap i (some asking) },
        dropped ++ calls (get_addr_info e.interface e.host_name reply.ref) ∷ [],
      )
      >>= λ t.
          if reply.ok && reply.has_socket
          then some (
            record t { heap = set t.heap i (some (record asking { address_notifier = true })) },
            [],
          )
          else resolver_clean_up x t i

  -- resolverCallback; `i` is the Resolver that was given to DNSServiceResolve.
  unfoldable pub resolver_callback : State → ℕ → Resolve → Reply → Option (State × Effects)
  resolver_callback s i e reply = elim (resolver_at s i) [
    | none ↦ none
    | some r ↦
        if not e.ok
        then resolver_clean_up x s i
        else elim (entries_of (
            read_wire (suc (length e.txt_record)) (object_at s r.zcs).txt e.txt_len e.txt_record)) [
              | none ↦ none
              | some m ↦ on_resolved s i r e m reply
            ]
  ]

  -- The address of a service: the service is filed if it is not yet.
  unfoldable pub on_address : State → Resolver → AddressReply → State × Effects
  on_address s r e =
      let objects = set_ip s.objects r.zcs (x.host_address e.address) in
      let key = service_key x (object_at s r.zcs).name e.interface in
      if not (contains key s.services)
      then (
        record s { objects = objects; services = insert key r.zcs s.services },
        emits (service_added r.zcs) ∷ [],
      )
      else (record s { objects = objects }, emits (service_updated r.zcs) ∷ [])

  -- addressReply; `i` is the Resolver that was given to DNSServiceGetAddrInfo.
  unfoldable pub address_reply : State → ℕ → AddressReply → Option (State × Effects)
  address_reply s i e = elim (resolver_at s i) [
    | none ↦ none
    | some r ↦
        if e.ok
        then (if e.add then some (on_address s r e) else some (s, []))
        else resolver_clean_up x s i
  ]

  module _ (v : Visits) where
    -- browseCallback
    unfoldable pub browse_callback : State → Browse → Reply → Option (State × Effects)
    browse_callback s e reply =
        if e.ok
        then (if e.add then on_browse_add s e reply else on_browse_remove s e)
        else (clean_up x v s s.browser >>= λ t. some (t, emits (error browser_failed) ∷ []))

    -- registerCallback; `ok` is `errorCode == kDNSServiceErr_NoError`.
    unfoldable pub register_callback : State → Bool → Option (State × Effects)
    register_callback s ok =
        if ok
        then some (s, emits service_published ∷ [])
        else (clean_up x v s s.dnss_ref >>= λ t.
            some (t, emits (error service_registration_failed) ∷ []))
