-- ===== src/Bonjour/Api.antt =====
-- bonjour.cpp: the slots of the notifiers, the methods of QZeroConf, and the step that one entry
-- into the wrapper makes.
use qt_zero_conf.Text.{Text}
use qt_zero_conf.Service.{
  browser_failed, service_registration_failed, error, calls, emits, Externals,
}
use qt_zero_conf.Avahi.{
  unknown_protocol, any_ip_protocol, ipv6_protocol, ipv4_protocol, LayerProtocol,
}
use qt_zero_conf.Bonjour.{
  service_browse, service_register, ◌>>=◌, resolver_clean_up, clean_up, protocol_ipv6, Effects,
  protocol_ipv4, Reply, Visits, DnsProtocol, State,
}
use qt_zero_conf.Bonjour.Wire.{append_entry}
use qt_zero_conf.Base.{true, ◌&&◌, ◌∷◌, some, if◌then◌else◌, Option, List, ℕ, Bool, []}
use qt_zero_conf.Service.Txt.{txt_pair}
use qt_zero_conf.QMap.{is_some}
use qt_zero_conf.Bonjour.Callbacks.{
  address_reply, resolver_callback, from_big_endian, browse_callback, register_callback,
  AddressReply, Resolve, Browse,
}

module _ (x : Externals) (v : Visits) where
  -- Resolver::resolverReady and Resolver::addressReady; `ok` tells that DNSServiceProcessResult
  -- succeeds. The callbacks that it makes are entries of their own.
  unfoldable pub resolver_ready : State → ℕ → Bool → Option (State × Effects)
  resolver_ready s i ok = if ok then some (s, []) else resolver_clean_up x s i

  -- QZeroConfPrivate::bsRead
  unfoldable pub bs_read : State → Bool → Option (State × Effects)
  bs_read s ok =
      if ok
      then some (s, [])
      else (clean_up x v s s.dnss_ref >>= λ t.
          some (t, emits (error service_registration_failed) ∷ []))

  -- QZeroConfPrivate::browserRead
  unfoldable pub browser_read : State → Bool → Option (State × Effects)
  browser_read s ok =
      if ok
      then some (s, [])
      else (clean_up x v s s.browser >>= λ t. some (t, emits (error browser_failed) ∷ []))

  -- startServicePublish behind its first test.
  abbrev pub register : State → Text → Text → Text → ℕ → ℕ → Reply → Option (State × Effects)
  register s name type domain port interface reply =
      some (
        record s { dnss_ref = reply.ref },
        calls (service_register interface name type domain (from_big_endian port) s.txt reply.ref)
            ∷ [],
      )
      >>= λ t.
          if reply.ok && reply.has_socket
          then some (record t { service_notifier = true }, [])
          else (clean_up x v t t.dnss_ref >>= λ u.
              some (u, emits (error service_registration_failed) ∷ []))

  -- startServicePublish
  unfoldable pub start_service_publish :
      State → Text → Text → Text → ℕ → ℕ → Reply → Option (State × Effects)
  start_service_publish s name type domain port interface reply =
      if is_some s.dnss_ref
      then some (s, emits (error service_registration_failed) ∷ [])
      else register s name type domain port interface reply

  -- stopServicePublish
  unfoldable pub stop_service_publish : State → Option (State × Effects)
  stop_service_publish s = clean_up x v s s.dnss_ref

  -- startBrowser behind its first test.
  abbrev pub browse : State → Text → DnsProtocol → Reply → Option (State × Effects)
  browse s type p reply =
      some (
        record s { protocol = p; browser = reply.ref },
        calls (service_browse (x.to_utf8 type) reply.ref) ∷ [],
      )
      >>= λ t.
          if reply.ok && reply.has_socket
          then some (record t { browser_notifier = true }, [])
          else (clean_up x v t t.browser >>= λ u. some (u, emits (error browser_failed) ∷ []))

  -- stopBrowser
  unfoldable pub stop_browser : State → Option (State × Effects)
  stop_browser s = clean_up x v s s.browser

  -- The destructor.
  unfoldable pub destroy : State → Option (State × Effects)
  destroy s = clean_up x v s s.dnss_ref >>= λ t. clean_up x v t t.browser

-- The `switch` of startBrowser.
unfoldable pub browse_protocol : LayerProtocol → DnsProtocol
browse_protocol ipv4_protocol = protocol_ipv4
browse_protocol ipv6_protocol = protocol_ipv6
browse_protocol any_ip_protocol = protocol_ipv4
browse_protocol unknown_protocol = protocol_ipv4

-- startBrowser
unfoldable pub start_browser :
    Externals → Visits → State → Text → LayerProtocol → Reply → Option (State × Effects)
start_browser x v s type protocol reply =
    if is_some s.browser
    then some (s, emits (error browser_failed) ∷ [])
    else browse x v s type (browse_protocol protocol) reply

unfoldable pub publish_exists : State → Bool
publish_exists s = is_some s.dnss_ref

unfoldable pub browser_exists : State → Bool
browser_exists s = is_some s.browser

-- addServiceTxtRecord(nameOnly)
unfoldable pub add_service_txt_name : Externals → State → Text → State
add_service_txt_name x s name = record s { txt = append_entry x s.txt name }

-- addServiceTxtRecord(name, value)
unfoldable pub add_service_txt_record : Externals → State → Text → Text → State
add_service_txt_record x s name value = add_service_txt_name x s (txt_pair name value)

unfoldable pub clear_service_txt_records : State → State
clear_service_txt_records s = record s { txt = [] }

-- An entry into the wrapper: a method, a slot, or a callback of dns_sd with its Resolver.
pub data Entry : Type 0 where
  starts_publish : Text → Text → Text → ℕ → ℕ → Reply → Entry
  stops_publish stops_browser clears_txt : Entry
  starts_browser : Text → LayerProtocol → Reply → Entry
  adds_txt_name : Text → Entry
  adds_txt_record : Text → Text → Entry
  resolver_reads : ℕ → Bool → Entry
  service_reads browser_reads registers : Bool → Entry
  browses : Browse → Reply → Entry
  resolves : ℕ → Resolve → Reply → Entry
  addresses : ℕ → AddressReply → Entry

module _ (x : Externals) (v : Visits) where
  unfoldable pub step : State → Entry → Option (State × Effects)
  step s (starts_publish name type domain port interface reply) =
      start_service_publish x v s name type domain port interface reply
  step s stops_publish = stop_service_publish x v s
  step s stops_browser = stop_browser x v s
  step s clears_txt = some (clear_service_txt_records s, [])
  step s (starts_browser type protocol reply) = start_browser x v s type protocol reply
  step s (adds_txt_name name) = some (add_service_txt_name x s name, [])
  step s (adds_txt_record name value) = some (add_service_txt_record x s name value, [])
  step s (resolver_reads i ok) = resolver_ready x v s i ok
  step s (service_reads ok) = bs_read x v s ok
  step s (browser_reads ok) = browser_read x v s ok
  step s (registers ok) = register_callback x v s ok
  step s (browses e reply) = browse_callback x v s e reply
  step s (resolves i e reply) = resolver_callback x s i e reply
  step s (addresses i e) = address_reply x s i e

  -- Entries one after the other, as far as none of them faults.
  unfoldable pub run : State → List Entry → Option (State × Effects)
  run s [] = some (s, [])
  run s (e ∷ es) = step s e >>= λ t. run t es
