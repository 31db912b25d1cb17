-- ===== src/AvahiCore/Api.antt =====
-- avahicore.cpp: registration, and the methods of QZeroConf.
use qt_zero_conf.Base.{false, true, ℕ, Bool, not, [], ◌∷◌, ◌++◌, Option, none, some, if◌then◌else◌}
use qt_zero_conf.Text.{Text}
use qt_zero_conf.QMap.{is_some}
use qt_zero_conf.Service.{
  Externals, service_registration_failed, browser_failed, error, emits, calls,
}
use qt_zero_conf.Service.Txt.{txt_pair}
use qt_zero_conf.Avahi.{
  Protocol, proto_inet, proto_inet6, LayerProtocol, ipv4_protocol, ipv6_protocol, any_ip_protocol,
  unknown_protocol, publish_interface, group_new, group_commit, group_free, add_service,
  service_browser_new, string_list_free, Effects, Replies,
}
use qt_zero_conf.AvahiCore.{State, broswer_clean_up}

unfoldable pub register_service :
    Option ℕ → State → Text → Text → Text → ℕ → ℕ → Replies → State × Effects
register_service server s name type domain port interface r =
    let opened : Effects =
      calls (group_new r.group)
      ∷ calls (add_service r.group (publish_interface interface) name type domain port s.txt)
      ∷ [] in
    let failed : Effects =
      calls (group_free r.group) ∷ emits (error service_registration_failed) ∷ [] in
    if not (is_some r.group)
    then (
      record s { group = none },
      calls (group_new none) ∷ emits (error service_registration_failed) ∷ [],
    )
    else if not r.added
    then (record s { group = none }, opened ++ failed)
    else if not r.committed
    then (record s { group = none }, opened ++ calls (group_commit r.group) ∷ failed)
    else (record s { group = r.group }, opened ++ calls (group_commit r.group) ∷ [])

-- AvahiServerState
pub data ServerState : Type 0 where
  server_invalid server_registering server_running server_collision server_failure : ServerState

-- serverCallback
unfoldable pub server_callback : Option ℕ → State → ServerState → Replies → State × Effects
unfolding register_service
server_callback server s server_running r =
    let s' : State = record s { ready = true } in
    if s.register_waiting
    then register_service server (record s' { register_waiting = false }) s.name s.type s.domain
        s.port 0 r
    else (s', [])
server_callback server s server_collision r = (s, [])
server_callback server s server_registering r = (s, [])
server_callback server s server_failure r = (s, [])
server_callback server s server_invalid r = (s, [])

-- startServicePublish
unfoldable pub start_service_publish :
    Option ℕ → State → Text → Text → Text → ℕ → ℕ → Replies → State × Effects
unfolding register_service
start_service_publish server s name type domain port interface r =
    if is_some s.group
    then (s, emits (error service_registration_failed) ∷ [])
    else if s.ready
    then register_service server s name type domain port interface r
    else (
      record s { register_waiting = true; name = name; type = type; domain = domain; port = port },
      [],
    )

unfoldable pub stop_service_publish : State → State × Effects
stop_service_publish s = elim s.group [
  | none ↦ (s, [])
  | some g ↦ (record s { group = none }, calls (group_free (some g)) ∷ [])
]

unfoldable pub publish_exists : State → Bool
publish_exists s = is_some s.group

unfoldable pub clear_service_txt_records : State → State × Effects
clear_service_txt_records s = (record s { txt = [] }, calls (string_list_free s.txt) ∷ [])

-- The `switch` of startBrowser.
unfoldable pub browse_protocol : LayerProtocol → Protocol
browse_protocol ipv4_protocol = proto_inet
browse_protocol ipv6_protocol = proto_inet6
browse_protocol any_ip_protocol = proto_inet
browse_protocol unknown_protocol = proto_inet

abbrev pub check_busy : Option ℕ → Effects
check_busy none = []
check_busy (some b) = emits (error browser_failed) ∷ []

abbrev pub check_browser : Option ℕ → Effects
check_browser none = emits (error browser_failed) ∷ []
check_browser (some b) = []

module _ (x : Externals) where
  -- startBrowser; a browser that runs already is an error, and then a second one is started.
  unfoldable pub start_browser :
      Option ℕ → State → Text → LayerProtocol → Option ℕ → State × Effects
  unfolding browse_protocol
  start_browser server s type protocol b =
      let p = browse_protocol protocol in
      (
        record s { a_protocol = p; browser = b },
        check_busy s.browser
            ++ calls (service_browser_new server p (x.to_utf8 type) b) ∷ check_browser b,
      )

  -- addServiceTxtRecord(nameOnly)
  unfoldable pub add_service_txt_name : State → Text → State
  add_service_txt_name s name = record s { txt = x.string_list_add s.txt (x.to_utf8 name) }

  -- addServiceTxtRecord(name, value)
  unfoldable pub add_service_txt_record : State → Text → Text → State
  unfolding add_service_txt_name
  add_service_txt_record s name value = add_service_txt_name s (txt_pair name value)

unfoldable pub stop_browser : State → State × Effects
unfolding broswer_clean_up
stop_browser s = broswer_clean_up s

unfoldable pub browser_exists : State → Bool
browser_exists s = is_some s.browser
