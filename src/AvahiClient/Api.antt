-- ===== src/AvahiClient/Api.antt =====
-- avahiclient.cpp: the methods of QZeroConf, and the step that one entry into the wrapper makes.
use qt_zero_conf.Base.{ℕ, Bool, not, ◌||◌, List, [], ◌∷◌, ◌++◌, Option, none, some, if◌then◌else◌}
use qt_zero_conf.Text.{Text}
use qt_zero_conf.QMap.{is_some}
use qt_zero_conf.Service.{
  Externals, service_registration_failed, browser_failed, error, emits, calls,
}
use qt_zero_conf.Service.Txt.{txt_pair}
use qt_zero_conf.Avahi.{
  Protocol, proto_inet, proto_inet6, EntryGroupState, LayerProtocol, ipv4_protocol, ipv6_protocol,
  any_ip_protocol, unknown_protocol, publish_interface, Browse, Resolve, client_free, group_new,
  group_commit, group_free, add_service, service_browser_new, string_list_free, Effects, Replies,
}
use qt_zero_conf.AvahiClient.{
  State, group_callback, broswer_clean_up, browse_callback, resolve_callback,
}

-- The last test of startServicePublish, `if (!pri->group) emit error(...)`.
abbrev pub check_group : Option ℕ → Effects
check_group none = emits (error service_registration_failed) ∷ []
check_group (some g) = []

-- The service is committed: on a negative result the group is set to NULL and then freed.
abbrev pub commit_group : State → Replies → State × Effects
commit_group s r =
    if r.committed
    then (record s { group = r.group }, calls (group_commit r.group) ∷ check_group r.group)
    else (
      record s { group = none },
      calls (group_commit r.group)
          ∷ calls (group_free none)
          ∷ emits (error service_registration_failed)
          ∷ check_group none,
    )

-- startServicePublish
unfoldable pub start_service_publish :
    State → Text → Text → Text → ℕ → ℕ → Replies → State × Effects
start_service_publish s name type domain port interface r =
    if not (is_some s.client) || is_some s.group
    then (s, emits (error service_registration_failed) ∷ [])
    else let opened : Effects =
        calls (group_new r.group)
        ∷ calls (add_service r.group (publish_interface interface) name type domain port s.txt)
        ∷ [] in
      if not r.added
      then (
        record s { group = none },
        opened ++ calls (group_free r.group) ∷ emits (error service_registration_failed) ∷ [],
      )
      else let (s', effects) = commit_group s r in (s', opened ++ effects)

unfoldable pub stop_service_publish : State → State × Effects
stop_service_publish s = elim s.group [
  | none ↦ (s, [])
  | some g ↦ (record s { group = none }, calls (group_free (some g)) ∷ [])
]

unfoldable pub publish_exists : State → Bool
publish_exists s = is_some s.group

unfoldable pub clear_service_txt_records : State → State × Effects
clear_service_txt_records s = (record s { txt = [] }, calls (string_list_free s.txt) ∷ [])

-- The `switch` of startBrowser.
unfoldable pub browse_protocol : LayerProtocol → Protocol
browse_protocol ipv4_protocol = proto_inet
browse_protocol ipv6_protocol = proto_inet6
browse_protocol any_ip_protocol = proto_inet
browse_protocol unknown_protocol = proto_inet

abbrev pub check_browser : Option ℕ → Effects
check_browser none = emits (error browser_failed) ∷ []
check_browser (some b) = []

module _ (x : Externals) where
  -- startBrowser; `b` is what avahi_service_browser_new returns, if it is called.
  unfoldable pub start_browser : State → Text → LayerProtocol → Option ℕ → State × Effects
  unfolding browse_protocol
  start_browser s type protocol b =
      if not (is_some s.client) || is_some s.browser
      then (s, emits (error browser_failed) ∷ [])
      else let p = browse_protocol protocol in
        (
          record s { a_protocol = p; browser = b },
          calls (service_browser_new s.client p (x.to_utf8 type) b) ∷ check_browser b,
        )

  -- addServiceTxtRecord(nameOnly)
  unfoldable pub add_service_txt_name : State → Text → State
  add_service_txt_name s name = record s { txt = x.string_list_add s.txt (x.to_utf8 name) }

  -- addServiceTxtRecord(name, value)
  unfoldable pub add_service_txt_record : State → Text → Text → State
  unfolding add_service_txt_name
  add_service_txt_record s name value = add_service_txt_name s (txt_pair name value)

unfoldable pub stop_browser : State → State × Effects
unfolding broswer_clean_up
stop_browser s = broswer_clean_up s

unfoldable pub browser_exists : State → Bool
browser_exists s = is_some s.browser

abbrev pub free_client : Option ℕ → Effects
free_client none = []
free_client (some c) = calls (client_free (some c)) ∷ []

-- The destructor; the state that it leaves is deleted.
unfoldable pub destroy : State → State × Effects
unfolding broswer_clean_up
destroy s =
    let (s', effects) = broswer_clean_up s in
    (s', calls (string_list_free s.txt) ∷ effects ++ free_client s.client)

-- An entry into the wrapper: a method that the application calls, or a callback of the library,
-- with what the library answers to the calls made on the way.
pub data Entry : Type 0 where
  starts_publish : Text → Text → Text → ℕ → ℕ → Replies → Entry
  stops_publish clears_txt stops_browser : Entry
  starts_browser : Text → LayerProtocol → Option ℕ → Entry
  adds_txt_name : Text → Entry
  adds_txt_record : Text → Text → Entry
  group_changes : Option ℕ → EntryGroupState → Entry
  browses : Browse → Option ℕ → Entry
  resolves : Resolve → Entry

module _ (x : Externals) where
  unfoldable pub step : State → Entry → State × Effects
  unfolding start_service_publish stop_service_publish clear_service_txt_records start_browser
      add_service_txt_record stop_browser group_callback browse_callback resolve_callback
  step s (starts_publish name type domain port interface r) =
      start_service_publish s name type domain port interface r
  step s stops_publish = stop_service_publish s
  step s clears_txt = clear_service_txt_records s
  step s stops_browser = stop_browser s
  step s (starts_browser type protocol b) = start_browser x s type protocol b
  step s (adds_txt_name name) = (add_service_txt_name x s name, [])
  step s (adds_txt_record name value) = (add_service_txt_record x s name value, [])
  step s (group_changes g state) = group_callback s g state
  step s (browses e r) = browse_callback x s e r
  step s (resolves e) = resolve_callback x s e

  -- Entries one after the other.
  unfoldable pub run : State → List Entry → State × Effects
  run s [] = (s, [])
  run s (e ∷ es) =
      let (s', effects) = step s e in let (s'', rest) = run s' es in (s'', effects ++ rest)
