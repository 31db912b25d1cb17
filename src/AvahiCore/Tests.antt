-- ===== src/AvahiCore/Tests.antt =====
-- The wrapper of avahicore.cpp at work, and its theorems at concrete inputs.
use qt_zero_conf.AvahiClient
use qt_zero_conf.AvahiCore.Api.{
  stop_browser, server_callback, start_browser, stop_service_publish, register_service,
  server_running, start_service_publish,
}
use qt_zero_conf.AvahiCore.Server.{create, here, World, delete, step, server_changes}
use qt_zero_conf.AvahiCore.{
  broswer_clean_up, group_callback, resolve_callback, browse_callback, new_state, State,
}
use qt_zero_conf.Avahi.{EntryGroupState, Resolve, ipv4_protocol, proto_inet, Browse, Replies}
use qt_zero_conf.Service.{browser_failed, service_registration_failed, Externals}
use qt_zero_conf.Base.{◌⊎◌, arith, refl, none, ℕ, false, true, [], ◌∷◌, Option, ◌≡◌, some}
use qt_zero_conf.AvahiCore.Publish.{
  register_errors, register-Conserves, stop_keeps_waiting, Succeeds,
}
use qt_zero_conf.Avahi.Resources.{made, browser, held, freed, entry_group, Balanced}
use qt_zero_conf.AvahiCore.Same.{callbacks-same, as_client, on_client}
use qt_zero_conf.AvahiCore.Server.Second.{second_never_publishes}
use qt_zero_conf.AvahiCore.Server.Deleted.{deleted_owner, frees_server}
use qt_zero_conf.QMap.Count.{count}
use qt_zero_conf.AvahiClient.Publish.{errors}
use qt_zero_conf.AvahiCore.Browser.{start_browser_twice}
use qt_zero_conf.AvahiCore.{on_browser_new, on_browser_event, on_resolver_found}
use qt_zero_conf.Avahi.{browser_new, browser_remove}
use qt_zero_conf.Base.{List}
use qt_zero_conf.Text.{text_eq, text_lt}
use qt_zero_conf.Service.{set_ip, service_key}
use qt_zero_conf.Service.Txt.{read_txt}
use qt_zero_conf.QMap.{lookup, contains, insert}
use qt_zero_conf.AvahiCore.Uses
use qt_zero_conf.AvahiCore.Uses.{Use, requests, calls_back, run, Keeps, AllowedAll}
use qt_zero_conf.AvahiCore.Signals.{core-Reported}
use qt_zero_conf.AvahiCore.Interface.{browses, resolves, invoke, called}
use qt_zero_conf.AvahiClient.Invariant.{IsValid}
use qt_zero_conf.ZeroConf.{Request}

abbrev plain : Externals
plain = record {
  number = λ i. i ∷ [];
  to_utf8 = λ t. t;
  host_address = λ a. a;
  string_list_add = λ l t. t ∷ l;
}

abbrev fresh : State
fresh = record {
  objects = [];
  services = [];
  group = none;
  browser = none;
  a_protocol = proto_inet;
  resolvers = [];
  txt = [];
  ready = false;
  register_waiting = false;
  name = [];
  type = [];
  domain = [];
  port = 0;
}

abbrev replies : Replies
replies = record { group = some 5; added = true; committed = true }

abbrev refused : Replies
refused = record { group = some 5; added = true; committed = false }

callbacks-same_example :
    ((e : Browse) (r : Option ℕ)
      → on_client (some 1) (browse_callback plain (some 1) fresh e r)
        ≡ AvahiClient.browse_callback plain (as_client (some 1) fresh) e r)
    × ((e : Resolve)
        → on_client (some 1) (resolve_callback plain (some 1) fresh e)
          ≡ AvahiClient.resolve_callback plain (as_client (some 1) fresh) e)
    × ((g : Option ℕ) (state : EntryGroupState)
        → on_client (some 1) (group_callback fresh g state)
          ≡ AvahiClient.group_callback (as_client (some 1) fresh) g state)
    × (on_client (some 1) (broswer_clean_up fresh)
        ≡ AvahiClient.broswer_clean_up (as_client (some 1) fresh))
callbacks-same_example = callbacks-same plain (some 1) fresh

register_errors_example :
    let q = register_service (some 1) fresh (b'p' ∷ []) (b't' ∷ []) [] 631 0 refused in
    (Succeeds refused × (errors service_registration_failed q.1 ≡ 0) × (q.0.group ≡ some 5))
    ⊎ ((¬ Succeeds refused) × (errors service_registration_failed q.1 ≡ 1) × (q.0.group ≡ none))
register_errors_example = register_errors (some 1) fresh (b'p' ∷ []) (b't' ∷ []) [] 631 0 refused

register-Conserves_example :
    let q = register_service (some 1) fresh (b'p' ∷ []) (b't' ∷ []) [] 631 0 refused in
    Balanced entry_group (λ p. held p fresh.group) q.1 (λ p. held p q.0.group)
register-Conserves_example =
    register-Conserves (some 1) fresh (b'p' ∷ []) (b't' ∷ []) [] 631 0 refused refl

abbrev waiting : State
waiting = record fresh { register_waiting = true; name = b'p' ∷ [] }

stop_keeps_waiting_example :
    let stopped = stop_service_publish waiting in
    (stopped ≡ (waiting, []))
    × ((server_callback (some 1) stopped.0 server_running replies).0.group ≡ some 5)
stop_keeps_waiting_example =
    stop_keeps_waiting (some 1) waiting replies refl refl ((λ e. cc), refl, refl)

abbrev browsing : State
browsing = record fresh { browser = some 7 }

start_browser_twice_example :
    let q = start_browser plain (some 1) browsing (b't' ∷ []) ipv4_protocol (some 8) in
    (q.0.browser ≡ some 8)
    × (freed browser 7 q.1 ≡ 0)
    × (made browser 8 q.1 ≡ 1)
    × (errors browser_failed q.1 ≡ 1)
    × (freed browser 7 (stop_browser q.0).1 ≡ 0)
start_browser_twice_example =
    start_browser_twice plain (some 1) browsing (b't' ∷ []) ipv4_protocol 7 8 (omega arith) refl

abbrev one : World
one = record { server = some 1; reference_count = 1; owner = some 0; instances = some fresh ∷ [] }

second_never_publishes_example :
    let u = (create one proto_inet 0 none).0 in
    let q = start_service_publish u.server fresh (b'p' ∷ []) (b't' ∷ []) [] 631 0 replies in
    (q.1 ≡ []) × (q.0.group ≡ none)
unfolding create new_state
second_never_publishes_example =
    second_never_publishes one (create one proto_inet 0 none).0 0 proto_inet 0 631 0 (b'p' ∷ [])
      (b't' ∷ []) [] none replies fresh refl (omega arith) (omega arith) here refl

-- Two objects, of which the first is publishing.
abbrev two : World
two = record {
  server = some 1;
  reference_count = 2;
  owner = some 0;
  instances = some (record fresh { group = some 5 }) ∷ some fresh ∷ [];
}

deleted_owner_example :
    let w' = (delete two 0 (record fresh { group = some 5 })).0 in
    (count frees_server (delete two 0 (record fresh { group = some 5 })).1 ≡ 0)
    × (freed entry_group 5 (delete two 0 (record fresh { group = some 5 })).1 ≡ 0)
    × (step w' (server_changes server_running replies) ≡ none)
unfolding delete
deleted_owner_example =
    deleted_owner two (delete two 0 (record fresh { group = some 5 })).0 0 5
      (record fresh { group = some 5 }) server_running replies refl (omega arith) (omega arith) here
      refl

abbrev printer : Browse
printer = record {
  event = browser_new;
  name = b'p' ∷ [];
  type = b't' ∷ [];
  domain = [];
  interface = 3;
  protocol = proto_inet;
}

abbrev printer_found : Resolve
printer_found = record {
  found = true;
  name = b'p' ∷ [];
  type = b't' ∷ [];
  domain = [];
  host_name = [];
  address = b'1' ∷ [];
  interface = 3;
  port = 631;
  txt = [];
}

-- A printer comes, its address is found, and it goes again.
abbrev visit : List Use
visit =
    requests (Request.start_browser (b't' ∷ []) ipv4_protocol) (replies, some 7)
    ∷ calls_back (browses printer (some 9))
    ∷ calls_back (resolves printer_found)
    ∷ calls_back (browses (record printer { event = browser_remove }) none)
    ∷ []

fresh-IsValid : IsValid plain (as_client (some 1) fresh)
unfolding lookup
fresh-IsValid = record {
  services_sorted = tt;
  resolvers_sorted = tt;
  filed = tt;
  covered = λ k e. refl;
  idle = λ e. (refl, refl);
}

visit-AllowedAll : AllowedAll plain (some 1) fresh visit
unfolding invoke start_browser called browse_callback on_browser_new on_browser_event lookup
    contains insert Uses.step resolve_callback text_eq text_lt on_resolver_found set_ip service_key
    read_txt
visit-AllowedAll = (refl, ((λ e. cc), ((λ e. cc), ((λ e. cc), tt))))

core-Reported_example : Keeps plain (some 1) fresh (run plain (some 1) fresh visit)
core-Reported_example = core-Reported plain (some 1) fresh visit visit-AllowedAll fresh-IsValid
