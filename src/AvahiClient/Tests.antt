-- ===== src/AvahiClient/Tests.antt =====
-- The wrapper of avahiclient.cpp at work, and its theorems at concrete inputs.
use qt_zero_conf.AvahiClient.Api.{
  group_changes, stops_publish, starts_publish, start_service_publish, step, Entry, run,
  starts_browser, browses, resolves, stops_browser,
}
use qt_zero_conf.Avahi.{
  collision, Replies, Browse, Resolve, browser_new, browser_remove, proto_inet, ipv4_protocol,
}
use qt_zero_conf.Text.{text_lt, text_eq, Text}
use qt_zero_conf.Service.{service_registration_failed, set_ip, service_key, Externals}
use qt_zero_conf.AvahiClient.{
  group_callback, resolve_callback, browse_callback, free_resolvers, new_state, State,
}
use qt_zero_conf.Service.Signals.{Reported, emit_removed, removed, added}
use qt_zero_conf.Base.{
  ◌≤◌, ◌⊎◌, arith, ◌%◌, ◌/◌, none, ◌≡◌, ◌+◌, ltb, [], ◌++◌, some, if◌then◌else◌, refl, true, ◌∷◌,
  List, ℕ,
}
use qt_zero_conf.AvahiClient.Lifetime.{lifetime-frees, lifetime-removes, lifetime}
use qt_zero_conf.QMap.{values, remove, insert, lookup}
use qt_zero_conf.Service.Txt.{index_of, add_txt, read_txt}
use qt_zero_conf.AvahiClient.Invariant.{new_state-IsValid, run-IsValid, IsValid, AllowedAll}
use qt_zero_conf.AvahiClient.Lifecycle.{IsCleanAll, run-Conserves}
use qt_zero_conf.AvahiClient.Events.{resolve_found_files, browse_remove_forgets, IsFound}
use qt_zero_conf.Avahi.Resources.{entry_group, freed, resolver, made}
use qt_zero_conf.AvahiClient.Keys.{browse_new_ignored}
use qt_zero_conf.AvahiClient.Publish.{publish_errors, Succeeds, errors}
use qt_zero_conf.AvahiClient.Signals.{run-Reported}
use qt_zero_conf.AvahiClient.Conserves.{Conserves}

abbrev decimal : ℕ → Text
decimal i = if ltb i 10 then (48 + i) ∷ [] else (48 + i / 10) ∷ (48 + i % 10) ∷ []

abbrev ascii : Externals
ascii = record {
  number = decimal;
  to_utf8 = λ t. t;
  host_address = λ a. a;
  string_list_add = λ l t. t ∷ l;
}

abbrev printer : Text
printer = b'p' ∷ []

abbrev found_printer : Browse
found_printer = record {
  interface = 2;
  protocol = proto_inet;
  event = browser_new;
  name = printer;
  type = b't' ∷ [];
  domain = [];
}

abbrev lost_printer : Browse
lost_printer = record found_printer { event = browser_remove }

abbrev resolved_printer : Resolve
resolved_printer = record {
  interface = 2;
  found = true;
  name = printer;
  type = b't' ∷ [];
  domain = [];
  host_name = b'h' ∷ [];
  address = 10 ∷ [];
  port = 631;
  txt = (b'a' ∷ b'=' ∷ b'1' ∷ []) ∷ [];
}

abbrev fresh : State
fresh = record {
  objects = [];
  services = [];
  client = some 1;
  group = none;
  browser = none;
  a_protocol = proto_inet;
  resolvers = [];
  txt = [];
}

abbrev searching : List Entry
searching =
    starts_browser (b't' ∷ []) ipv4_protocol (some 7)
    ∷ browses found_printer (some 9)
    ∷ resolves resolved_printer
    ∷ []

abbrev history : List Entry
history = searching ++ browses lost_printer none ∷ stops_browser ∷ []

found_is_filed :
    (run ascii (new_state (some 1) proto_inet).0 searching).0.services
    ≡ (printer ++ 50 ∷ [], 0) ∷ []
unfolding run step new_state lookup insert remove service_key set_ip read_txt add_txt index_of
    text_eq text_lt values emit_removed free_resolvers
found_is_filed = refl

history-AllowedAll : AllowedAll ascii (new_state (some 1) proto_inet).0 history
unfolding run step new_state lookup insert remove service_key set_ip read_txt add_txt index_of
    text_eq text_lt values emit_removed free_resolvers
history-AllowedAll = (tt, ((λ e. cc), ((λ e. cc), ((λ e. cc), (tt, tt)))))

lifetime-removes_example :
    added 0 (lifetime ascii (some 1) proto_inet history)
    ≡ removed 0 (lifetime ascii (some 1) proto_inet history)
lifetime-removes_example = lifetime-removes ascii (some 1) proto_inet history 0 history-AllowedAll

lifetime-frees_example :
    made resolver 9 (lifetime ascii (some 1) proto_inet history)
    ≡ freed resolver 9 (lifetime ascii (some 1) proto_inet history)
lifetime-frees_example =
    lifetime-frees ascii resolver (some 1) proto_inet history 9 (λ e. cc) history-AllowedAll

fresh-IsValid : IsValid ascii fresh
unfolding new_state
fresh-IsValid = new_state-IsValid ascii (some 1) proto_inet

searching-AllowedAll : AllowedAll ascii fresh searching
unfolding step lookup insert remove service_key set_ip read_txt add_txt index_of text_eq text_lt
    values emit_removed free_resolvers
searching-AllowedAll = (tt, ((λ e. cc), ((λ e. cc), tt)))

run-Reported_example :
    Reported fresh.services (run ascii fresh searching).1 (run ascii fresh searching).0.services
run-Reported_example = run-Reported ascii fresh searching fresh-IsValid searching-AllowedAll

run-IsValid_example : IsValid ascii (run ascii fresh searching).0
run-IsValid_example = run-IsValid ascii fresh searching searching-AllowedAll fresh-IsValid

-- A service is published, its name collides, and it is published again and taken back.
abbrev publishing : List Entry
publishing =
    starts_publish printer (b't' ∷ []) [] 631 0
      (record { group = some 5; added = true; committed = true })
    ∷ group_changes (some 5) collision
    ∷ starts_publish printer (b't' ∷ []) [] 631 0
        (record { group = some 6; added = true; committed = true })
    ∷ stops_publish
    ∷ []

publishing-IsCleanAll : IsCleanAll ascii fresh publishing
unfolding step start_service_publish group_callback
publishing-IsCleanAll = ((λ e. refl), (refl, ((λ e. refl), (tt, tt))))

run-Conserves_example : Conserves entry_group fresh (run ascii fresh publishing)
run-Conserves_example =
    run-Conserves ascii entry_group fresh publishing fresh-IsValid (tt, (tt, (tt, (tt, tt))))
      (λ e. publishing-IsCleanAll)

abbrev filed : State
filed = record fresh {
  objects =
      record {
        name = printer;
        type = b't' ∷ [];
        domain = [];
        host = b'h' ∷ [];
        ip = 10 ∷ [];
        interface_index = 2;
        port = 631;
        txt = [];
      }
      ∷ [];
  services = (printer ++ 50 ∷ [], 0) ∷ [];
  browser = some 7;
  resolvers = (printer ++ 50 ∷ [], some 9) ∷ [];
}

filed-IsValid : IsValid ascii filed
unfolding service_key lookup
filed-IsValid = record {
  services_sorted = (tt, tt);
  resolvers_sorted = (tt, tt);
  filed = (refl, tt);
  covered = λ k h. ground arith;
  idle = λ e. cc;
}

browse_remove_forgets_example :
    let t = (browse_callback ascii filed lost_printer none).0 in
    (lookup (printer ++ 50 ∷ []) t.services ≡ none)
    × (lookup (printer ++ 50 ∷ []) t.resolvers ≡ none)
unfolding service_key text_eq
browse_remove_forgets_example =
    browse_remove_forgets ascii filed found_printer none (printer ++ 50 ∷ []) filed-IsValid

resolve_found_files_example :
    IsFound ascii resolved_printer filed (resolve_callback ascii filed resolved_printer).0
resolve_found_files_example = resolve_found_files ascii filed resolved_printer filed-IsValid refl

abbrev replies : Replies
replies = record { group = some 5; added = true; committed = true }

publish_errors_example :
    let q = start_service_publish fresh printer (b't' ∷ []) [] 631 0 replies in
    (Succeeds fresh replies × (errors service_registration_failed q.1 ≡ 0) × (q.0.group ≡ some 5))
    ⊎ ((¬ Succeeds fresh replies)
        × (1 ≤ errors service_registration_failed q.1)
        × ((q.0.group ≡ none) ⊎ (q.0.group ≡ none)))
publish_errors_example = publish_errors fresh printer (b't' ∷ []) [] 631 0 replies

-- "p1" on interface 2 and "p" on interface 12.
abbrev crowded : State
crowded = record filed { resolvers = (b'p' ∷ b'1' ∷ b'2' ∷ [], some 9) ∷ [] }

browse_new_ignored_example :
    browse_callback ascii crowded (record found_printer { interface = 12 }) none ≡ (crowded, [])
unfolding lookup service_key text_eq
browse_new_ignored_example =
    browse_new_ignored ascii crowded found_printer (b'1' ∷ []) 12 (some 9) none refl refl

abbrev records : List (Text × Text)
records = (b'a' ∷ [], b'1' ∷ []) ∷ (b'a' ∷ [], b'2' ∷ []) ∷ []
