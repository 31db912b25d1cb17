-- ===== src/Bonjour/Tests.antt =====
-- bonjour.cpp on concrete records, services and resolvers.
use qt_zero_conf.Base.{
  false, none, some, true, refl, arith, ◌%◌, ◌/◌, ◌≡◌, ◌+◌, ◌++◌, [], ltb, ◌∷◌, if◌then◌else◌, ℕ,
  List,
}
use qt_zero_conf.Text.{Text, text_eq, text_lt}
use qt_zero_conf.Bonjour.Wire.{
  wire_roundtrip, read_wire_overruns, read_wire_whole, entries, overrun, append_entry, read_wire,
  append_entries, wire,
}
use qt_zero_conf.Service.{set_ip, service_added, emits, service_key, blank, Externals}
use qt_zero_conf.Service.Txt.{read_txt}
use qt_zero_conf.Bonjour.{
  resolver_clean_up, protocol_ipv4, Resolver, Reply, new_state, Effects, ◌>>=◌, Visits, State,
}
use qt_zero_conf.QMap.{lookup, values, contains, insert, remove}
use qt_zero_conf.Bonjour.Callbacks.{
  AddressReply, Browse, browse_callback, on_browse_add, resolve, on_resolved, on_address,
  resolver_callback, address_reply,
}
use qt_zero_conf.Bonjour.Removal.{removed_before_resolved, files}
use qt_zero_conf.Bonjour.Api.{
  resolver_ready, addresses, browses, step, run, destroy, Entry, starts_browser, start_browser,
  resolves, resolver_reads, stops_browser, stop_browser,
}
use qt_zero_conf.Bonjour.Safety.{lifetime-IsSafe, AllowedAll}
use qt_zero_conf.Bonjour.Lifetime.{lifetime-Conserves}
use qt_zero_conf.Bonjour.References.{made, freed, kept}
use qt_zero_conf.Bonjour.CleanUp.{Good, Returns, After}
use qt_zero_conf.Bonjour.Iterators.{stop_faults}
use qt_zero_conf.Bonjour.Orphan.{orphaned, announces, granted, Lingers, found}
use qt_zero_conf.Avahi.{ipv4_protocol}

abbrev decimal : ℕ → Text
decimal i = if ltb i 10 then (48 + i) ∷ [] else (48 + i / 10) ∷ (48 + i % 10) ∷ []

abbrev ascii : Externals
ascii = record {
  number = decimal;
  to_utf8 = λ t. t;
  host_address = λ a. a;
  string_list_add = λ l t. t ∷ l;
}

abbrev path : Text
path = b'p' ∷ b'=' ∷ b'/' ∷ []

abbrev flag : Text
flag = b'f' ∷ []

read_wire_whole_example :
    read_wire 3 [] 6 (wire (path ∷ flag ∷ []) ++ 9 ∷ []) ≡ entries (read_txt [] (path ∷ flag ∷ []))
unfolding wire
read_wire_whole_example =
    read_wire_whole 3 [] (path ∷ flag ∷ []) (9 ∷ []) (omega arith) (omega arith)

read_wire_overruns_example : read_wire 7 [] 6 (wire (path ∷ []) ++ 9 ∷ b'f' ∷ []) ≡ overrun
unfolding wire
read_wire_overruns_example =
    read_wire_overruns 7 [] (path ∷ []) 9 (b'f' ∷ []) (omega arith) (omega arith) (omega arith)

wire_roundtrip_example :
    read_wire 7 [] 6 (append_entries ascii [] (path ∷ flag ∷ []))
    ≡ entries (read_txt [] (path ∷ flag ∷ []))
unfolding append_entries append_entry
wire_roundtrip_example =
    wire_roundtrip ascii (path ∷ flag ∷ []) (refl, omega arith, (refl, omega arith, tt))
      (omega arith)

abbrev waiting : Resolver
waiting = record {
  zcs = 0;
  resolver_ref = some 5;
  address_ref = some 6;
  resolver_notifier = true;
  address_notifier = true;
}

abbrev answer : Reply
answer = record { ok = true; ref = none; has_socket = true }

-- A service that is announced and whose Resolver waits for its address.
abbrev resolving : State
resolving = record (new_state protocol_ipv4) {
  objects = record blank { name = flag; interface_index = 2 } ∷ [];
  resolvers = (b'f' ∷ b'2' ∷ [], 0) ∷ [];
  heap = some waiting ∷ [];
}

abbrev in_order : Visits
in_order = record { visit = values }

removed_before_resolved_example :
    let lost : Browse = record {
      ok = true;
      add = false;
      interface = 2;
      name = flag;
      type = [];
      domain = [];
    } in
    let found : AddressReply = record { ok = true; add = true; interface = 2; address = path } in
    let filed = files ascii resolving waiting (service_key ascii flag 2) path in
    (step ascii in_order resolving (browses lost answer) ≡ some (resolving, []))
    × (step ascii in_order resolving (addresses 0 found)
        ≡ some (filed, emits (service_added 0) ∷ []))
    × (lookup (service_key ascii flag 2) filed.services ≡ some 0)
unfolding new_state lookup
removed_before_resolved_example =
    removed_before_resolved ascii in_order resolving 2 0 [] [] path waiting answer refl refl

-- A browser finds a service, resolves it, gets its address, and the Resolver fails afterwards.
abbrev found_and_lost : List Entry
found_and_lost =
    starts_browser flag ipv4_protocol (granted 4)
    ∷ browses (announces 2 flag [] []) (granted 5)
    ∷ resolves 0
        (record {
          ok = true;
          interface = 2;
          host_name = path;
          port = 80;
          txt_len = 6;
          txt_record = wire (path ∷ flag ∷ []);
        })
        (granted 6)
    ∷ addresses 0 (found 2 path)
    ∷ resolver_reads 0 false
    ∷ []

found_and_lost-Allowed : AllowedAll ascii in_order (new_state protocol_ipv4) found_and_lost
unfolding new_state step start_browser browse_callback on_browse_add resolve resolver_callback
    on_resolved read_wire address_reply on_address wire contains insert service_key lookup
    resolver_ready resolver_clean_up
found_and_lost-Allowed = (
  (λ e. cc),
  (
    (λ e. cc),
    (((λ e. cc), λ ok. (path ∷ flag ∷ [], refl, refl, omega arith)), ((λ e. cc), ((λ e. cc), tt))),
  ),
)

-- The Resolver has taken its entry away.
found_and_lost-empty :
    After (λ t. t.resolvers ≡ []) (run ascii in_order (new_state protocol_ipv4) found_and_lost)
unfolding run new_state step start_browser browse_callback on_browse_add resolve resolver_callback
    on_resolved read_wire address_reply on_address wire contains insert remove service_key lookup
    resolver_ready resolver_clean_up text_eq text_lt set_ip
found_and_lost-empty = refl

lifetime-IsSafe_example :
    Returns
      (Good ascii (new_state protocol_ipv4))
      (run ascii in_order (new_state protocol_ipv4) found_and_lost >>= destroy ascii in_order)
lifetime-IsSafe_example =
    lifetime-IsSafe ascii in_order protocol_ipv4 found_and_lost (λ m h. refl) found_and_lost-Allowed
      found_and_lost-empty

lifetime-Conserves_example :
    Returns {A = State × Effects}
      (λ q. (p : ℕ) → made p q.1 ≡ freed p q.1 + kept p q.0)
      (run ascii in_order (new_state protocol_ipv4) found_and_lost >>= destroy ascii in_order)
lifetime-Conserves_example =
    lifetime-Conserves ascii in_order protocol_ipv4 found_and_lost (λ m h. refl)
      found_and_lost-Allowed found_and_lost-empty

-- With a browser, and a Resolver that no longer stands in the map.
abbrev browsing : State
browsing = record resolving { browser = some 4; resolvers = [] }

abbrev first_resolver : Resolver
first_resolver = record waiting {
  zcs = 1;
  resolver_ref = some 7;
  address_ref = none;
  address_notifier = false;
}

orphaned_example :
    Returns {A = State × Effects}
      (λ q. Lingers ascii in_order 1 first_resolver (found 3 path) q.0)
      (run ascii in_order browsing (
        browses (announces 3 flag [] []) (granted 7)
        ∷ browses (announces 3 flag [] path) (granted 8)
        ∷ resolver_reads 2 false
        ∷ stops_browser
        ∷ []))
unfolding new_state lookup service_key
orphaned_example =
    orphaned ascii in_order browsing 3 4 7 8 flag [] [] path path (λ m h. refl) refl refl refl

-- The browser is stopped while the Resolver of a service waits.
stop_faults_example : stop_browser ascii in_order (record resolving { browser = some 4 }) ≡ none
unfolding new_state service_key
stop_faults_example =
    stop_faults ascii in_order (record resolving { browser = some 4 }) 4 (λ m h. refl)
      (record { keyed = (refl, tt); services_sorted = tt; resolvers_sorted = (tt, tt) }) refl
      (λ e. cc)
