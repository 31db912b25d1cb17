-- ===== src/Window/Tests.antt =====
-- example/window.cpp at work, and its theorems at concrete inputs.
use qt_zero_conf.AvahiClient
use qt_zero_conf.AvahiCore
use qt_zero_conf.AvahiClient.Interface.{client_zero_conf, client-IsPrompt}
use qt_zero_conf.AvahiCore.Interface.{core_zero_conf, server_changes}
use qt_zero_conf.Window.Publish.{IsObeyed, run-IsObeyed, core_disobeys}
use qt_zero_conf.Window.{
  os_name, linux, add_service, update_service, remove_service, build_name, remove_colons, Window,
  Around, Platform, Entry, clicks, calls_back, changes_state, active, main_window, run,
}
use qt_zero_conf.Text.{Text, codes, text_eq}
use qt_zero_conf.Window.Cells.{add_row, Table, Row, remove_rows, Search}
use qt_zero_conf.Base.{
  refl, false, none, true, some, arith, ◌%◌, [], if◌then◌else◌, ◌≡◌, suc, ◌++◌, ◌∷◌, ◌+◌, ℕ, List,
}
use qt_zero_conf.Service.{blank, ServiceData, Externals}
use qt_zero_conf.Window.Removal.{remove_rows_lem, Finds}
use qt_zero_conf.Avahi.{proto_inet, Replies}
use qt_zero_conf.Window.Stale.{stale_row, rows_of}
use qt_zero_conf.AvahiCore.Api.{server_running}
use qt_zero_conf.ZeroConf.{IsPrompt}

abbrev digit : ℕ → Text
digit i = (48 + i % 10) ∷ []

abbrev ascii : Externals
ascii = record {
  number = digit;
  to_utf8 = λ t. t;
  host_address = λ a. a;
  string_list_add = λ l t. t ∷ l;
}

-- Column by column.
abbrev names_of : List Row → Text → List ℕ
names_of [] text = []
names_of (r ∷ rs) text =
    let rest = names_of rs text in
    if text_eq r.name_item.text text then r.name_item.pointer ∷ rest else rest

abbrev addresses_of : List Row → Text → List ℕ
addresses_of [] text = []
addresses_of (r ∷ rs) text =
    let rest = addresses_of rs text in
    if text_eq r.ip_item.text text then r.ip_item.pointer ∷ rest else rest

abbrev by_column : Search
by_column = record { find_items = λ rows text. names_of rows text ++ addresses_of rows text }

abbrev desktop : Platform
desktop = record {
  number = digit;
  to_utf8 = λ t. t;
  to_string = λ a. a;
  search = by_column;
  system = linux;
}

abbrev row : ℕ → Text → Text → Row
row i name ip = record {
  name_item = record { pointer = i; text = name };
  ip_item = record { pointer = suc i; text = ip };
}

abbrev printer : Text
printer = codes "p"

-- A printer at two addresses, and a scanner.
abbrev three_rows : List Row
three_rows =
    row 0 printer (codes "1") ∷ row 2 (codes "s") (codes "1") ∷ row 4 printer (codes "2") ∷ []

printers-Finds : Finds three_rows printer (by_column.find_items three_rows printer)
unfolding text_eq
printers-Finds = record { once = ground arith; all = λ i. ground arith }

remove_rows_lem_example :
    remove_rows by_column three_rows printer (codes "1")
    ≡ some (row 2 (codes "s") (codes "1") ∷ row 4 printer (codes "2") ∷ [])
unfolding text_eq
remove_rows_lem_example =
    remove_rows_lem by_column three_rows printer (codes "1") (ground arith) printers-Finds
      (ground arith)

abbrev client : AvahiClient.State
client = record {
  objects = [];
  services = [];
  client = some 1;
  group = none;
  browser = none;
  a_protocol = proto_inet;
  resolvers = [];
  txt = [];
}

abbrev around : Around desktop (client_zero_conf ascii)
around = record {
  answer = λ q. (record { group = some 5; added = true; committed = true }, some 6);
  hardware = codes "00:11:22:33:44:55";
}

abbrev opened : Window desktop (client_zero_conf ascii)
opened = main_window desktop (client_zero_conf ascii) client

-- The window becomes active, publishing is disabled, and the window becomes active again.
abbrev session : List (Entry desktop (client_zero_conf ascii))
session = changes_state around active ∷ clicks around 1 ∷ changes_state around active ∷ []

run-IsObeyed_example :
    IsObeyed desktop (client_zero_conf ascii) (run desktop (client_zero_conf ascii) opened session)
unfolding main_window
run-IsObeyed_example =
    run-IsObeyed desktop (client_zero_conf ascii) (client-IsPrompt ascii) opened session (λ e. cc)

abbrev core : AvahiCore.State
core = record {
  objects = [];
  services = [];
  group = none;
  browser = none;
  a_protocol = proto_inet;
  resolvers = [];
  txt = [];
  ready = false;
  register_waiting = true;
  name = printer;
  type = [];
  domain = [];
  port = 11437;
}

abbrev replies : Replies
replies = record { group = some 5; added = true; committed = true }

abbrev core_around : Around desktop (core_zero_conf ascii (some 1))
core_around = record { answer = λ q. (replies, some 6); hardware = [] }

abbrev waiting : Window desktop (core_zero_conf ascii (some 1))
waiting = record { publish_enabled = true; table = none; zero_conf = core; debug = [] }

core_disobeys_example :
    let w' =
      run desktop
        (core_zero_conf ascii (some 1))
        waiting
        (clicks core_around 1 ∷ calls_back (server_changes server_running replies) ∷ []) in
    (w'.publish_enabled ≡ false) × (AvahiCore.Api.publish_exists w'.zero_conf ≡ true)
core_disobeys_example =
    core_disobeys desktop ascii (some 1) waiting core_around replies refl refl refl
      (λ e. cc, refl, refl)

abbrev empty_table : Table
empty_table = record { rows = []; made = 0 }

abbrev printer_data : ServiceData
printer_data = record blank { name = printer; ip = codes "1" }

abbrev empty_window : Window desktop (core_zero_conf ascii (some 1))
empty_window = record waiting { table = some empty_table }

added-Finds :
    Finds
      (add_row empty_table printer (codes "1")).rows
      printer
      (by_column.find_items (add_row empty_table printer (codes "1")).rows printer)
unfolding add_row text_eq
added-Finds = record { once = ground arith; all = λ i. ground arith }

stale_row_example :
    let z = core_zero_conf ascii (some 1) in
    let moved = record printer_data { ip = codes "2" } in
    rows_of desktop z (
      remove_service desktop z
        (update_service desktop z (add_service desktop z empty_window printer_data) moved)
        moved)
    ≡ some (row 0 printer (codes "1") ∷ [])
unfolding text_eq
stale_row_example =
    stale_row desktop (core_zero_conf ascii (some 1)) empty_window empty_table printer_data
      (codes "2") refl (record { distinct = tt; below = tt }) tt refl refl added-Finds

-- The name on a computer that runs Linux.
linux_name :
    build_name linux (codes "00:11:22:33:44:55") ≡ codes "Qt ZeroConf Test - Linux (334455)"
unfolding build_name remove_colons os_name
linux_name = refl

client-IsPrompt_example : IsPrompt (client_zero_conf ascii)
client-IsPrompt_example = client-IsPrompt ascii
