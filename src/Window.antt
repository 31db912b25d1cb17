-- ===== src/Window.antt =====
-- example/window.cpp and window.h: the example's window, which publishes a service with a button and
-- shows the services that others publish in a table. Its QZeroConf is any wrapper: a parameter.
pub mod Cells
pub mod Removal
pub mod Name
pub mod Publish
pub mod Resume
pub mod Rows
pub mod Stale
mod Tests
mod Scenarios
use mathlib.Core.Option
use qt_zero_conf.ZeroConf.{
  Request, ZeroConf, start_browser_ipv4, start_service_publish, stop_service_publish, stop_browser,
  clear_service_txt_records, add_service_txt_name, add_service_txt_record,
}
use qt_zero_conf.Text.{Text, codes}
use qt_zero_conf.Base.{
  false, none, some, ◌==◌, not, drop, ◌&&◌, [], ◌++◌, if◌then◌else◌, Bool, get_elem?, ◌∷◌, Option,
  true, ℕ, List,
}
use qt_zero_conf.Service.{service_updated, service_removed, service_added, Signal, ServiceData}
use qt_zero_conf.Window.Cells.{remove_rows, add_row, Search, Table}
use qt_zero_conf.Service.Debug.{debug_text}

-- The system that the example is built for.
pub data System : Type 0 where
  ios mac android linux windows freebsd other_system : System

-- OS_NAME
unfoldable pub os_name : System → Text
os_name ios = codes "iOS"
os_name mac = codes "Mac"
os_name android = codes "Android"
os_name linux = codes "Linux"
os_name windows = codes "Windows"
os_name freebsd = codes "FreeBSD"
os_name other_system = codes "Some OS"

-- What the window takes of Qt, QString::number, toUtf8, QHostAddress::toString and findItems of the
-- table, and the system.
pub record Platform : Type 0 where
  pub number : ℕ → Text
  pub to_utf8 : Text → Text
  pub to_string : Text → Text
  pub search : Search
  pub system : System

-- The slots of the two buttons.
pub data Slot : Type 0 where
  start_publish_clicked stop_publish_clicked : Slot

-- A QPushButton with its label and the slot of its signal `clicked`, of a fixed size and centred, or
-- the table.
pub data Widget : Type 0 where
  push_button : Text → Slot → Widget
  service_table : Widget

-- What buildGUI lays out, from the top; the columns of the table, and whether its headers are shown;
-- and whether the window is. The sizes in pixels are left out.
pub record Gui : Type 0 where
  pub layout : List Widget
  pub column_count : ℕ
  pub vertical_header : Bool
  pub horizontal_header : Bool
  pub shown : Bool

-- buildGUI
unfoldable pub build_gui : Gui
build_gui = record {
  layout =
      push_button (codes " Enable Publish ") start_publish_clicked
      ∷ push_button (codes " Disable Publish ") stop_publish_clicked
      ∷ service_table
      ∷ [];
  column_count = 2;
  vertical_header = false;
  horizontal_header = false;
  shown = true;
}

-- `name.remove(":")`
unfoldable pub remove_colons : Text → Text
remove_colons [] = []
remove_colons (c ∷ t) = if c == b':' then remove_colons t else c ∷ remove_colons t

-- buildName; `hardware` is the hardware address of the last network interface.
unfoldable pub build_name : System → Text → Text
build_name system hardware =
    (codes "Qt ZeroConf Test - " ++ os_name system ++ codes " (")
    ++ drop 6 (remove_colons hardware)
    ++ codes ")"

abbrev pub service_type : Text
service_type = codes "_qtzeroconf_test._tcp"

-- Qt::ApplicationState
pub data ApplicationState : Type 0 where
  suspended hidden inactive active : ApplicationState

module _ (p : Platform) (z : ZeroConf) where
  -- The members of mainWindow with its QZeroConf, and the debug output, a label and a service each. The table is `none` once a
  -- slot has used an item that is deleted.
  pub record Window : Type 0 where
    pub publish_enabled : Bool
    pub table : Option Table
    pub zero_conf : z.Wrapper
    pub debug : List (Text × Text)

  -- The system around an entry: the answers to the requests, and the hardware address.
  pub record Around : Type 0 where
    pub answer : Request → z.Reply
    pub hardware : Text

  -- The constructor, which connects three signals of QZeroConf to slots; `wrapper` is the new
  -- QZeroConf.
  unfoldable pub main_window : z.Wrapper → Window
  main_window wrapper = record {
    publish_enabled = true;
    table = some (record { rows = []; made = 0 });
    zero_conf = wrapper;
    debug = [];
  }

  -- `qDebug() << label << zcs`
  abbrev pub with_debug : Window → Text → ServiceData → Window
  with_debug w label d = record w {
    debug = w.debug ++ (label, debug_text p.number p.to_string d) ∷ [];
  }

  -- addService
  unfoldable pub add_service : Window → ServiceData → Window
  add_service w d = record (with_debug w (codes "Added service: ") d) {
    table = Option.map (λ t. add_row t d.name (p.to_string d.ip)) w.table;
  }

  abbrev pub remove_from : Table → ServiceData → Option Table
  remove_from t d =
      Option.map (λ rows. record t { rows = rows })
        (remove_rows p.search t.rows d.name (p.to_string d.ip))

  -- removeService
  unfoldable pub remove_service : Window → ServiceData → Window
  remove_service w d = record (with_debug w (codes "Removed service: ") d) {
    table = elim w.table [ none ↦ none | some t ↦ remove_from t d ];
  }

  -- updateService
  unfoldable pub update_service : Window → ServiceData → Window
  update_service w d = with_debug w (codes "Service updated: ") d

  -- The slots that the constructor connects; the other signals have none.
  unfoldable pub on_signal : Window → Signal → Window
  on_signal w (service_added h) = add_service w (z.service w.zero_conf h)
  on_signal w (service_removed h) = remove_service w (z.service w.zero_conf h)
  on_signal w (service_updated h) = update_service w (z.service w.zero_conf h)
  on_signal w _ = w

  unfoldable pub on_signals : Window → List Signal → Window
  on_signals w [] = w
  on_signals w (e ∷ es) = on_signals (on_signal w e) es

  -- A method of QZeroConf, with the slots of the signals that it emits.
  unfoldable pub send : Around → Window → Request → Window
  send a w q =
      let (wrapper, emitted) = z.request w.zero_conf q (a.answer q) in
      on_signals (record w { zero_conf = wrapper }) emitted

  -- startPublish
  unfoldable pub start_publish : Around → Window → Window
  start_publish a w =
      let w1 = send a w clear_service_txt_records in
      let w2 = send a w1 (add_service_txt_record (codes "Qt") (codes "the best!")) in
      let w3 = send a w2 (add_service_txt_name (codes "ZeroConf is nice too")) in
      send a w3 (
        start_service_publish (p.to_utf8 (build_name p.system a.hardware)) service_type
          (codes "local") 11437 0)

  -- The two tests of appStateChanged for Qt::ApplicationActive.
  unfoldable pub resume_publish : Around → Window → Window
  resume_publish a w =
      if w.publish_enabled && not (z.publish_exists w.zero_conf) then start_publish a w else w

  unfoldable pub resume_browser : Around → Window → Window
  resume_browser a w =
      if not (z.browser_exists w.zero_conf) then send a w (start_browser_ipv4 service_type) else w

  -- appStateChanged
  unfoldable pub app_state_changed : Around → Window → ApplicationState → Window
  app_state_changed a w suspended = send a (send a w stop_service_publish) stop_browser
  app_state_changed a w active = resume_browser a (resume_publish a w)
  app_state_changed a w hidden = w
  app_state_changed a w inactive = w

  -- startPublishClicked
  unfoldable pub on_start_publish_clicked : Around → Window → Window
  on_start_publish_clicked a w =
      if w.publish_enabled then w else start_publish a (record w { publish_enabled = true })

  -- stopPublishClicked
  unfoldable pub on_stop_publish_clicked : Around → Window → Window
  on_stop_publish_clicked a w =
      if not w.publish_enabled
      then w
      else send a (record w { publish_enabled = false }) stop_service_publish

  unfoldable pub on_slot : Around → Window → Slot → Window
  on_slot a w start_publish_clicked = on_start_publish_clicked a w
  on_slot a w stop_publish_clicked = on_stop_publish_clicked a w

  -- A click on a widget of the layout.
  abbrev pub click : Around → Window → Option Widget → Window
  click a w none = w
  click a w (some service_table) = w
  click a w (some (push_button label slot)) = on_slot a w slot

  -- What the event loop delivers: a change of the application's state, a click on a widget, or a
  -- callback of the library beneath QZeroConf, with the slots of the signals that it emits.
  pub data Entry : Type 0 where
    changes_state : Around → ApplicationState → Entry
    clicks : Around → ℕ → Entry
    calls_back : z.Callback → Entry

  unfoldable pub step : Window → Entry → Window
  step w (changes_state a state) = app_state_changed a w state
  step w (clicks a place) = click a w (get_elem? build_gui.layout place)
  step w (calls_back c) =
      let (wrapper, emitted) = z.callback w.zero_conf c in
      on_signals (record w { zero_conf = wrapper }) emitted

  unfoldable pub run : Window → List Entry → Window
  run w [] = w
  run w (e ∷ es) = run (step w e) es

  -- main: the window is made, and then the event loop delivers entries.
  unfoldable pub main : z.Wrapper → List Entry → Window
  main wrapper es = run (main_window wrapper) es

-- The name and the version that main gives to the application.
pub record Application : Type 0 where
  pub name : Text
  pub version : Text

unfoldable pub application : Application
application = record { name = codes "QtZeroConf Example"; version = codes "0.1" }
