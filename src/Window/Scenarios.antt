-- ===== src/Window/Scenarios.antt =====
-- example/window.cpp over androidnsd.cpp at work, and its theorem at a concrete input.
use qt_zero_conf.AndroidNsd
use qt_zero_conf.AndroidNsd.Threads
use qt_zero_conf.AndroidNsd.Interface.{android_zero_conf, posts, delivers}
use qt_zero_conf.Window.{
  System, calls_back, active, suspended, changes_state, run, Window, Around, Platform,
}
use qt_zero_conf.Base.{refl, ◌≡◌, false, none, [], some, true, drop, ◌∷◌}
use qt_zero_conf.Text.{codes}
use qt_zero_conf.AndroidNsd.Process.Objects.{Idle}
use qt_zero_conf.Window.Resume.{lost_on_resume}

abbrev phone : Platform
phone = record {
  number = λ i. i ∷ [];
  to_utf8 = λ t. t;
  to_string = λ a. a;
  search = record { find_items = λ rows text. [] };
  system = System.android;
}

abbrev android : AndroidNsd.Platform
android = record {
  remove_start = λ t. drop 1 t;
  to_utf8 = λ t. t;
  from_utf8 = λ t. t;
  host_address = λ t. t;
}

abbrev busy : AndroidNsd.State
busy = record {
  objects = [];
  services = [];
  browser_exists = true;
  publisher_exists = true;
  txt_records = [];
  publish_name = codes "p";
  publish_type = codes "t";
}

abbrev world : Threads.World
world = record {
  heap = some busy ∷ [];
  instances = 0 ∷ [];
  tasks = [];
  posted = [];
  misused = false;
}

abbrev around : Around phone (android_zero_conf android 0)
around = record { answer = λ q. true; hardware = [] }

abbrev visible : Window phone (android_zero_conf android 0)
visible = record { publish_enabled = true; table = none; zero_conf = world; debug = [] }

lost_on_resume_example :
    let z = android_zero_conf android 0 in
    let w' = run phone z visible (
      changes_state around suspended
      ∷ changes_state around active
      ∷ calls_back (posts (AndroidNsd.publisher_state_changed false false))
      ∷ calls_back delivers
      ∷ []) in
    (w'.publish_enabled ≡ true)
    × (z.publish_exists w'.zero_conf ≡ false)
    × (w'.zero_conf.tasks ≡ [])
    × Idle 0 w'.zero_conf.tasks
unfolding Threads.is_instance
lost_on_resume_example =
    lost_on_resume phone android 0 visible around busy refl refl refl tt refl refl refl refl refl
