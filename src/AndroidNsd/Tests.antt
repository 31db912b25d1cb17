-- ===== src/AndroidNsd/Tests.antt =====
-- androidnsd.cpp with concrete services and objects.
use qt_zero_conf.Base.{
  true, false, some, none, arith, refl, Option, ◌++◌, length, ◌==◌, if◌then◌else◌, ◌≡◌, [], ◌∷◌,
  List,
}
use qt_zero_conf.AndroidNsd.Threads.{
  object, run_task, registers, deliver, is_instance, remove_all, on_service_resolved_jni,
  read_attributes, start_service_publish, destroy, new_world, World, post, create,
}
use qt_zero_conf.Text.{text_lt, text_eq, Text}
use qt_zero_conf.AndroidNsd.{
  on_service_removed, on_service_resolved, service_lost, service_resolved, Slot, Resolved, invoke,
  invoke_all, fill, new_state, Platform,
}
use qt_zero_conf.AndroidNsd.Slots.{invoke_all-Keeps, IsValid, Keeps}
use qt_zero_conf.Service.{blank}
use qt_zero_conf.AndroidNsd.Tasks.{destroyed_registration}
use qt_zero_conf.AndroidNsd.Interface.{invoke_request}
use qt_zero_conf.AndroidNsd.Process.{
  Event, constructs, requests, runs_task, posts_resolved, delivers, destructs, posts, step, run,
  construct, destruct,
}
use qt_zero_conf.AndroidNsd.Process.Steps.{IsSound}
use qt_zero_conf.AndroidNsd.Process.Sound.{process-IsSound, Leads}
use qt_zero_conf.ZeroConf.{Request}
use qt_zero_conf.NsdManager
use qt_zero_conf.NsdManager.{Entry, ServiceInfo}
use qt_zero_conf.AndroidNsd.Listeners
use qt_zero_conf.AndroidNsd.Listeners.{Android, listens, resolved_of}
use qt_zero_conf.AndroidNsd.Listeners.Drain.{pipeline, deliveries}
use qt_zero_conf.AndroidNsd.Listeners.Pipeline.{entries}
use qt_zero_conf.AndroidNsd.Listeners.Reports.{reports}
use qt_zero_conf.QMap.{remove, lookup, insert}

-- "^." matches any one character but a line feed.
abbrev without_first : Text → Text
without_first [] = []
without_first (c ∷ t) = if c == 10 then c ∷ t else t

abbrev plain : Platform
plain = record {
  remove_start = without_first;
  to_utf8 = λ t. t;
  from_utf8 = λ t. t;
  host_address = λ t. t;
}

abbrev printer : Text
printer = b'p' ∷ []

abbrev scanner : Text
scanner = b's' ∷ []

abbrev http : Text
http = b'_' ∷ b'h' ∷ []

abbrev found : Text → Resolved
found name = record {
  name = name;
  type = b'.' ∷ http;
  host_name = [];
  address = [];
  port = 80;
  txt_records = [];
}

abbrev life : List Slot
life =
    service_resolved (found printer)
    ∷ service_resolved (found scanner)
    ∷ service_resolved (found printer)
    ∷ service_lost printer
    ∷ []

new_state-IsValid : IsValid new_state
unfolding new_state
new_state-IsValid = record { sorted = tt; filed = tt }

invoke_all-Keeps_example : Keeps new_state (invoke_all plain new_state life)
invoke_all-Keeps_example = invoke_all-Keeps plain new_state life new_state-IsValid

-- The life files the scanner alone.
life_services : (invoke_all plain new_state life).0.services ≡ (scanner, 1) ∷ []
unfolding invoke_all new_state invoke on_service_resolved on_service_removed fill insert lookup
    remove text_eq text_lt
life_services = refl

-- A type with the dot in front, as Android gives it, and one without.
strips : (fill plain blank (found printer)).type ≡ http
unfolding fill
strips = refl

strips_letter : (fill plain blank (record (found printer) { type = http })).type ≡ b'h' ∷ []
unfolding fill
strips_letter = refl

abbrev one : World
one = (create new_world true).0

destroyed_registration_example :
    let w' = destroy (start_service_publish one 0 new_state printer http 631) 0 in
    (w'.tasks ≡ registers 0 631 ∷ []) × (run_task plain w' (registers 0 631) ≡ none)
unfolding create new_world
destroyed_registration_example =
    destroyed_registration plain one 0 new_state printer http 631 (omega arith)

-- An application publishes, hears of a printer, and deletes the object; then Android reports that
-- the printer is gone.
abbrev session : List Event
session =
    constructs true
    ∷ requests 0 (Request.start_service_publish printer http [] 631 0) false
    ∷ runs_task
    ∷ posts_resolved 0 (found scanner) []
    ∷ delivers
    ∷ destructs 0
    ∷ posts 0 (service_lost scanner)
    ∷ delivers
    ∷ []

process-IsSound_example : Leads plain IsSound (run plain new_world session)
unfolding new_world step run_task create construct invoke_request on_service_resolved_jni deliver
    destruct destroy post is_instance remove_all on_service_resolved invoke new_state lookup
    read_attributes
process-IsSound_example =
    process-IsSound plain session
      (tt, ((λ e. cc), (tt, (tt, (tt, (((λ e. cc), tt), (tt, (tt, tt))))))))

abbrev announced : Text → ServiceInfo
announced name = record {
  name = name;
  type = b'.' ∷ http;
  host_name = [];
  address = [];
  port = 80;
  attributes = [];
}

abbrev append_attribute : NsdManager.Platform
append_attribute = record { set_attribute = λ m key value. m ++ (key, value) ∷ [] }

abbrev without_attributes : ServiceInfo → List (Text × Option Text)
without_attributes info = []

abbrev both : Android
both = record { java = NsdManager.new_state; world = one }

-- Two services are found; the event loop has taken the slot of the first when the second is resolved
-- and the first goes.
abbrev browsing : List Listeners.Event
browsing =
    listens (Entry.service_found 0 (announced printer))
    ∷ listens (Entry.service_found 0 (announced scanner))
    ∷ listens (Entry.service_resolved 0 (announced printer))
    ∷ Listeners.delivers
    ∷ listens (Entry.service_resolved 0 (announced scanner))
    ∷ listens (Entry.service_lost 0 (announced printer))
    ∷ []

pipeline_example :
    let first = Listeners.run plain without_attributes append_attribute 0 both browsing in
    let last =
      Listeners.run plain without_attributes append_attribute 0 first.0
        (deliveries (length first.0.world.posted)) in
    let direct = invoke_all plain new_state (
      reports plain without_attributes 0
        (NsdManager.run append_attribute both.java (entries browsing)).1) in
    (last.0.world.posted ≡ [])
    × (object last.0.world 0 ≡ some direct.0)
    × (first.1 ++ last.1 ≡ direct.1)
unfolding create new_world is_instance
pipeline_example =
    pipeline plain without_attributes append_attribute 0 both new_state browsing refl (ground arith)
      refl

-- Just the scanner is filed in the end.
browsing_services :
    (invoke_all plain new_state (
      reports plain without_attributes 0
        (NsdManager.run append_attribute both.java (entries browsing)).1)).0.services
    ≡ (scanner, 1) ∷ []
unfolding invoke_all new_state invoke on_service_resolved on_service_removed fill insert lookup
    remove text_eq text_lt NsdManager.run NsdManager.step NsdManager.new_state
    NsdManager.enqueue_resolver NsdManager.process_resolver_queue NsdManager.on_service_resolved
    resolved_of
browsing_services = refl
