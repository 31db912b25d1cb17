-- ===== src/AndroidNsd/Listeners.antt =====
-- QZeroConfNsdManager.java and androidnsd.cpp together: the listeners of Java call the native methods,
-- which queue slots for the Qt thread, and the event loop runs them.
pub mod Reports
pub mod Pipeline
pub mod Drain
use qt_zero_conf.AndroidNsd
use qt_zero_conf.AndroidNsd.{
  Platform, Effects, Resolved, Slot, service_lost, browser_state_changed, publisher_state_changed,
  name_changed,
}
use qt_zero_conf.AndroidNsd.Threads.{World, post, on_service_resolved_jni, deliver}
use qt_zero_conf.NsdManager
use qt_zero_conf.NsdManager.{Call, Entry, ServiceInfo}
use qt_zero_conf.Base.{ℕ, if◌then◌else◌, ◌==◌, List, [], ◌∷◌, ◌++◌, Option}
use qt_zero_conf.Text.{Text}

-- The two halves: the static members of the Java class and the objects of C++.
pub record Android : Type 0 where
  pub java : NsdManager.State
  pub world : World

-- A listener is called on the Android thread, or the event loop of the Qt thread takes a slot.
pub data Event : Type 0 where
  listens : Entry → Event
  delivers : Event

-- The arguments that onServiceResolved of the ResolveListener hands over; the TXT records are read
-- from the attributes by the native method.
unfoldable pub resolved_of : ServiceInfo → Resolved
resolved_of info = record {
  name = info.name;
  type = info.type;
  host_name = info.host_name;
  address = info.address;
  port = info.port;
  txt_records = [];
}

-- The effects of a slot, if it is one of the object `i`.
abbrev pub heard : ℕ → List (ℕ × Slot) → Effects → Effects
heard i [] effects = []
heard i ((j, slot) ∷ rest) effects = if j == i then effects else []

-- `attributes` is NsdServiceInfo.getAttributes(), a map in which a value may be null.
module _ (p : Platform) (attributes : ServiceInfo → List (Text × Option Text)) where
  -- The native methods of Java are functions of C++, as `methods` of the constructor says; the other
  -- calls are of NsdManager.
  unfoldable pub call_native : World → Call → World
  unfolding resolved_of
  call_native w (Call.on_service_resolved_jni id info) =
      on_service_resolved_jni p w id (resolved_of info) (attributes info)
  call_native w (Call.on_service_removed_jni id name) = post w id (service_lost name)
  call_native w (Call.on_service_name_changed_jni id name) = post w id (name_changed name)
  call_native w (Call.on_browser_state_changed_jni id running failed) =
      post w id (browser_state_changed running failed)
  call_native w (Call.on_publisher_state_changed_jni id running failed) =
      post w id (publisher_state_changed running failed)
  call_native w _ = w

  unfoldable pub call_all : World → List Call → World
  call_all w [] = w
  call_all w (c ∷ cs) = call_all (call_native w c) cs

  -- One event, with what the object `i` emits in it.
  unfoldable pub step : NsdManager.Platform → ℕ → Android → Event → Android × Effects
  step n i a (listens e) =
      let (java, made) = NsdManager.step n a.java e in
      (record { java = java; world = call_all a.world made }, [])
  step n i a delivers =
      let (world, effects) = deliver p a.world in
      (record a { world = world }, heard i a.world.posted effects)

  -- Events one after the other: any interleaving of the two threads.
  unfoldable pub run : NsdManager.Platform → ℕ → Android → List Event → Android × Effects
  run n i a [] = (a, [])
  run n i a (e ∷ es) =
      let (b, effects) = step n i a e in let (c, later) = run n i b es in (c, effects ++ later)
