-- ===== src/AndroidNsd/Process.antt =====
-- androidnsd.cpp: the objects of a process, under any interleaving of the application, the Android
-- thread and the event loop of the Qt thread.
pub mod Objects
pub mod Steps
pub mod Sound
use mathlib.Core.Option
use qt_zero_conf.AndroidNsd.{State, Platform, Effects, Slot, Resolved, new_state, invoke}
use qt_zero_conf.AndroidNsd.Threads.{
  World, Task, registers, unregisters, stops_discovery, discovers, join, object, is_instance,
  remove_all, create, destroy, run_task, post, on_service_resolved_jni, deliver, new_world,
}
use qt_zero_conf.AndroidNsd.Interface.{invoke_request}
use qt_zero_conf.ZeroConf.{Request}
use qt_zero_conf.Base.{
  ℕ, Bool, true, false, ◌||◌, if◌then◌else◌, ◌==◌, List, [], ◌∷◌, ◌++◌, Option, none, some,
  get_elem?, set, length, ◌≡◌, ◌≢◌, refl, arith, zero, suc,
}
use qt_zero_conf.Text.{Text}

-- QZeroConf::QZeroConf
unfoldable pub construct : World → Bool → World × Effects
construct w valid = create w valid

-- QZeroConf::~QZeroConf
unfoldable pub destruct : World → ℕ → World
destruct w i = destroy w i

-- What happens next in the process: the application makes or deletes an object or calls a method of
-- one; the Android thread runs the task that waits first, or calls a native method for an object;
-- the event loop takes the slot that is queued first.
pub data Event : Type 0 where
  constructs : Bool → Event
  destructs : ℕ → Event
  requests : ℕ → Request → Bool → Event
  runs_task delivers : Event
  posts : ℕ → Slot → Event
  posts_resolved : ℕ → Resolved → List (Text × Option Text) → Event

module _ (p : Platform) where
  -- The first task; `none` if it uses a deleted object.
  abbrev pub run_first : World → List Task → Option (World × Effects)
  run_first w [] = some (w, [])
  run_first w (t ∷ ts) = Option.map (λ effects. (record w { tasks = ts }, effects)) (run_task p w t)

  -- A method of an object, or its destructor; `none` if it is deleted.
  abbrev pub on_live : World → ℕ → (State → World × Effects) → Option (World × Effects)
  on_live w i f = Option.map f (object w i)

  unfoldable pub step : World → Event → Option (World × Effects)
  step w (constructs valid) = some (construct w valid)
  step w (destructs i) = on_live w i (λ s. (destruct w i, []))
  step w (requests i q suspended) = on_live w i (λ s. invoke_request p w i s q suspended)
  step w runs_task = run_first w w.tasks
  step w delivers = some (deliver p w)
  step w (posts i slot) = some (post w i slot, [])
  step w (posts_resolved i e attributes) = some (on_service_resolved_jni p w i e attributes, [])

  -- Events one after the other, as far as none of them uses a deleted object.
  unfoldable pub run : World → List Event → Option (World × Effects)
  run w [] = some (w, [])
  run w (e ∷ es) = elim (step w e) [
    | none ↦ none
    | some q ↦ Option.map (λ r. (r.0, q.1 ++ r.1)) (run q.0 es)
  ]
