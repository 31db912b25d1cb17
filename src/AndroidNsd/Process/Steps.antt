-- ===== src/AndroidNsd/Process/Steps.antt =====
-- androidnsd.cpp: what holds between two events, and that the methods, the constructor and the
-- destructor keep it.
use qt_zero_conf.AndroidNsd.{State, Platform, Effects, new_state}
use qt_zero_conf.AndroidNsd.Threads.{
  World, Task, registers, unregisters, stops_discovery, discovers, object, is_instance, create,
  destroy,
}
use qt_zero_conf.AndroidNsd.Interface.{invoke_request}
use qt_zero_conf.AndroidNsd.Slots.{IsValid}
use qt_zero_conf.ZeroConf.{Request}
use qt_zero_conf.QMap.{is_some}
use qt_zero_conf.Base.{
  ℕ, Bool, true, false, if◌then◌else◌, ◌==◌, [], ◌∷◌, ◌++◌, none, some, set, length, ◌≡◌, arith,
}
use qt_zero_conf.AndroidNsd.Process.Objects.{
  at-set, at-snoc, is_instance-snoc, is_instance-remove, mono-AllUsable, snoc-AllUsable,
  delete-AllUsable, either-IsValid, some-IsValid, Usable, AllUsable, Idle,
}

-- The list of instances has just the objects that are there, each of them files every service once
-- and under its own name, every object that a task uses is there, and invokeMethod was called on no
-- deleted object.
pub record IsSound (w : World) : Type 0 where
  pub listed : (i : ℕ) → is_instance i w.instances ≡ is_some (object w i)
  pub valid : (i : ℕ) (s : State) → object w i ≡ some s → IsValid s
  pub usable : AllUsable w.heap w.tasks
  pub unmisused : w.misused ≡ false

-- A write to an object that is there, which leaves its services valid.
pub write-IsSound :
    (w : World) (i : ℕ) (s s' : State)
    → object w i ≡ some s
    → IsValid s'
    → IsSound w
    → IsSound (record w { heap = set w.heap i (some s') })
write-IsSound w i s s' has v sound = record {
  unmisused = sound.unmisused;
  listed = λ j. ground (arith, sound.listed j, at-set w.heap i j s (some s') has);
  valid = λ j t e.
      either-IsValid (i == j) (some s') (object w j) t (λ u. some-IsValid s' u v) (sound.valid j)
        (rw (at-set w.heap i j s (some s') has) at e);
  usable =
      mono-AllUsable w.heap (set w.heap i (some s')) w.tasks
        (λ j live gone. ground (arith, live, at-set w.heap i j s (some s') has)) sound.usable;
}

pub create-IsSound : (w : World) (valid : Bool) → IsSound w → IsSound (create w valid).0
unfolding create
create-IsSound w valid sound = record {
  unmisused = sound.unmisused;
  listed = λ j. ground (
    arith,
    sound.listed j,
    at-snoc w.heap j (some new_state),
    is_instance-snoc j (length w.heap) w.instances,
  );
  valid = λ j t e.
      either-IsValid (length w.heap == j) (some new_state) (object w j) t
        (λ u. some-IsValid new_state u (unfold new_state in record { sorted = tt; filed = tt }))
        (sound.valid j) (rw (at-snoc w.heap j (some new_state)) at e);
  usable =
      mono-AllUsable w.heap (w.heap ++ some new_state ∷ []) w.tasks
        (λ j live gone. ground (arith, live, at-snoc w.heap j (some new_state))) sound.usable;
}

pub destroy-IsSound :
    (w : World) (i : ℕ) (s : State)
    → object w i ≡ some s
    → Idle i w.tasks
    → IsSound w
    → IsSound (destroy w i)
unfolding destroy
destroy-IsSound w i s has idle sound = record {
  unmisused = sound.unmisused;
  listed = λ j.
      ground
        (arith, sound.listed j, at-set w.heap i j s none has, is_instance-remove j i w.instances);
  valid = λ j t e.
      either-IsValid (i == j) none (object w j) t (λ u e. cc) (sound.valid j)
        (rw (at-set w.heap i j s none has) at e);
  usable = delete-AllUsable w.heap i s w.tasks has idle sound.usable;
}

-- One more task, whose object is there.
task-IsSound :
    (w : World) (t : Task)
    → Usable w.heap t
    → IsSound w
    → IsSound (record w { tasks = w.tasks ++ t ∷ [] })
task-IsSound w t u sound = record {
  unmisused = sound.unmisused;
  listed = sound.listed;
  valid = sound.valid;
  usable = snoc-AllUsable w.heap w.tasks t sound.usable u;
}

suspends-IsSound :
    (w : World) (t : Task) (suspended : Bool) (effects : Effects)
    → Usable w.heap t
    → IsSound w
    → let q : World × Effects =
        if suspended then (w, effects) else (record w { tasks = w.tasks ++ t ∷ [] }, []) in
      IsSound q.0
suspends-IsSound w t true effects u sound = sound
suspends-IsSound w t false effects u sound = task-IsSound w t u sound

module _ (p : Platform) where
  pub request-IsSound :
      (w : World) (i : ℕ) (s : State) (q : Request) (suspended : Bool)
      → object w i ≡ some s
      → IsSound w
      → IsSound (invoke_request p w i s q suspended).0
  unfolding invoke_request
  request-IsSound w i s (Request.start_service_publish name type domain port interface) suspended
        has sound =
      let named = record s { publish_name = name; publish_type = type } in
      let v = sound.valid i s has in
      task-IsSound (record w { heap = set w.heap i (some named) }) (registers i port)
        (λ gone. ground (arith, at-set w.heap i i s (some named) has))
        (write-IsSound w i s named has (record { sorted = v.sorted; filed = v.filed }) sound)
  request-IsSound w i s Request.stop_service_publish suspended has sound =
      suspends-IsSound w (unregisters i) suspended _ tt sound
  request-IsSound w i s (Request.start_browser type protocol) suspended has sound =
      task-IsSound w (discovers i type) tt sound
  request-IsSound w i s Request.stop_browser suspended has sound =
      suspends-IsSound w (stops_discovery i) suspended _ tt sound
  request-IsSound w i s Request.clear_service_txt_records suspended has sound =
      let v = sound.valid i s has in
      write-IsSound w i s _ has (record { sorted = v.sorted; filed = v.filed }) sound
  request-IsSound w i s (Request.add_service_txt_name name) suspended has sound =
      let v = sound.valid i s has in
      write-IsSound w i s _ has (record { sorted = v.sorted; filed = v.filed }) sound
  request-IsSound w i s (Request.add_service_txt_record name value) suspended has sound =
      let v = sound.valid i s has in
      write-IsSound w i s _ has (record { sorted = v.sorted; filed = v.filed }) sound
