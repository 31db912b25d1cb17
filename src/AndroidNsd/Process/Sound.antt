-- ===== src/AndroidNsd/Process/Sound.antt =====
-- androidnsd.cpp: no object is used after it is deleted, if none is deleted while a registration of it
-- waits for the Android thread.
use mathlib.Core.Option
use mathlib.Core.Option.{some-injective}
use qt_zero_conf.AndroidNsd.{Platform, Effects, Slot, invoke}
use qt_zero_conf.AndroidNsd.Threads.{
  World, Task, registers, unregisters, stops_discovery, discovers, object, is_instance, run_task,
  post, on_service_resolved_jni, deliver, new_world,
}
use qt_zero_conf.AndroidNsd.Slots.{invoke-Keeps}
use qt_zero_conf.AndroidNsd.Process.{
  construct, destruct, Event, constructs, destructs, requests, runs_task, delivers, posts,
  posts_resolved, run_first, step, run,
}
use qt_zero_conf.Base.{
  ℕ, List, [], ◌∷◌, ◌++◌, Option, none, some, ◌≡◌, ◌≢◌, refl, inl, inr, Bool-cases, Option-cases,
  arith,
}
use qt_zero_conf.AndroidNsd.Process.Objects.{AllUsable, Idle}
use qt_zero_conf.AndroidNsd.Process.Steps.{
  IsSound, write-IsSound, create-IsSound, destroy-IsSound, request-IsSound,
}

-- The application uses an object that is there, and deletes it only while no registration of it
-- waits.
abbrev pub Allowed : World → Event → Type 0
Allowed w (destructs i) = (object w i ≢ none) × Idle i w.tasks
Allowed w (requests i q suspended) = object w i ≢ none
Allowed w _ = Unit {0}

module _ (p : Platform) where
  post-IsSound : (w : World) (i : ℕ) (slot : Slot) → IsSound w → IsSound (post w i slot)
  unfolding post
  post-IsSound w i slot sound = elim (Bool-cases (is_instance i w.instances)) [
    | inl e ↦
        rw (e, post)
          (record {
            listed = sound.listed;
            valid = sound.valid;
            usable = sound.usable;
            unmisused = ground (arith, sound.listed i, e, sound.unmisused);
          })
    | inr e ↦ rw (e, post) sound
  ]

  deliver-IsSound : (w : World) → IsSound w → IsSound (deliver p w).0
  unfolding deliver
  deliver-IsSound w sound = go w.posted refl
    where
      go : (l : List (ℕ × Slot)) → w.posted ≡ l → IsSound (deliver p w).0
      go [] e = rw (e, deliver) sound
      go ((i, slot) ∷ rest) e =
          let quiet : IsSound (record w { posted = rest }) = record {
            listed = sound.listed;
            valid = sound.valid;
            usable = sound.usable;
            unmisused = sound.unmisused;
          } in
          elim (Option-cases (object w i)) [
            | inl gone ↦ rw (e, gone, deliver) quiet
            | inr (s, has) ↦
                rw (e, has, deliver)
                  (write-IsSound (record w { posted = rest }) i s (invoke p s slot).0 has
                    (invoke-Keeps p s slot (sound.valid i s has)).0 quiet)
          ]

  -- What holds of the world that a step leads to, which uses no deleted object.
  abbrev pub Leads : (World → Type 0) → Option (World × Effects) → Type 0
  Leads P none = ⊥
  Leads P (some q) = P q.0

  run_first-IsSound : (w : World) → IsSound w → Leads IsSound (run_first p w w.tasks)
  unfolding run_task
  run_first-IsSound w sound = go w.tasks refl sound.usable
    where
      go : (ts : List Task) → w.tasks ≡ ts → AllUsable w.heap ts → Leads IsSound (run_first p w ts)
      go [] e u = sound
      go (registers i port ∷ ts) e u = elim (Option-cases (object w i)) [
        | inl gone ↦ absurd (u.0 gone)
        | inr (s, has) ↦
            rw (has, run_task)
              (record {
                listed = sound.listed;
                valid = sound.valid;
                usable = u.1;
                unmisused = sound.unmisused;
              })
      ]
      go (unregisters i ∷ ts) e u = record {
        listed = sound.listed;
        valid = sound.valid;
        usable = u.1;
        unmisused = sound.unmisused;
      }
      go (stops_discovery i ∷ ts) e u = record {
        listed = sound.listed;
        valid = sound.valid;
        usable = u.1;
        unmisused = sound.unmisused;
      }
      go (discovers i type ∷ ts) e u = record {
        listed = sound.listed;
        valid = sound.valid;
        usable = u.1;
        unmisused = sound.unmisused;
      }

  step-IsSound : (w : World) (e : Event) → Allowed w e → IsSound w → Leads IsSound (step p w e)
  unfolding step construct destruct on_service_resolved_jni
  step-IsSound w (constructs valid) ok sound = create-IsSound w valid sound
  step-IsSound w (destructs i) ok sound = elim (Option-cases (object w i)) [
    | inl gone ↦ absurd (ok.0 gone)
    | inr (s, has) ↦ rw has (destroy-IsSound w i s has ok.1 sound)
  ]
  step-IsSound w (requests i q suspended) ok sound = elim (Option-cases (object w i)) [
    | inl gone ↦ absurd (ok gone)
    | inr (s, has) ↦ rw has (request-IsSound p w i s q suspended has sound)
  ]
  step-IsSound w runs_task ok sound = run_first-IsSound w sound
  step-IsSound w delivers ok sound = deliver-IsSound w sound
  step-IsSound w (posts i slot) ok sound = post-IsSound w i slot sound
  step-IsSound w (posts_resolved i e attributes) ok sound = post-IsSound w i _ sound

  -- What holds of the world that a step leads to, if it uses no deleted object.
  abbrev pub Then : (World → Type 0) → Option (World × Effects) → Type 0
  Then P none = Unit {0}
  Then P (some q) = P q.0

  -- Every event is one that the application may make.
  abbrev pub AllowedAll : World → List Event → Type 0
  AllowedAll w [] = Unit {0}
  AllowedAll w (e ∷ es) = Allowed w e × Then (λ u. AllowedAll u es) (step p w e)

  run-IsSound :
      (w : World) (es : List Event) → AllowedAll w es → IsSound w → Leads IsSound (run p w es)
  unfolding run
  run-IsSound w [] ok sound = sound
  run-IsSound w (e ∷ es) ok sound =
      go (step p w e) (step-IsSound w e ok.0 sound) ok.1 (λ u. run-IsSound u es)
    where
      later :
          (effects : Effects) (o : Option (World × Effects))
          → Leads IsSound o
          → Leads IsSound (Option.map (λ r. (r.0, effects ++ r.1)) o)
      later effects none h = absurd h
      later effects (some r) h = h

      go :
          (o : Option (World × Effects))
          → Leads IsSound o
          → Then (λ u. AllowedAll u es) o
          → ((u : World) → AllowedAll u es → IsSound u → Leads IsSound (run p u es))
          → Leads IsSound
              (elim o [ none ↦ none | some q ↦ Option.map (λ r. (r.0, q.1 ++ r.1)) (run p q.0 es) ])
      go none h a k = absurd h
      go (some q) h a k = later q.1 (run p q.0 es) (k q.0 a h)

-- From the start of the process, through any interleaving of methods, tasks, native methods and
-- queued slots, no method, task, native method or slot uses a deleted object, if the application uses an object
-- only while it is there and deletes it only while no registration of it waits for the Android
-- thread. Of the world that is reached, the list of instances has just the objects that are there,
-- each of which files every service once and under its own name, and the object of every
-- registration that waits is there.
pub process-IsSound :
    (p : Platform) (es : List Event)
    → AllowedAll p new_world es
    → Leads p IsSound (run p new_world es)
unfolding new_world is_instance
process-IsSound p es ok =
    run-IsSound p new_world es ok
      (record { listed = λ i. refl; valid = λ i s e. cc; usable = tt; unmisused = refl })
