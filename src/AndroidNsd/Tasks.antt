-- ===== src/AndroidNsd/Tasks.antt =====
-- androidnsd.cpp: what the tasks on the Android thread read of an object.
use qt_zero_conf.AndroidNsd.Threads.{
  txt_map, registers, run_task, start_service_publish, remove_all, World, destroy, post,
  is_instance,
}
use qt_zero_conf.AndroidNsd.{register_service, Slot, State, Platform}
use qt_zero_conf.Base.{
  append_assoc, length-set, set, get_elem?-set_self, none, some, ◌++◌, length, ◌<◌, refl, [], false,
  arith, ◌∷◌, ◌≡◌, ◌≢◌, List, ℕ,
}
use qt_zero_conf.Text.{Text}
use qt_zero_conf.Service.{calls}

module _ (p : Platform) (w : World) (i : ℕ) (s : State) where
  -- An object that publishes `first` on `port` and, before the Android thread runs its task, `second`
  -- on `port'`: the task of the first registers the name and the type of the second on the port of
  -- the first.
  pub torn_registration :
      (first type second type' : Text) (port port' : ℕ)
      → i < length w.heap
      → let named = record s { publish_name = first; publish_type = type } in
        let w' =
          start_service_publish
            (start_service_publish w i s first type port)
            i
            named
            second
            type'
            port' in
        (w'.tasks ≡ w.tasks ++ registers i port ∷ registers i port' ∷ [])
        × (run_task p w' (registers i port)
            ≡ some (calls (register_service i second type' port (txt_map p s.txt_records)) ∷ []))
  unfolding start_service_publish run_task
  torn_registration first type second type' port port' h = (
    append_assoc w.tasks (registers i port ∷ []) (registers i port' ∷ []),
    let named = record s { publish_name = first; publish_type = type } in
        let heap = set w.heap i (some named) in
        rw
          (
            get_elem?-set_self heap i
                (some (record named { publish_name = second; publish_type = type' }))
                (omega (arith, h, length-set w.heap i (some named))),
            run_task,
          )
          refl,
  )

  -- An object that is deleted while its registration waits for the Android thread: the task is
  -- still run, and uses the deleted object.
  pub destroyed_registration :
      (name type : Text) (port : ℕ)
      → i < length w.heap
      → let w' = destroy (start_service_publish w i s name type port) i in
        (w'.tasks ≡ w.tasks ++ registers i port ∷ []) × (run_task p w' (registers i port) ≡ none)
  unfolding start_service_publish run_task destroy
  destroyed_registration name type port h = (
    refl,
    let named = record s { publish_name = name; publish_type = type } in
        rw
          (
            get_elem?-set_self (set w.heap i (some named)) i none
                (omega (arith, h, length-set w.heap i (some named))),
            run_task,
          )
          refl,
  )

is_instance-remove_all : (i : ℕ) (js : List ℕ) → is_instance i (remove_all i js) ≡ false
unfolding is_instance remove_all
is_instance-remove_all i [] = refl
is_instance-remove_all i (j ∷ js) = ground (arith, is_instance-remove_all i js)

is_instance-remove_other :
    (i k : ℕ) (js : List ℕ) → k ≢ i → is_instance k (remove_all i js) ≡ is_instance k js
unfolding is_instance remove_all
is_instance-remove_other i k [] h = refl
is_instance-remove_other i k (j ∷ js) h = ground (arith, h, is_instance-remove_other i k js h)

-- A callback of the Android thread for a deleted object queues nothing, and one for any other object
-- queues its slot as if nothing had been deleted.
pub post_after_destroy :
    (w : World) (i k : ℕ) (slot : Slot)
    → k ≢ i
    → (post (destroy w i) i slot ≡ destroy w i)
      × ((post (destroy w i) k slot).posted ≡ (post w k slot).posted)
unfolding post destroy
post_after_destroy w i k slot h = (
  rw (is_instance-remove_all i w.instances) refl,
  ground (arith, is_instance-remove_other i k w.instances h),
)
