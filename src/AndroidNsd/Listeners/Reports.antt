-- ===== src/AndroidNsd/Listeners/Reports.antt =====
-- QZeroConfNsdManager.java and androidnsd.cpp together: the slots that the calls of Java queue for an
-- object.
use qt_zero_conf.AndroidNsd.{
  Platform, Slot, service_resolved, service_lost, browser_state_changed, publisher_state_changed,
  name_changed,
}
use qt_zero_conf.AndroidNsd.Threads.{
  World, is_instance, post, on_service_resolved_jni, read_attributes,
}
use qt_zero_conf.AndroidNsd.Listeners.{resolved_of, call_native, call_all}
use qt_zero_conf.NsdManager.{Call, ServiceInfo}
use qt_zero_conf.Base.{
  ℕ, true, false, if◌then◌else◌, ◌==◌, List, [], ◌∷◌, ◌++◌, Option, ◌≡◌, refl, sym, ap, ◌∙◌, arith,
  inl, inr, Bool-cases, append_assoc, append-nil,
}
use qt_zero_conf.Text.{Text}

-- The slots of the object `i` that are queued.
abbrev pub queued : ℕ → List (ℕ × Slot) → List Slot
queued i [] = []
queued i ((j, slot) ∷ rest) = if j == i then slot ∷ queued i rest else queued i rest

-- The slot for the object `i`, if the call is one for `j` and these are the same.
abbrev pub if_own : ℕ → ℕ → Slot → List Slot
if_own i j slot = if j == i then slot ∷ [] else []

queued-append : (i : ℕ) (l m : List (ℕ × Slot)) → queued i (l ++ m) ≡ queued i l ++ queued i m
queued-append i [] m = refl
queued-append i ((j, slot) ∷ l) m = elim (Bool-cases (j == i)) [
  | inl e ↦ rw e (ap (λ r. slot ∷ r) (queued-append i l m))
  | inr e ↦ rw e (queued-append i l m)
]

module _ (p : Platform) (attributes : ServiceInfo → List (Text × Option Text)) where
  -- What a call of Java is to the object `i`: a slot to run, if it is a native method for it.
  abbrev pub slots_of : ℕ → Call → List Slot
  slots_of i (Call.on_service_resolved_jni j info) = if_own i j (
      service_resolved
        (record (resolved_of info) { txt_records = read_attributes p [] (attributes info) }))
  slots_of i (Call.on_service_removed_jni j name) = if_own i j (service_lost name)
  slots_of i (Call.on_service_name_changed_jni j name) = if_own i j (name_changed name)
  slots_of i (Call.on_browser_state_changed_jni j running failed) =
      if_own i j (browser_state_changed running failed)
  slots_of i (Call.on_publisher_state_changed_jni j running failed) =
      if_own i j (publisher_state_changed running failed)
  slots_of i _ = []

  abbrev pub reports : ℕ → List Call → List Slot
  reports i [] = []
  reports i (c ∷ cs) = slots_of i c ++ reports i cs

  pub reports-append :
      (i : ℕ) (cs ds : List Call) → reports i (cs ++ ds) ≡ reports i cs ++ reports i ds
  reports-append i [] ds = refl
  reports-append i (c ∷ cs) ds =
      ap (λ l. slots_of i c ++ l) (reports-append i cs ds)
      ∙ sym (append_assoc (slots_of i c) (reports i cs) (reports i ds))

  -- The objects are those of before, and of the instance `i` the slots are queued behind the others.
  pub record Queues (i : ℕ) (w : World) (slots : List Slot) (w' : World) : Type 0 where
    pub same_heap : w'.heap ≡ w.heap
    pub same_instances : w'.instances ≡ w.instances
    pub behind : queued i w'.posted ≡ queued i w.posted ++ slots

  none-Queues : (i : ℕ) (w : World) → Queues i w [] w
  none-Queues i w = record {
    same_heap = refl;
    same_instances = refl;
    behind = sym (append-nil (queued i w.posted));
  }

  unlisted :
      (i j : ℕ) (w : World)
      → (j == i) ≡ true
      → is_instance j w.instances ≡ false
      → is_instance i w.instances ≡ true
      → ⊥
  unlisted i j w own absent known = let same : j ≡ i = ground arith in cc

  post-Queues :
      (i j : ℕ) (w : World) (slot : Slot)
      → is_instance i w.instances ≡ true
      → Queues i w (if_own i j slot) (post w j slot)
  unfolding post
  post-Queues i j w slot known = elim (Bool-cases (is_instance j w.instances)) [
    | inl e ↦
        rw (e, post)
          (record {
            same_heap = refl;
            same_instances = refl;
            behind = queued-append i w.posted ((j, slot) ∷ []);
          })
    | inr e ↦ elim (Bool-cases (j == i)) [
      | inl own ↦ absurd (unlisted i j w own e known)
      | inr other ↦ rw (e, other, post) (none-Queues i w)
    ]
  ]

  call_native-Queues :
      (i : ℕ) (w : World) (c : Call)
      → is_instance i w.instances ≡ true
      → Queues i w (slots_of i c) (call_native p attributes w c)
  unfolding call_native on_service_resolved_jni
  call_native-Queues i w (Call.on_service_resolved_jni j info) known = post-Queues i j w _ known
  call_native-Queues i w (Call.on_service_removed_jni j name) known = post-Queues i j w _ known
  call_native-Queues i w (Call.on_service_name_changed_jni j name) known = post-Queues i j w _ known
  call_native-Queues i w (Call.on_browser_state_changed_jni j running failed) known =
      post-Queues i j w _ known
  call_native-Queues i w (Call.on_publisher_state_changed_jni j running failed) known =
      post-Queues i j w _ known
  call_native-Queues i w (Call.register_service info j) known = none-Queues i w
  call_native-Queues i w (Call.unregister_service j) known = none-Queues i w
  call_native-Queues i w (Call.stop_service_discovery j) known = none-Queues i w
  call_native-Queues i w (Call.discover_services type j) known = none-Queues i w
  call_native-Queues i w (Call.resolve_service info j) known = none-Queues i w

  pub call_all-Queues :
      (i : ℕ) (w : World) (cs : List Call)
      → is_instance i w.instances ≡ true
      → Queues i w (reports i cs) (call_all p attributes w cs)
  unfolding call_all
  call_all-Queues i w [] known = none-Queues i w
  call_all-Queues i w (c ∷ cs) known =
      let now = call_native-Queues i w c known in
      let later =
        call_all-Queues i (call_native p attributes w c) cs
          (ap (is_instance i) now.same_instances ∙ known) in
      record {
        same_heap = later.same_heap ∙ now.same_heap;
        same_instances = later.same_instances ∙ now.same_instances;
        behind =
            later.behind
            ∙ ap (λ l. l ++ reports i cs) now.behind
            ∙ append_assoc (queued i w.posted) (slots_of i c) (reports i cs);
      }
