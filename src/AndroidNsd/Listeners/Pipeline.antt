-- ===== src/AndroidNsd/Listeners/Pipeline.antt =====
-- QZeroConfNsdManager.java and androidnsd.cpp together: what the listeners of an object report comes
-- to its slots, all of it and in order.
use qt_zero_conf.AndroidNsd.{Platform, State, Effects, Slot, invoke, invoke_all}
use qt_zero_conf.AndroidNsd.Threads.{World, object, is_instance, join, deliver}
use qt_zero_conf.AndroidNsd.Process.Objects.{at-set}
use qt_zero_conf.AndroidNsd.Listeners.{
  Android, Event, listens, delivers, heard, call_all, step, run,
}
use qt_zero_conf.NsdManager
use qt_zero_conf.NsdManager.{Call, Entry, ServiceInfo}
use qt_zero_conf.Base.{
  ℕ, true, ◌==◌, List, [], ◌∷◌, ◌++◌, Option, some, ◌≡◌, refl, sym, ap, ◌∙◌, arith, inl, inr,
  get_elem?, Bool-cases, Option-cases, append_assoc, append-nil,
}
use qt_zero_conf.Text.{Text}
use qt_zero_conf.AndroidNsd.Listeners.Reports.{queued, reports, reports-append, call_all-Queues}

-- The listeners that are called.
abbrev pub entries : List Event → List Entry
entries [] = []
entries (listens e ∷ es) = e ∷ entries es
entries (delivers ∷ es) = entries es

-- The result of some slots, with what was emitted before.
abbrev pub prepend : Effects → State × Effects → State × Effects
prepend effects q = (q.0, effects ++ q.1)

prepend-append :
    (before after : Effects) (q : State × Effects)
    → prepend before (prepend after q) ≡ prepend (before ++ after) q
prepend-append before after q = ap (λ es. (q.0, es)) (sym (append_assoc before after q.1))

module _ (p : Platform) (attributes : ServiceInfo → List (Text × Option Text)) where
  -- What an object with the members `s` does with its queued slots, with `slots` and with whatever
  -- comes then, is what it emits now and what it does from then on.
  record Passes (i : ℕ) (w : World) (s : State) (slots : List Slot) (q : World × Effects)
      : Type 0 where
    members : State
    there : object q.0 i ≡ some members
    listed : q.0.instances ≡ w.instances
    passes :
        (l : List Slot)
        → invoke_all p s (queued i w.posted ++ (slots ++ l))
          ≡ prepend q.1 (invoke_all p members (queued i q.0.posted ++ l))

  listen-Passes :
      (i : ℕ) (w : World) (s : State) (cs : List Call)
      → object w i ≡ some s
      → is_instance i w.instances ≡ true
      → Passes i w s (reports p attributes i cs) (call_all p attributes w cs, [])
  listen-Passes i w s cs has known =
      let made = call_all-Queues p attributes i w cs known in
      record {
        members = s;
        there = ap (λ h. join (get_elem? h i)) made.same_heap ∙ has;
        listed = made.same_instances;
        passes = λ l. ap (invoke_all p s) (
            sym (append_assoc (queued i w.posted) (reports p attributes i cs) l)
            ∙ ap (λ m. m ++ l) (sym made.behind));
      }

  deliver-Passes :
      (i : ℕ) (w : World) (s : State)
      → object w i ≡ some s
      → let q = deliver p w in Passes i w s [] (q.0, heard i w.posted q.1)
  unfolding deliver
  deliver-Passes i w s has = go w.posted refl
    where
      own-Passes :
          (j : ℕ) (slot : Slot) (rest : List (ℕ × Slot))
          → (j == i) ≡ true
          → w.posted ≡ (j, slot) ∷ rest
          → let q = deliver p w in Passes i w s [] (q.0, heard i w.posted q.1)
      own-Passes j slot rest own e =
          let same : j ≡ i = ground arith in
          let live : object w j ≡ some s = ap (object w) same ∙ has in
          rw (e, live, own, deliver)
            (record {
              members = (invoke p s slot).0;
              there = rw (at-set w.heap j i s (some (invoke p s slot).0) live, own) refl;
              listed = refl;
              passes = λ l. rw own (unfold invoke_all in refl);
            })

      go :
          (queue : List (ℕ × Slot))
          → w.posted ≡ queue
          → let q = deliver p w in Passes i w s [] (q.0, heard i w.posted q.1)
      go [] e =
          rw (e, deliver)
            (record { members = s; there = has; listed = refl; passes = λ l. rw e refl })
      go ((j, slot) ∷ rest) e = elim (Bool-cases (j == i)) [
        | inl own ↦ own-Passes j slot rest own e
        | inr other ↦ elim (Option-cases (object w j)) [
          | inl gone ↦
              rw (e, gone, other, deliver)
                (record { members = s; there = has; listed = refl; passes = λ l. rw other refl })
          | inr (t, live) ↦
              rw (e, live, other, deliver)
                (record {
                  members = s;
                  there = rw (at-set w.heap j i t (some (invoke p t slot).0) live, other) has;
                  listed = refl;
                  passes = λ l. rw other refl;
                })
        ]
      ]

  -- What the object `i`, which had the members `s`, has emitted and does with what is still queued for
  -- it is what it does with the slots.
  pub record IsPiped (i : ℕ) (s : State) (slots : List Slot) (q : Android × Effects) : Type 0 where
    pub now : State
    pub is_there : object q.0.world i ≡ some now
    pub is_listed : is_instance i q.0.world.instances ≡ true
    pub piped : invoke_all p s slots ≡ prepend q.1 (invoke_all p now (queued i q.0.world.posted))

  module _ (n : NsdManager.Platform) where
    -- The calls that Java makes in an event.
    abbrev made_in : Android → Event → List Call
    made_in a (listens e) = (NsdManager.step n a.java e).1
    made_in a delivers = []

    step-Passes :
        (i : ℕ) (a : Android) (s : State) (e : Event)
        → object a.world i ≡ some s
        → is_instance i a.world.instances ≡ true
        → let q = step p attributes n i a e in
          Passes i a.world s (reports p attributes i (made_in a e)) (q.0.world, q.1)
    unfolding step
    step-Passes i a s (listens e) has known =
        listen-Passes i a.world s (NsdManager.step n a.java e).1 has known
    step-Passes i a s delivers has known = deliver-Passes i a.world s has

    reports-step :
        (i : ℕ) (a : Android) (e : Event) (es : List Event)
        → let b = (step p attributes n i a e).0 in
          reports p attributes i (NsdManager.run n a.java (entries (e ∷ es))).1
          ≡ reports p attributes i (made_in a e)
            ++ reports p attributes i (NsdManager.run n b.java (entries es)).1
    unfolding step NsdManager.run
    reports-step i a (listens e) es = reports-append p attributes i (NsdManager.step n a.java e).1 _
    reports-step i a delivers es = refl

    -- Of an object that is there, through any interleaving of the listeners of all objects on the
    -- Android thread and of the event loop of the Qt thread: what it has emitted and what its queued
    -- slots then do is what its slots do if they run at once and in order, first those queued before
    -- and then one for each call of a native method for it. No report is lost, repeated or
    -- overtaken.
    pub run-IsPiped :
        (i : ℕ) (a : Android) (s : State) (es : List Event)
        → object a.world i ≡ some s
        → is_instance i a.world.instances ≡ true
        → IsPiped i s
            (queued i a.world.posted
              ++ reports p attributes i (NsdManager.run n a.java (entries es)).1)
            (run p attributes n i a es)
    unfolding run NsdManager.run
    run-IsPiped i a s [] has known = record {
      now = s;
      is_there = has;
      piped = ap (invoke_all p s) (append-nil (queued i a.world.posted));
      is_listed = known;
    }
    run-IsPiped i a s (e ∷ es) has known =
        let first = step-Passes i a s e has known in
        let b = (step p attributes n i a e).0 in
        let later =
          run-IsPiped i b first.members es first.there (ap (is_instance i) first.listed ∙ known) in
        let rest = reports p attributes i (NsdManager.run n b.java (entries es)).1 in
        record {
          now = later.now;
          is_there = later.is_there;
          piped =
              ap (λ l. invoke_all p s (queued i a.world.posted ++ l)) (reports-step i a e es)
              ∙ first.passes rest
              ∙ ap (prepend (step p attributes n i a e).1) later.piped
              ∙ prepend-append (step p attributes n i a e).1 (run p attributes n i b es).1 _;
          is_listed = later.is_listed;
        }
