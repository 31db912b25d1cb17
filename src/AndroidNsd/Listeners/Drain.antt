-- ===== src/AndroidNsd/Listeners/Drain.antt =====
-- QZeroConfNsdManager.java and androidnsd.cpp together: once the event loop has taken all that is
-- queued, the slots of an object have run as if the listeners had called them.
use qt_zero_conf.AndroidNsd.{Platform, State, Slot, invoke_all}
use qt_zero_conf.AndroidNsd.Threads.{World, object, is_instance, deliver}
use qt_zero_conf.AndroidNsd.Listeners.{Android, Event, delivers, step, run}
use qt_zero_conf.AndroidNsd.Listeners.Pipeline.{entries, prepend, run-IsPiped}
use qt_zero_conf.AndroidNsd.Listeners.Reports.{queued, reports}
use qt_zero_conf.NsdManager
use qt_zero_conf.NsdManager.{ServiceInfo}
use qt_zero_conf.Base.{
  ℕ, zero, suc, true, List, [], ◌∷◌, ◌++◌, Option, some, ◌≡◌, refl, sym, ap, ◌∙◌, arith, inl, inr,
  length, Option-cases, append-nil,
}
use qt_zero_conf.Text.{Text}

-- The event loop takes so many slots.
abbrev pub deliveries : ℕ → List Event
deliveries zero = []
deliveries (suc k) = delivers ∷ deliveries k

-- None of them is a listener.
deliveries_lem : (k : ℕ) → entries (deliveries k) ≡ []
deliveries_lem zero = refl
deliveries_lem (suc k) = deliveries_lem k

abbrev tail : List (ℕ × Slot) → List (ℕ × Slot)
tail [] = []
tail (entry ∷ rest) = rest

empty : (l : List (ℕ × Slot)) → length l ≡ 0 → l ≡ []
empty [] h = refl
empty (entry ∷ l) h = absurd (omega (arith, h))

shorter : (l m : List (ℕ × Slot)) (k : ℕ) → m ≡ tail l → length l ≡ suc k → length m ≡ k
shorter [] m k e h = absurd (omega (arith, h))
shorter (entry ∷ l) m k e h = rw e (omega (arith, h))

module _ (p : Platform) where
  posted-deliver : (w : World) → (deliver p w).0.posted ≡ tail w.posted
  unfolding deliver
  posted-deliver w = go w.posted refl
    where
      go : (l : List (ℕ × Slot)) → w.posted ≡ l → (deliver p w).0.posted ≡ tail w.posted
      go [] e = rw (e, deliver) e
      go ((j, slot) ∷ rest) e = elim (Option-cases (object w j)) [
        | inl gone ↦ rw (e, gone, deliver) refl
        | inr (t, live) ↦ rw (e, live, deliver) refl
      ]

  module _ (attributes : ServiceInfo → List (Text × Option Text)) (n : NsdManager.Platform) where
    -- As many deliveries as slots are queued leave none.
    posted-run :
        (i k : ℕ) (a : Android)
        → length a.world.posted ≡ k
        → (run p attributes n i a (deliveries k)).0.world.posted ≡ []
    unfolding run step
    posted-run i zero a h = empty a.world.posted h
    posted-run i (suc k) a h =
        posted-run i k (step p attributes n i a delivers).0
          (shorter a.world.posted (deliver p a.world).0.posted k (posted-deliver a.world) h)

    -- An object that is there, for which no slot is queued: through any interleaving of the
    -- listeners of all objects on the Android thread and of the event loop of the Qt thread, and
    -- then the event loop until nothing is queued, the object comes to the members, and emits the
    -- signals, that its slots give when they run at once and in order, one for each call of a native
    -- method for it. No report is lost, repeated or overtaken.
    pub pipeline :
        (i : ℕ) (a : Android) (s : State) (es : List Event)
        → object a.world i ≡ some s
        → is_instance i a.world.instances ≡ true
        → queued i a.world.posted ≡ []
        → let first = run p attributes n i a es in
          let last = run p attributes n i first.0 (deliveries (length first.0.world.posted)) in
          let direct =
            invoke_all p s (reports p attributes i (NsdManager.run n a.java (entries es)).1) in
          (last.0.world.posted ≡ [])
          × (object last.0.world i ≡ some direct.0)
          × (first.1 ++ last.1 ≡ direct.1)
    unfolding invoke_all NsdManager.run
    pipeline i a s es has known idle =
        let first = run p attributes n i a es in
        let k = length first.0.world.posted in
        let last = run p attributes n i first.0 (deliveries k) in
        let one = run-IsPiped p attributes n i a s es has known in
        let two =
          run-IsPiped p attributes n i first.0 one.now (deliveries k) one.is_there one.is_listed in
        let none_left = posted-run i k first.0 refl in
        let rest : invoke_all p one.now (queued i first.0.world.posted) ≡ (two.now, last.1) =
          ap (invoke_all p one.now) (
            sym (append-nil (queued i first.0.world.posted))
            ∙ ap
                (λ l.
                  queued i first.0.world.posted
                  ++ reports p attributes i (NsdManager.run n first.0.java l).1)
                (sym (deliveries_lem k)))
          ∙ two.piped
          ∙ ap (λ l. prepend last.1 (invoke_all p two.now (queued i l))) none_left
          ∙ ap (λ l. (two.now, l)) (append-nil last.1) in
        let all : invoke_all p s (reports p attributes i (NsdManager.run n a.java (entries es)).1)
            ≡ (two.now, first.1 ++ last.1) =
          ap
            (λ l.
              invoke_all p s (l ++ reports p attributes i (NsdManager.run n a.java (entries es)).1))
            (sym idle)
          ∙ one.piped
          ∙ ap (prepend first.1) rest in
        (none_left, two.is_there ∙ ap (λ q. some q.0) (sym all), ap (λ q. q.1) (sym all))
