-- ===== src/Window/Resume.antt =====
-- example/window.cpp over androidnsd.cpp: the application is suspended and comes back before Android
-- has answered.
use qt_zero_conf.AndroidNsd
use qt_zero_conf.AndroidNsd.Threads
use qt_zero_conf.AndroidNsd.Interface.{
  on_object, shown, android_zero_conf, posts, delivers, invoke_request,
}
use qt_zero_conf.AndroidNsd.Process.Objects.{Idle}
use qt_zero_conf.QMap.{is_some}
use qt_zero_conf.Window.{
  service_type, calls_back, start_publish, suspended, changes_state, active, resume_browser,
  on_signals, step, resume_publish, app_state_changed, send, run, Window, Around, Platform,
}
use qt_zero_conf.Base.{
  false, Bool, ◌++◌, refl, subst, sym, not, ◌||◌, ◌∙◌, zero, suc, ◌&&◌, if◌then◌else◌, ◌∷◌, ap, set,
  true, some, [], ◌≡◌, get_elem?, ℕ, Option, List,
}
use qt_zero_conf.ZeroConf.{
  signals, start_browser_ipv4, stop_browser, Request, stop_service_publish, ZeroConf,
}

-- A write to an object that is there.
written :
    (heap : List (Option AndroidNsd.State)) (i : ℕ) (s s' : AndroidNsd.State)
    → Threads.join (get_elem? heap i) ≡ some s
    → get_elem? (set heap i (some s')) i ≡ some (some s')
written [] i s s' h = cc
written (o ∷ heap) zero s s' h = refl
written (o ∷ heap) (suc i) s s' h = written heap i s s' h

and_false : (b : Bool) → (b && false) ≡ false
and_false true = refl
and_false false = refl

module _ (p : Platform) (z : ZeroConf) where
  -- A method that changes nothing and signals nothing.
  send_nothing :
      (a : Around p z) (w : Window p z) (q : Request)
      → z.request w.zero_conf q (a.answer q) ≡ (w.zero_conf, [])
      → send p z a w q ≡ w
  unfolding send on_signals
  send_nothing a w q e = ap (λ q. on_signals p z (record w { zero_conf = q.0 }) q.1) e

  -- The application becomes active while there are a publication and a browser.
  active_nothing :
      (a : Around p z) (w : Window p z)
      → z.publish_exists w.zero_conf ≡ true
      → z.browser_exists w.zero_conf ≡ true
      → app_state_changed p z a w active ≡ w
  unfolding app_state_changed resume_publish resume_browser
  active_nothing a w published browsing =
      ap
        (λ b.
          resume_browser p z a (if w.publish_enabled && not b then start_publish p z a w else w))
        published
      ∙ ap (λ b. resume_browser p z a (if b then start_publish p z a w else w))
          (and_false w.publish_enabled)
      ∙ ap (λ b. if not b then send p z a w (start_browser_ipv4 service_type) else w) browsing

  -- The application is suspended and becomes active, and no method changes anything.
  back_nothing :
      (a : Around p z) (w : Window p z)
      → z.request w.zero_conf stop_service_publish (a.answer stop_service_publish)
        ≡ (w.zero_conf, [])
      → z.request w.zero_conf stop_browser (a.answer stop_browser) ≡ (w.zero_conf, [])
      → z.publish_exists w.zero_conf ≡ true
      → z.browser_exists w.zero_conf ≡ true
      → run p z w (changes_state a suspended ∷ changes_state a active ∷ []) ≡ w
  unfolding run step app_state_changed
  back_nothing a w e f published browsing =
      let stopped = send_nothing a w stop_service_publish e in
      let closed = send_nothing a w stop_browser f in
      ap (λ v. app_state_changed p z a (send p z a v stop_browser) active) stopped
      ∙ ap (λ v. app_state_changed p z a v active) closed
      ∙ active_nothing a w published browsing

  -- A callback that signals nothing.
  callback_quiet :
      (w : Window p z) (c : z.Callback) (v : z.Wrapper)
      → z.callback w.zero_conf c ≡ (v, [])
      → step p z w (calls_back c) ≡ record w { zero_conf = v }
  unfolding step on_signals
  callback_quiet w c v e = ap (λ q. on_signals p z (record w { zero_conf = q.0 }) q.1) e

module _ (q : AndroidNsd.Platform) (i : ℕ) (w : Threads.World) (s : AndroidNsd.State) where
  -- "onServiceUnregistered" as a slot.
  abbrev unregistered : AndroidNsd.Slot
  unregistered = AndroidNsd.publisher_state_changed false false

  abbrev posted_world : Threads.World
  posted_world = record w { posted = (i, unregistered) ∷ [] }

  abbrev pub unregistered_world : Threads.World
  unregistered_world = record w {
    heap = set w.heap i (some (record s { publisher_exists = false }));
    posted = [];
  }

  post_first :
      Threads.object w i ≡ some s
      → Threads.is_instance i w.instances ≡ true
      → w.posted ≡ []
      → Threads.post w i unregistered ≡ posted_world
  unfolding Threads.post
  post_first there alive empty =
      ap
        (λ b.
          if b
          then record w {
            posted = w.posted ++ (i, unregistered) ∷ [];
            misused = not (is_some (Threads.object w i)) || w.misused;
          }
          else w)
        alive
      ∙ ap
          (λ o. record w {
            posted = w.posted ++ (i, unregistered) ∷ [];
            misused = not (is_some o) || w.misused;
          })
          there
      ∙ ap (λ l. record w { posted = l ++ (i, unregistered) ∷ [] }) empty

  deliver_first :
      Threads.object w i ≡ some s → Threads.deliver q posted_world ≡ (unregistered_world, [])
  unfolding Threads.deliver AndroidNsd.invoke AndroidNsd.on_publisher_state_changed
  deliver_first there = rw (there, Threads.deliver) refl

-- Over androidnsd.cpp an application that publishes and browses, with nothing queued for the Qt thread
-- and no registration of its object waiting for the Android thread, is suspended and becomes active
-- again before Android has answered: neither the publication nor the browser is resumed, since both
-- still seem to exist. When the answer comes, publishing is enabled, nothing is published, the tasks
-- that wait are those of before, and none of them is a registration of the object.
pub lost_on_resume :
    (p : Platform) (q : AndroidNsd.Platform) (i : ℕ) (w : Window p (android_zero_conf q i))
    (a : Around p (android_zero_conf q i)) (s : AndroidNsd.State)
    → Threads.object w.zero_conf i ≡ some s
    → Threads.is_instance i w.zero_conf.instances ≡ true
    → w.zero_conf.posted ≡ []
    → Idle i w.zero_conf.tasks
    → s.publisher_exists ≡ true
    → s.browser_exists ≡ true
    → a.answer stop_service_publish ≡ true
    → a.answer stop_browser ≡ true
    → w.publish_enabled ≡ true
    → let z = android_zero_conf q i in
      let w' = run p z w (
        changes_state a suspended
        ∷ changes_state a active
        ∷ calls_back (posts (AndroidNsd.publisher_state_changed false false))
        ∷ calls_back delivers
        ∷ []) in
      (w'.publish_enabled ≡ true)
      × (z.publish_exists w'.zero_conf ≡ false)
      × (w'.zero_conf.tasks ≡ w.zero_conf.tasks)
      × Idle i w'.zero_conf.tasks
unfolding run invoke_request Threads.stop_service_publish Threads.stop_browser
    AndroidNsd.publish_exists AndroidNsd.browser_exists
lost_on_resume p q i w a s there alive empty idle published browsing stop close enabled =
    let z = android_zero_conf q i in
    let stopped =
      ap
        (λ o. shown q i (
          on_object o (w.zero_conf, [])
            (λ s.
              invoke_request q w.zero_conf i s stop_service_publish
                (a.answer stop_service_publish))))
        there
      ∙ ap (λ b. shown q i (Threads.stop_service_publish w.zero_conf i b)) stop in
    let closed =
      ap
        (λ o. shown q i (
          on_object o (w.zero_conf, [])
            (λ s. invoke_request q w.zero_conf i s stop_browser (a.answer stop_browser))))
        there
      ∙ ap (λ b. shown q i (Threads.stop_browser w.zero_conf i b)) close in
    let back =
      back_nothing p z a w stopped closed
        (ap (λ o. on_object o false AndroidNsd.publish_exists) there ∙ published)
        (ap (λ o. on_object o false AndroidNsd.browser_exists) there ∙ browsing) in
    let slot = AndroidNsd.publisher_state_changed false false in
    let v : Threads.World = record w.zero_conf { posted = (i, slot) ∷ [] } in
    let first =
      callback_quiet p z w (posts slot) v
        (ap (λ v. (v, [])) (post_first q i w.zero_conf s there alive empty)) in
    let second =
      callback_quiet p z (record w { zero_conf = v }) delivers
        (unregistered_world q i w.zero_conf s)
        (ap (λ r. (r.0, signals r.1)) (deliver_first q i w.zero_conf s there)) in
    let all =
      ap (λ w. run p z w (calls_back (posts slot) ∷ calls_back delivers ∷ [])) back
      ∙ ap (λ w. step p z w (calls_back delivers)) first
      ∙ second in
    (
      ap (λ w. w.publish_enabled) all ∙ enabled,
      ap (λ w. z.publish_exists w.zero_conf) all
          ∙ ap (λ o. on_object (Threads.join o) false AndroidNsd.publish_exists)
              (written w.zero_conf.heap i s (record s { publisher_exists = false }) there),
      ap (λ w. w.zero_conf.tasks) all,
      subst (Idle i) (sym (ap (λ w. w.zero_conf.tasks) all)) idle,
    )
