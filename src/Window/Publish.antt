-- ===== src/Window/Publish.antt =====
-- example/window.cpp: what the buttons promise, over a wrapper that is prompt and over avahicore.cpp.
use qt_zero_conf.AvahiCore.Api
use qt_zero_conf.Window.{
  service_table, push_button, stop_publish_clicked, start_publish_clicked, service_type,
  resume_publish, resume_browser, Slot, run, click, Widget, on_stop_publish_clicked, build_gui,
  on_start_publish_clicked, on_slot, active, inactive, hidden, suspended, calls_back, clicks,
  changes_state, Entry, app_state_changed, Around, step, send, start_publish, update_service,
  remove_service, add_service, on_signal, Window, on_signals, Platform,
}
use qt_zero_conf.ZeroConf.{
  signals, stop_browser, is_quiet, Request, start_browser_ipv4, stop_service_publish, IsPrompt,
  ZeroConf,
}
use qt_zero_conf.Base.{
  ◌≢◌, ap, ℕ, none, some, Option, arith, get_elem?, Bool, sym, not, ◌&&◌, ◌∙◌, if◌then◌else◌, true,
  refl, [], ◌∷◌, List, false, ◌≡◌,
}
use qt_zero_conf.Service.{
  Externals, service_published, error, service_name_changed, service_updated, service_removed,
  service_added, Signal,
}
use qt_zero_conf.AvahiCore.Interface.{server_changes, core_zero_conf}
use qt_zero_conf.Avahi.{Replies}
use qt_zero_conf.AvahiCore.Api.{server_running}
use qt_zero_conf.AvahiCore.Publish.{Succeeds, stop_keeps_waiting}
use qt_zero_conf.Service.{Externals}
use qt_zero_conf.AvahiCore.Interface.{core_zero_conf, server_changes, invoke, called}
use qt_zero_conf.QMap.{is_some}

module _ (p : Platform) (z : ZeroConf) where
  -- The slots of the table touch neither the publication nor the button's state.
  on_signals-keeps :
      (w : Window p z) (es : List Signal)
      → ((on_signals p z w es).zero_conf ≡ w.zero_conf)
        × ((on_signals p z w es).publish_enabled ≡ w.publish_enabled)
  unfolding on_signals on_signal add_service remove_service update_service
  on_signals-keeps w [] = (refl, refl)
  on_signals-keeps w (service_added h ∷ es) =
      on_signals-keeps (add_service p z w (z.service w.zero_conf h)) es
  on_signals-keeps w (service_removed h ∷ es) =
      on_signals-keeps (remove_service p z w (z.service w.zero_conf h)) es
  on_signals-keeps w (service_updated h ∷ es) =
      on_signals-keeps (update_service p z w (z.service w.zero_conf h)) es
  on_signals-keeps w (service_published ∷ es) = on_signals-keeps w es
  on_signals-keeps w (service_name_changed name ∷ es) = on_signals-keeps w es
  on_signals-keeps w (error e ∷ es) = on_signals-keeps w es

  -- What an application that shows "Disable Publish" as done promises: nothing is published while
  -- publishing is disabled.
  abbrev pub IsObeyed : Window p z → Type 0
  IsObeyed w = w.publish_enabled ≡ false → z.publish_exists w.zero_conf ≡ false

  send-enabled :
      (a : Around p z) (w : Window p z) (q : Request)
      → (send p z a w q).publish_enabled ≡ w.publish_enabled
  unfolding send
  send-enabled a w q = (on_signals-keeps (record w { zero_conf = _ }) _).1

  send-wrapper :
      (a : Around p z) (w : Window p z) (q : Request)
      → (send p z a w q).zero_conf ≡ (z.request w.zero_conf q (a.answer q)).0
  unfolding send
  send-wrapper a w q = (on_signals-keeps (record w { zero_conf = _ }) _).0

  start_publish-enabled :
      (a : Around p z) (w : Window p z)
      → (start_publish p z a w).publish_enabled ≡ w.publish_enabled
  unfolding start_publish
  start_publish-enabled a w =
      send-enabled a _ _ ∙ send-enabled a _ _ ∙ send-enabled a _ _ ∙ send-enabled a w _

  -- With publishing enabled there is nothing to obey.
  enabled-IsObeyed : (w : Window p z) → w.publish_enabled ≡ true → IsObeyed w
  enabled-IsObeyed w e h = cc

  and_left : (a b : Bool) → (a && b) ≡ true → a ≡ true
  and_left a b h = ground arith

  branch-IsObeyed :
      (b : Bool) (u v : Window p z)
      → (b ≡ true → IsObeyed u)
      → (b ≡ false → IsObeyed v)
      → IsObeyed (if b then u else v)
  branch-IsObeyed true u v f g = f refl
  branch-IsObeyed false u v f g = g refl

  module _ (prompt : IsPrompt z) where
    send-IsObeyed :
        (a : Around p z) (w : Window p z) (q : Request)
        → is_quiet q ≡ true
        → IsObeyed w
        → IsObeyed (send p z a w q)
    send-IsObeyed a w q quiet v h =
        rw (send-wrapper a w q)
          (prompt.quiet w.zero_conf q (a.answer q) quiet (v (sym (send-enabled a w q) ∙ h)))

    stop-IsObeyed : (a : Around p z) (w : Window p z) → IsObeyed (send p z a w stop_service_publish)
    stop-IsObeyed a w h = rw (send-wrapper a w stop_service_publish) (prompt.stopped w.zero_conf _)

    start_publish-IsObeyed :
        (a : Around p z) (w : Window p z)
        → w.publish_enabled ≡ true
        → IsObeyed (start_publish p z a w)
    start_publish-IsObeyed a w e =
        enabled-IsObeyed (start_publish p z a w) (start_publish-enabled a w ∙ e)

    resume_publish-IsObeyed :
        (a : Around p z) (w : Window p z) → IsObeyed w → IsObeyed (resume_publish p z a w)
    unfolding resume_publish
    resume_publish-IsObeyed a w v =
        branch-IsObeyed (w.publish_enabled && not (z.publish_exists w.zero_conf))
          (start_publish p z a w) w (λ e. start_publish-IsObeyed a w (and_left _ _ e)) (λ _. v)

    resume_browser-IsObeyed :
        (a : Around p z) (w : Window p z) → IsObeyed w → IsObeyed (resume_browser p z a w)
    unfolding resume_browser start_browser_ipv4
    resume_browser-IsObeyed a w v =
        branch-IsObeyed (not (z.browser_exists w.zero_conf))
          (send p z a w (start_browser_ipv4 service_type)) w
          (λ _. send-IsObeyed a w (start_browser_ipv4 service_type) refl v) (λ _. v)

    slot-IsObeyed :
        (a : Around p z) (w : Window p z) (e : Slot) → IsObeyed w → IsObeyed (on_slot p z a w e)
    unfolding on_slot on_start_publish_clicked on_stop_publish_clicked
    slot-IsObeyed a w start_publish_clicked v =
        branch-IsObeyed w.publish_enabled w
          (start_publish p z a (record w { publish_enabled = true })) (λ _. v)
          (λ _. start_publish-IsObeyed a (record w { publish_enabled = true }) refl)
    slot-IsObeyed a w stop_publish_clicked v =
        branch-IsObeyed (not w.publish_enabled) w
          (send p z a (record w { publish_enabled = false }) stop_service_publish) (λ _. v)
          (λ _. stop-IsObeyed a (record w { publish_enabled = false }))

    clicked-IsObeyed :
        (a : Around p z) (w : Window p z) (b : Option Widget)
        → IsObeyed w
        → IsObeyed (click p z a w b)
    clicked-IsObeyed a w none v = v
    clicked-IsObeyed a w (some service_table) v = v
    clicked-IsObeyed a w (some (push_button label slot)) v = slot-IsObeyed a w slot v

    callback-IsObeyed :
        (w : Window p z) (c : z.Callback) → IsObeyed w → IsObeyed (step p z w (calls_back c))
    unfolding step
    callback-IsObeyed w c v h =
        let q = z.callback w.zero_conf c in
        let kept = on_signals-keeps (record w { zero_conf = q.0 }) q.1 in
        rw kept.0 (prompt.unasked w.zero_conf c (v (sym kept.1 ∙ h)))

    step-IsObeyed : (w : Window p z) (e : Entry p z) → IsObeyed w → IsObeyed (step p z w e)
    unfolding step app_state_changed
    step-IsObeyed w (changes_state a suspended) v =
        send-IsObeyed a _ stop_browser refl (stop-IsObeyed a w)
    step-IsObeyed w (changes_state a hidden) v = v
    step-IsObeyed w (changes_state a inactive) v = v
    step-IsObeyed w (changes_state a active) v =
        resume_browser-IsObeyed a (resume_publish p z a w) (resume_publish-IsObeyed a w v)
    step-IsObeyed w (clicks a place) v = clicked-IsObeyed a w (get_elem? build_gui.layout place) v
    step-IsObeyed w (calls_back c) v = callback-IsObeyed w c v

    -- Over a wrapper that is prompt, whatever the user, the system and the library beneath do:
    -- while publishing is disabled, by the button, nothing is published.
    pub run-IsObeyed :
        (w : Window p z) (es : List (Entry p z)) → IsObeyed w → IsObeyed (run p z w es)
    unfolding run
    run-IsObeyed w [] v = v
    run-IsObeyed w (e ∷ es) v = run-IsObeyed (step p z w e) es (step-IsObeyed w e v)

module _ (p : Platform) (z : ZeroConf) where
  -- A click on "Disable Publish" when stopServicePublish does nothing.
  stop_nothing :
      (a : Around p z) (w : Window p z)
      → w.publish_enabled ≡ true
      → z.request w.zero_conf stop_service_publish (a.answer stop_service_publish)
        ≡ (w.zero_conf, [])
      → step p z w (clicks a 1) ≡ record w { publish_enabled = false }
  unfolding step build_gui on_slot on_stop_publish_clicked send on_signals
  stop_nothing a w enabled nothing =
      ap
        (λ b.
          if not b
          then w
          else send p z a (record w { publish_enabled = false }) stop_service_publish)
        enabled
      ∙ ap (λ q. on_signals p z (record w { publish_enabled = false; zero_conf = q.0 }) q.1) nothing

is_some_of : (o : Option ℕ) → o ≢ none → is_some o ≡ true
is_some_of none h = absurd (h refl)
is_some_of (some a) h = refl

-- Over the Avahi server, a click on "Disable Publish" while a registration waits for the server does
-- not call it off: when the server runs and every call of the library succeeds, the service is
-- published while publishing is disabled.
pub core_disobeys :
    (p : Platform) (x : Externals) (server : Option ℕ) (w : Window p (core_zero_conf x server))
    (a : Around p (core_zero_conf x server)) (r : Replies)
    → w.publish_enabled ≡ true
    → w.zero_conf.group ≡ none
    → w.zero_conf.register_waiting ≡ true
    → Succeeds r
    → let w' =
        run p
          (core_zero_conf x server)
          w
          (clicks a 1 ∷ calls_back (server_changes server_running r) ∷ []) in
      (w'.publish_enabled ≡ false) × (Api.publish_exists w'.zero_conf ≡ true)
unfolding run step Api.publish_exists invoke called
core_disobeys p x server w a r enabled free waiting good =
    let z = core_zero_conf x server in
    let kept = stop_keeps_waiting server w.zero_conf r free waiting good in
    let stopped = stop_nothing p z a w enabled (ap (λ q. (q.0, signals q.1)) kept.0) in
    let group =
      ap (λ q. (Api.server_callback server q.0 server_running r).0.group) (sym kept.0) ∙ kept.1 in
    let called = Api.server_callback server w.zero_conf server_running r in
    let after : Window p z = record w { publish_enabled = false; zero_conf = called.0 } in
    let slots = on_signals-keeps p z after (signals called.1) in
    rw stopped (
      slots.1,
      ap (λ s. Api.publish_exists s) slots.0 ∙ ap is_some group ∙ is_some_of r.group good.0,
    )
