-- ===== src/AvahiClient/Interface.antt =====
-- avahiclient.cpp as the class QZeroConf: the wrapper behind the interface, and that it is prompt.
use qt_zero_conf.AvahiClient.Api
use qt_zero_conf.Avahi.{Effects}
use qt_zero_conf.ZeroConf.{Request, ZeroConf, IsPrompt, is_quiet, signals}
use qt_zero_conf.Avahi.{
  registering, uncommited, failure, collision, established, Resolve, Browse, EntryGroupState,
  Replies,
}
use qt_zero_conf.Base.{true, arith, refl, false, get_elem?, List, ◌≡◌, ℕ, Option}
use qt_zero_conf.AvahiClient.Api.{
  start_browser, stop_service_publish, browser_exists, publish_exists, step, adds_txt_record,
  adds_txt_name, starts_browser, clears_txt, stops_browser, stops_publish, starts_publish, Entry,
}
use qt_zero_conf.Service.{Signal, object_or_blank, Externals}
use qt_zero_conf.AvahiClient.{broswer_clean_up, group_callback, State}
use qt_zero_conf.QMap.{is_some}
use qt_zero_conf.AvahiClient.Cases.{
  resolve_cases, browser_remove_cases, clean_up_cases, browser_new_cases, browse_cases,
}

-- What the Avahi client library answers to a request: to startServicePublish, and to startBrowser.
abbrev pub Reply : Type 0
Reply = Replies × Option ℕ

-- The callbacks of the Avahi client library.
pub data Callback : Type 0 where
  group_changes : Option ℕ → EntryGroupState → Callback
  browses : Browse → Option ℕ → Callback
  resolves : Resolve → Callback

module _ (x : Externals) where
  -- The method of a request.
  abbrev pub entry_of : Request → Reply → Entry
  entry_of (Request.start_service_publish name type domain port interface) r =
      starts_publish name type domain port interface r.0
  entry_of Request.stop_service_publish r = stops_publish
  entry_of Request.stop_browser r = stops_browser
  entry_of Request.clear_service_txt_records r = clears_txt
  entry_of (Request.start_browser type protocol) r = starts_browser type protocol r.1
  entry_of (Request.add_service_txt_name name) r = adds_txt_name name
  entry_of (Request.add_service_txt_record name value) r = adds_txt_record name value

abbrev pub called : Callback → Entry
called (group_changes g state) = Api.group_changes g state
called (browses e r) = Api.browses e r
called (resolves e) = Api.resolves e

module _ (x : Externals) where
  abbrev pub shown : State × Effects → State × List Signal
  shown q = (q.0, signals q.1)

  -- The class QZeroConf over the Avahi client library.
  abbrev pub client_zero_conf : ZeroConf
  client_zero_conf = record {
    Wrapper = State;
    Reply = Reply;
    Callback = Callback;
    request = λ s q r. shown (step x s (entry_of x q r));
    callback = λ s c. shown (step x s (called c));
    publish_exists = publish_exists;
    browser_exists = browser_exists;
    service = λ s h. object_or_blank (get_elem? s.objects h);
  }

  stop-Unpublished : (s : State) → is_some (stop_service_publish s).0.group ≡ false
  unfolding stop_service_publish
  stop-Unpublished s = ground arith

  clean_up-Unpublished :
      (s : State) → is_some s.group ≡ false → is_some (broswer_clean_up s).0.group ≡ false
  clean_up-Unpublished s h = clean_up_cases (λ q. is_some q.0.group ≡ false) s (λ _. h) (λ _ _. h)

  request-Unpublished :
      (s : State) (q : Request) (r : Reply)
      → is_quiet q ≡ true
      → is_some s.group ≡ false
      → is_some (step x s (entry_of x q r)).0.group ≡ false
  unfolding step start_browser
  request-Unpublished s (Request.start_service_publish name type domain port interface) r a h = cc
  request-Unpublished s Request.stop_service_publish r a h = stop-Unpublished s
  request-Unpublished s Request.stop_browser r a h = clean_up-Unpublished s h
  request-Unpublished s Request.clear_service_txt_records r a h = h
  request-Unpublished s (Request.start_browser type protocol) r a h = ground arith
  request-Unpublished s (Request.add_service_txt_name name) r a h = h
  request-Unpublished s (Request.add_service_txt_record name value) r a h = h

  group-Unpublished :
      (s : State) (g : Option ℕ) (state : EntryGroupState)
      → is_some s.group ≡ false
      → is_some (group_callback s g state).0.group ≡ false
  unfolding group_callback
  group-Unpublished s g established h = h
  group-Unpublished s g collision h = refl
  group-Unpublished s g failure h = refl
  group-Unpublished s g uncommited h = h
  group-Unpublished s g registering h = h

  callback-Unpublished :
      (s : State) (c : Callback)
      → is_some s.group ≡ false
      → is_some (step x s (called c)).0.group ≡ false
  unfolding step
  callback-Unpublished s (group_changes g state) h = group-Unpublished s g state h
  callback-Unpublished s (browses e r) h =
      let P = λ (q : State × Effects). is_some q.0.group ≡ false in
      browse_cases x P s e r h (browser_new_cases x P s e r (λ _. h) h)
        (browser_remove_cases x P s e (λ _. h) (λ _ _ _. h) (λ _ _ _ _. h))
        (clean_up-Unpublished s h)
  callback-Unpublished s (resolves e) h =
      resolve_cases x (λ (q : State × Effects). is_some q.0.group ≡ false) s e (λ _ _ _. h)
        (λ _ _. h) (λ _ _. h) (λ _ _ _. h)

  -- stopServicePublish of the wrapper over the Avahi client library ends the publication at once,
  -- and only startServicePublish begins one: no other method, and no callback.
  pub client-IsPrompt : IsPrompt client_zero_conf
  unfolding publish_exists step
  client-IsPrompt = record {
    stopped = λ s r. stop-Unpublished s;
    quiet = λ s q r. request-Unpublished s q r;
    unasked = λ s c. callback-Unpublished s c;
  }
