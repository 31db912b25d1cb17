-- ===== src/AvahiCore/Interface.antt =====
-- avahicore.cpp as the class QZeroConf: the wrapper behind the interface.
use qt_zero_conf.AvahiCore.Api
use qt_zero_conf.AvahiCore.{State, group_callback, browse_callback, resolve_callback}
use qt_zero_conf.Avahi.{Resolve, Browse, EntryGroupState, Replies, Effects}
use qt_zero_conf.ZeroConf.{Request, ZeroConf, signals}
use qt_zero_conf.Service.{Signal, object_or_blank, Externals}
use qt_zero_conf.AvahiCore.Api.{ServerState}
use qt_zero_conf.Base.{get_elem?, List, [], ℕ, Option}

-- What the Avahi server answers to a request: to startServicePublish, and to startBrowser.
abbrev pub Reply : Type 0
Reply = Replies × Option ℕ

-- The callbacks of the Avahi server.
pub data Callback : Type 0 where
  server_changes : ServerState → Replies → Callback
  group_changes : Option ℕ → EntryGroupState → Callback
  browses : Browse → Option ℕ → Callback
  resolves : Resolve → Callback

module _ (x : Externals) (server : Option ℕ) where
  -- The method of a request.
  unfoldable pub invoke : State → Request → Reply → State × Effects
  unfolding Api.start_service_publish Api.stop_service_publish Api.stop_browser Api.start_browser
      Api.clear_service_txt_records
  invoke s (Request.start_service_publish name type domain port interface) r =
      Api.start_service_publish server s name type domain port interface r.0
  invoke s Request.stop_service_publish r = Api.stop_service_publish s
  invoke s Request.stop_browser r = Api.stop_browser s
  invoke s Request.clear_service_txt_records r = Api.clear_service_txt_records s
  invoke s (Request.start_browser type protocol) r = Api.start_browser x server s type protocol r.1
  invoke s (Request.add_service_txt_name name) r = (Api.add_service_txt_name x s name, [])
  invoke s (Request.add_service_txt_record name value) r =
      (Api.add_service_txt_record x s name value, [])

  unfoldable pub called : State → Callback → State × Effects
  unfolding Api.server_callback
  called s (server_changes state r) = Api.server_callback server s state r
  called s (group_changes g state) = group_callback s g state
  called s (browses e r) = browse_callback x server s e r
  called s (resolves e) = resolve_callback x server s e

  abbrev pub shown : State × Effects → State × List Signal
  shown q = (q.0, signals q.1)

  -- The class QZeroConf over the Avahi server.
  abbrev pub core_zero_conf : ZeroConf
  core_zero_conf = record {
    Wrapper = State;
    Reply = Reply;
    Callback = Callback;
    request = λ s q r. shown (invoke s q r);
    callback = λ s c. shown (called s c);
    publish_exists = Api.publish_exists;
    browser_exists = Api.browser_exists;
    service = λ s h. object_or_blank (get_elem? s.objects h);
  }
