-- ===== src/AvahiCore/Browser.antt =====
-- avahicore.cpp: startBrowser while a browser runs, which signals the error and goes on.
use qt_zero_conf.AvahiClient
use qt_zero_conf.AvahiCore.Api.{stop_browser, start_browser}
use qt_zero_conf.QMap.Count.{count}
use qt_zero_conf.Service.{browser_failed, Externals}
use qt_zero_conf.Base.{refl, ap, ◌++◌, arith, some, ◌≡◌, ◌≢◌, ℕ, Option}
use qt_zero_conf.AvahiCore.{free_resolvers, broswer_clean_up, State}
use qt_zero_conf.Text.{Text}
use qt_zero_conf.Avahi.{LayerProtocol}
use qt_zero_conf.Avahi.Resources.{made, browser, freed}
use qt_zero_conf.AvahiClient.Publish.{errors}
use qt_zero_conf.Service.Signals.{emit_removed}
use qt_zero_conf.QMap.{values}
use qt_zero_conf.AvahiCore.Same.{free_resolvers-same}
use qt_zero_conf.AvahiClient.Conserves.{loops-counts}

loops-same :
    (s : State)
    → emit_removed (values s.services) ++ free_resolvers (values s.resolvers)
      ≡ emit_removed (values s.services) ++ AvahiClient.free_resolvers (values s.resolvers)
loops-same s = rw (free_resolvers-same (values s.resolvers))

-- A second start makes a second browser: the first one is neither kept nor freed any more, and
-- browserFailed is signalled although the new browser runs.
pub start_browser_twice :
    (x : Externals) (server : Option ℕ) (s : State) (type : Text) (protocol : LayerProtocol)
    (a b : ℕ)
    → a ≢ b
    → s.browser ≡ some a
    → let q = start_browser x server s type protocol (some b) in
      (q.0.browser ≡ some b)
      × (freed browser a q.1 ≡ 0)
      × (made browser b q.1 ≡ 1)
      × (errors browser_failed q.1 ≡ 1)
      × (freed browser a (stop_browser q.0).1 ≡ 0)
unfolding start_browser stop_browser broswer_clean_up count
start_browser_twice x server s type protocol a b other runs = rw runs (
  refl,
  omega arith,
  ground arith,
  omega arith,
  ground (
    arith,
    ap (freed browser a) (loops-same s),
    loops-counts browser a (values s.services) (values s.resolvers),
  ),
)
