-- ===== src/AvahiCore/Signals.antt =====
-- avahicore.cpp: what the signals serviceAdded and serviceRemoved of one object tell the application.
use qt_zero_conf.AvahiClient
use qt_zero_conf.AvahiClient.Api
use qt_zero_conf.AvahiClient.Invariant.{IsValid, step-IsValid}
use qt_zero_conf.AvahiClient.Lifecycle.{step-Conserves}
use qt_zero_conf.AvahiClient.Signals.{step-Reported}
use qt_zero_conf.Avahi.Resources.{Balanced, Balanced-append, held_in, resolver}
use qt_zero_conf.AvahiCore.{State, browse_callback, resolve_callback}
use qt_zero_conf.AvahiCore.Api.{
  stop_browser, clear_service_txt_records, add_service_txt_name, add_service_txt_record,
}
use qt_zero_conf.AvahiCore.Interface.{
  Reply, server_changes, group_changes, browses, resolves, invoke, called,
}
use qt_zero_conf.AvahiCore.Same.{as_client, on_client, callbacks-same}
use qt_zero_conf.AvahiCore.Uses.{
  Use, requests, calls_back, step, run, Allowed, AllowedAll, Keeps, aside-Keeps, text-IsAside,
  publish-IsAside, stop-IsAside, server-IsAside, group-IsAside, browser-IsAside,
}
use qt_zero_conf.Avahi.{Effects}
use qt_zero_conf.Base.{List, [], ◌∷◌, Option, ℕ, ◌≡◌, sym, subst, arith}
use qt_zero_conf.QMap.Count.{count}
use qt_zero_conf.Service.{Externals}
use qt_zero_conf.Service.Signals.{Reported, Reported-append}
use qt_zero_conf.ZeroConf.{Request}

module _ (x : Externals) (server : Option ℕ) where
  -- What an entry into the client wrapper does, done to an object of this one.
  client-Keeps :
      (s : State) (q : State × Effects) (e : Api.Entry)
      → on_client server q ≡ Api.step x (as_client server s) e
      → IsValid x (Api.step x (as_client server s) e).0
      → IsValid x (as_client server s)
      → Keeps x server s q
  client-Keeps s q e same valid v =
      subst
        (λ (r : AvahiClient.State × Effects).
          IsValid x r.0
          × Reported s.services r.1 r.0.services
          × Balanced resolver (λ p. held_in p s.resolvers) r.1 (λ p. held_in p r.0.resolvers))
        (sym same)
        (
          valid,
          step-Reported x (as_client server s) e v,
          step-Conserves x resolver (as_client server s) e v (λ k. cc),
        )

  request-Keeps :
      (s : State) (q : Request) (r : Reply)
      → Allowed x server s (requests q r)
      → IsValid x (as_client server s)
      → Keeps x server s (invoke x server s q r)
  unfolding invoke clear_service_txt_records add_service_txt_name add_service_txt_record count
      stop_browser Api.step
  request-Keeps s (Request.start_service_publish name type domain port interface) r ok v =
      aside-Keeps x server s _ (publish-IsAside x server s name type domain port interface r.0) v
  request-Keeps s Request.stop_service_publish r ok v =
      aside-Keeps x server s _ (stop-IsAside x server s) v
  request-Keeps s Request.stop_browser r ok v =
      client-Keeps s (stop_browser s) Api.stops_browser (callbacks-same x server s).3
        (step-IsValid x (as_client server s) Api.stops_browser tt v) v
  request-Keeps s Request.clear_service_txt_records r ok v =
      aside-Keeps x server s _
        (text-IsAside x server s _ (clear_service_txt_records s).1 (λ h. omega arith)) v
  request-Keeps s (Request.start_browser type protocol) r ok v =
      aside-Keeps x server s _ (browser-IsAside x server s type protocol r.1 ok) v
  request-Keeps s (Request.add_service_txt_name name) r ok v =
      aside-Keeps x server s _ (text-IsAside x server s _ [] (λ h. omega arith)) v
  request-Keeps s (Request.add_service_txt_record name value) r ok v =
      aside-Keeps x server s _ (text-IsAside x server s _ [] (λ h. omega arith)) v

  step-Keeps :
      (s : State) (e : Use)
      → Allowed x server s e
      → IsValid x (as_client server s)
      → Keeps x server s (step x server s e)
  unfolding step called Api.step
  step-Keeps s (requests q r) ok v = request-Keeps s q r ok v
  step-Keeps s (calls_back (server_changes state r)) ok v =
      aside-Keeps x server s _ (server-IsAside x server s state r) v
  step-Keeps s (calls_back (group_changes g state)) ok v =
      aside-Keeps x server s _ (group-IsAside x server s g state) v
  step-Keeps s (calls_back (browses e r)) ok v =
      client-Keeps s (browse_callback x server s e r) (Api.browses e r)
        ((callbacks-same x server s).0 e r)
        (step-IsValid x (as_client server s) (Api.browses e r) ok v) v
  step-Keeps s (calls_back (resolves e)) ok v =
      client-Keeps s (resolve_callback x server s e) (Api.resolves e)
        ((callbacks-same x server s).1 e)
        (step-IsValid x (as_client server s) (Api.resolves e) ok v) v

  -- An object of the core wrapper, through any methods and callbacks from a valid state: it stays
  -- valid in the sense of the client wrapper; for every service, its presence before and the
  -- serviceAdded signals for it are as many as its presence after and the serviceRemoved signals
  -- for it; and each resolver is kept before or made as often as it is kept after or freed. The
  -- application calls startBrowser only while there is no browser; and the library calls
  -- browseCallback only while there is a browser, and resolveCallback only for a resolver that is
  -- kept.
  pub core-Reported :
      (s : State) (es : List Use)
      → AllowedAll x server s es
      → IsValid x (as_client server s)
      → Keeps x server s (run x server s es)
  unfolding run count
  core-Reported s [] ok v = (v, λ h. omega arith, λ p. omega arith)
  core-Reported s (e ∷ es) ok v =
      let now = step-Keeps s e ok.0 v in
      let later = core-Reported (step x server s e).0 es ok.1 now.0 in
      (
        later.0,
        Reported-append s.services (step x server s e).0.services _ (step x server s e).1 _ now.1
            later.1,
        Balanced-append resolver (λ p. held_in p s.resolvers)
            (λ p. held_in p (step x server s e).0.resolvers) _ (step x server s e).1 _ now.2
            later.2,
      )
