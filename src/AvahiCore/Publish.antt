-- ===== src/AvahiCore/Publish.antt =====
-- avahicore.cpp: registering a service, at once or when the server runs.
use qt_zero_conf.AvahiCore.Api.{
  server_running, server_callback, stop_service_publish, register_service,
}
use qt_zero_conf.Avahi.{Replies}
use qt_zero_conf.Base.{◌⊎◌, arith, [], true, ◌≡◌, ℕ, none, Option, ◌≢◌}
use qt_zero_conf.QMap.Count.{count}
use qt_zero_conf.AvahiCore.{State}
use qt_zero_conf.Text.{Text}
use qt_zero_conf.AvahiClient.Publish.{errors}
use qt_zero_conf.Avahi.Resources.{held, entry_group, Balanced}
use qt_zero_conf.Service.{service_registration_failed}

-- The registration is in order when the library makes a group, adds the service and commits.
abbrev pub Succeeds : Replies → Type 0
Succeeds r = (r.group ≢ none) × (r.added ≡ true) × (r.committed ≡ true)

-- registerService keeps the group that it made if every call succeeds, and then signals no error;
-- otherwise it keeps none and signals serviceRegistrationFailed once.
pub register_errors :
    (server : Option ℕ) (s : State) (name type domain : Text) (port interface : ℕ) (r : Replies)
    → let q = register_service server s name type domain port interface r in
      (Succeeds r × (errors service_registration_failed q.1 ≡ 0) × (q.0.group ≡ r.group))
      ⊎ ((¬ Succeeds r) × (errors service_registration_failed q.1 ≡ 1) × (q.0.group ≡ none))
unfolding register_service count
register_errors server s name type domain port interface r = ground arith

-- Whatever the library answers, a group that registerService makes is kept or freed.
pub register-Conserves :
    (server : Option ℕ) (s : State) (name type domain : Text) (port interface : ℕ) (r : Replies)
    → s.group ≡ none
    → let q = register_service server s name type domain port interface r in
      Balanced entry_group (λ p. held p s.group) q.1 (λ p. held p q.0.group)
unfolding register_service count
register-Conserves server s name type domain port interface r free p = ground arith

-- A registration that waits for the server is not called off by stopServicePublish: there is no
-- group to free, and when the server runs, the service is registered if every call of
-- the library succeeds.
pub stop_keeps_waiting :
    (server : Option ℕ) (s : State) (r : Replies)
    → s.group ≡ none
    → s.register_waiting ≡ true
    → Succeeds r
    → let stopped = stop_service_publish s in
      (stopped ≡ (s, [])) × ((server_callback server stopped.0 server_running r).0.group ≡ r.group)
unfolding stop_service_publish server_callback register_service
stop_keeps_waiting server s r free waiting good = ground arith
