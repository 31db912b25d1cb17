-- ===== src/AvahiClient/Publish.antt =====
-- avahiclient.cpp: startServicePublish on all its branches.
use qt_zero_conf.AvahiClient.Api.{start_service_publish}
use qt_zero_conf.AvahiClient.{State}
use qt_zero_conf.Service.{
  browser_failed, service_name_collision, error, emits, service_registration_failed, Effect, ErrorT,
}
use qt_zero_conf.Text.{Text}
use qt_zero_conf.QMap.Count.{count}
use qt_zero_conf.Avahi.{Call, Effects, Replies}
use qt_zero_conf.Base.{◌≤◌, refl, false, ◌⊎◌, true, arith, some, Bool, ◌≡◌, none, ◌≢◌, ℕ}
use qt_zero_conf.Avahi.Resources.{freed, entry_group, made}

abbrev pub is_error : ErrorT → Effect Call → Bool
is_error service_registration_failed (emits (error service_registration_failed)) = true
is_error service_name_collision (emits (error service_name_collision)) = true
is_error browser_failed (emits (error browser_failed)) = true
is_error e _ = false

-- How often an error is signalled.
abbrev pub errors : ErrorT → Effects → ℕ
errors e = count (is_error e)

-- A publication is in order when there is a client and no group, and the library makes a group,
-- adds the service and commits the group.
abbrev pub Succeeds : State → Replies → Type 0
Succeeds s r =
    (s.client ≢ none)
    × (s.group ≡ none)
    × (r.group ≢ none)
    × (r.added ≡ true)
    × (r.committed ≡ true)

-- The publication is in order, the wrapper keeps the group that the library made, and no error is
-- signalled; or it is not in order, the wrapper keeps the group that it had before, or none, and
-- serviceRegistrationFailed is signalled.
pub publish_errors :
    (s : State) (name type domain : Text) (port interface : ℕ) (r : Replies)
    → let q = start_service_publish s name type domain port interface r in
      (Succeeds s r × (errors service_registration_failed q.1 ≡ 0) × (q.0.group ≡ r.group))
      ⊎ ((¬ Succeeds s r)
          × (1 ≤ errors service_registration_failed q.1)
          × ((q.0.group ≡ s.group) ⊎ (q.0.group ≡ none)))
unfolding start_service_publish count
publish_errors s name type domain port interface r = ground arith

-- If committing the group fails, the group that was made is not freed (NULL is freed instead),
-- the wrapper no longer keeps it, and the error is signalled twice.
pub publish_commit_leak :
    (s : State) (name type domain : Text) (port interface c g : ℕ)
    → s.client ≡ some c
    → s.group ≡ none
    → let r : Replies = record { group = some g; added = true; committed = false } in
      let q = start_service_publish s name type domain port interface r in
      (made entry_group g q.1 ≡ 1)
      × (freed entry_group g q.1 ≡ 0)
      × (q.0.group ≡ none)
      × (errors service_registration_failed q.1 ≡ 2)
unfolding start_service_publish count
publish_commit_leak s name type domain port interface c g hc hg =
    rw (hc, hg) (ground arith, ground arith, refl, refl)
