-- ===== src/AvahiClient/Signals.antt =====
-- avahiclient.cpp: what the signals serviceAdded and serviceRemoved tell the application.
use qt_zero_conf.AvahiClient.{
  on_browser_remove, resolve_callback, on_browser_new, group_callback, broswer_clean_up, State,
  free_resolvers,
}
use qt_zero_conf.Service.Signals.{
  Reported-append, added-emit_removed, removed-emit_removed, is_removed, emit_removed, is_added,
  removed, added, present, Reported,
}
use qt_zero_conf.QMap.Count.{count-insert, count-remove, count-append, count}
use qt_zero_conf.Base.{length, ◌==◌, true, refl, [], ◌∷◌, arith, ◌≡◌, ◌+◌, Option, List, ℕ}
use qt_zero_conf.AvahiClient.Api.{
  stops_browser, resolves, browses, run, starts_publish, group_changes,
}
use qt_zero_conf.AvahiClient.Cases.{
  browse_cases, resolve_cases, browser_remove_cases, browser_new_cases, clean_up_cases,
}
use qt_zero_conf.Avahi.{Replies, uncommited, Browse, Resolve, EntryGroupState, Call}
use qt_zero_conf.QMap.{values}
use qt_zero_conf.AvahiClient.Api.{
  Entry, start_browser, clear_service_txt_records, stop_service_publish, step,
  start_service_publish,
}
use qt_zero_conf.Service.{browser_failed, error, emits, service_key, Externals}
use qt_zero_conf.Text.{Text}
use qt_zero_conf.AvahiClient.Invariant.{step-IsValid, AllowedAll, IsValid}
use qt_zero_conf.AvahiClient.Aside.{is_aside, aside-IsSameView}

-- Freeing the resolvers emits nothing.
free_resolvers-quiet :
    (h : ℕ) (rs : List (Option ℕ))
    → (added h (free_resolvers rs) ≡ 0) × (removed h (free_resolvers rs) ≡ 0)
unfolding free_resolvers count
free_resolvers-quiet h [] = (refl, refl)
free_resolvers-quiet h (r ∷ rs) = omega (arith, free_resolvers-quiet h rs)

pub clean_up-Reported :
    (s : State) → Reported s.services (broswer_clean_up s).1 (broswer_clean_up s).0.services
unfolding count values
clean_up-Reported s h =
    clean_up_cases
      (λ q. present h s.services + added h q.1 ≡ present h q.0.services + removed h q.1) s
      (λ _. omega arith)
      λ b _. omega (
        arith,
        count-append (is_added h) (emit_removed (values s.services))
            (free_resolvers (values s.resolvers)),
        count-append (is_removed h) (emit_removed (values s.services))
            (free_resolvers (values s.resolvers)),
        free_resolvers-quiet h (values s.resolvers),
        removed-emit_removed Call h (values s.services),
        added-emit_removed Call h (values s.services),
      )

browser_new-Reported :
    (x : Externals) (s : State) (e : Browse) (r : Option ℕ)
    → Reported s.services (on_browser_new x s e r).1 (on_browser_new x s e r).0.services
unfolding count
browser_new-Reported x s e r h =
    browser_new_cases x
      (λ q. present h s.services + added h q.1 ≡ present h q.0.services + removed h q.1) s e r
      (λ _. omega arith) (omega arith)

browser_remove-Reported :
    (x : Externals) (s : State) (e : Browse)
    → IsValid x s
    → Reported s.services (on_browser_remove x s e).1 (on_browser_remove x s e).0.services
unfolding count
browser_remove-Reported x s e v h =
    browser_remove_cases x
      (λ q. present h s.services + added h q.1 ≡ present h q.0.services + removed h q.1) s e
      (λ _. omega arith) (λ _ _ _. omega arith)
      λ r zcs _ known.
        let k = service_key x e.name e.interface in
        ground (arith, known, count-remove (λ (i : ℕ). i == h) k s.services v.services_sorted)

resolve-Reported :
    (x : Externals) (s : State) (e : Resolve)
    → IsValid x s
    → Reported s.services (resolve_callback x s e).1 (resolve_callback x s e).0.services
unfolding count
resolve-Reported x s e v h =
    let k = service_key x e.name e.interface in
    resolve_cases x
      (λ q. present h s.services + added h q.1 ≡ present h q.0.services + removed h q.1) s e
      (λ _ _ _. omega arith)
      (λ _ absent. ground (
        arith,
        absent,
        count-insert (λ (i : ℕ). i == h) k (length s.objects) s.services v.services_sorted,
      ))
      (λ _ _. omega arith)
      (λ _ zcs known.
        ground (arith, known, count-remove (λ (i : ℕ). i == h) k s.services v.services_sorted))

group-quiet :
    (s : State) (g : Option ℕ) (state : EntryGroupState) (h : ℕ)
    → (added h (group_callback s g state).1 ≡ 0) × (removed h (group_callback s g state).1 ≡ 0)
unfolding group_callback count
group-quiet s g uncommited h = (refl, refl)
group-quiet s g _ h = omega arith

publish-quiet :
    (s : State) (name type domain : Text) (port interface : ℕ) (r : Replies) (h : ℕ)
    → let effects = (start_service_publish s name type domain port interface r).1 in
      (added h effects ≡ 0) × (removed h effects ≡ 0)
unfolding start_service_publish count
publish-quiet s name type domain port interface r h = ground arith

aside-quiet :
    (x : Externals) (s : State) (e : Entry) (h : ℕ)
    → is_aside e ≡ true
    → (added h (step x s e).1 ≡ 0) × (removed h (step x s e).1 ≡ 0)
unfolding step stop_service_publish clear_service_txt_records start_browser count
aside-quiet x s (starts_publish name type domain port interface r) h a =
    publish-quiet s name type domain port interface r h
aside-quiet x s (group_changes g state) h a = group-quiet s g state h
aside-quiet x s _ h a = ground arith

pub step-Reported :
    (x : Externals) (s : State) (e : Entry)
    → IsValid x s
    → Reported s.services (step x s e).1 (step x s e).0.services
unfolding step count
step-Reported x s stops_browser v = clean_up-Reported s
step-Reported x s (browses e r) v =
    browse_cases x (λ q. Reported s.services q.1 q.0.services) s e r (λ h. omega arith)
      (browser_new-Reported x s e r) (browser_remove-Reported x s e v)
      (Reported-append s.services _ _ (broswer_clean_up s).1 (emits (error browser_failed) ∷ [])
        (clean_up-Reported s) (λ h. omega arith))
step-Reported x s (resolves e) v = resolve-Reported x s e v
step-Reported x s e v =
    rw (aside-IsSameView x s e refl).services (λ h. omega (arith, aside-quiet x s e h refl))

-- The application that adds a service to its view on serviceAdded and drops it on serviceRemoved
-- has, from a valid state and after any entries that the library may make, just the services that the wrapper files:
-- for every service, its presence before the entries and the serviceAdded signals for it are as
-- many as its presence after them and the serviceRemoved signals for it.
pub run-Reported :
    (x : Externals) (s : State) (es : List Entry)
    → IsValid x s
    → AllowedAll x s es
    → Reported s.services (run x s es).1 (run x s es).0.services
unfolding run count
run-Reported x s [] v ok = λ h. omega arith
run-Reported x s (e ∷ es) v ok =
    Reported-append s.services (step x s e).0.services _ (step x s e).1 _ (step-Reported x s e v)
      (run-Reported x (step x s e).0 es (step-IsValid x s e ok.0 v) ok.1)
