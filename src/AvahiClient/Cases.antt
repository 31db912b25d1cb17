-- ===== src/AvahiClient/Cases.antt =====
-- avahiclient.cpp: the branches of each handler, as a rule for what is proved of its result.
use qt_zero_conf.Base.{
  ℕ, ◌≡◌, ◌++◌, true, false, [], ◌∷◌, Option, none, some, length, Option-cases, Bool-cases, inl,
  inr,
}
use qt_zero_conf.QMap.{lookup, insert, remove, values}
use qt_zero_conf.Service.{
  Externals, service_key, set_ip, emits, calls, service_removed, service_added, service_updated,
  error, browser_failed,
}
use qt_zero_conf.Service.Signals.{emit_removed}
use qt_zero_conf.Avahi.{
  BrowserEvent, Browse, Resolve, Effects, service_resolver_new, service_resolver_free,
  service_browser_free, browser_new, browser_remove, browser_failure, browser_all_for_now,
  browser_cache_exhausted,
}
use qt_zero_conf.AvahiClient.{
  State, broswer_clean_up, free_resolvers, on_browser_event, browse_callback, resolve_callback,
  on_browser_new, on_browser_remove, on_resolver_found, on_resolver_failure, resolved,
}

module _ {ℓ} (P : State × Effects → Type ℓ) (s : State) where
  pub clean_up_cases :
      (s.browser ≡ none → P (s, []))
      → ((b : ℕ)
          → s.browser ≡ some b
          → P (
            record s { browser = none; services = []; resolvers = [] },
            calls (service_browser_free b) ∷ emit_removed (values s.services)
                ++ free_resolvers (values s.resolvers),
          ))
      → P (broswer_clean_up s)
  unfolding broswer_clean_up
  clean_up_cases idle busy = elim (Option-cases s.browser) [
    | inl e ↦ rw (e, broswer_clean_up) (idle e)
    | inr (b, e) ↦ rw (e, broswer_clean_up) (busy b e)
  ]

module _ {ℓ} (x : Externals) (P : State × Effects → Type ℓ) (s : State) where
  module _ (e : Browse) where
    pub browser_new_cases :
        (r : Option ℕ)
        → (lookup (service_key x e.name e.interface) s.resolvers ≡ none
            → P (
              record s { resolvers = insert (service_key x e.name e.interface) r s.resolvers },
              calls (
                    service_resolver_new s.client e.interface e.protocol e.name e.type e.domain
                      s.a_protocol r)
                  ∷ [],
            ))
        → P (s, [])
        → P (on_browser_new x s e r)
    unfolding on_browser_new
    browser_new_cases r fresh known =
        elim (Option-cases (lookup (service_key x e.name e.interface) s.resolvers)) [
          | inl e ↦ rw e (fresh e)
          | inr (q, e) ↦ rw e known
        ]

    pub browser_remove_cases :
        (lookup (service_key x e.name e.interface) s.resolvers ≡ none → P (s, []))
        → ((r : Option ℕ)
            → lookup (service_key x e.name e.interface) s.resolvers ≡ some r
            → lookup (service_key x e.name e.interface) s.services ≡ none
            → P (
              record s { resolvers = remove (service_key x e.name e.interface) s.resolvers },
              calls (service_resolver_free r) ∷ [],
            ))
        → ((r : Option ℕ) (zcs : ℕ)
            → lookup (service_key x e.name e.interface) s.resolvers ≡ some r
            → lookup (service_key x e.name e.interface) s.services ≡ some zcs
            → P (
              record s {
                resolvers = remove (service_key x e.name e.interface) s.resolvers;
                services = remove (service_key x e.name e.interface) s.services;
              },
              calls (service_resolver_free r) ∷ emits (service_removed zcs) ∷ [],
            ))
        → P (on_browser_remove x s e)
    unfolding on_browser_remove
    browser_remove_cases absent unresolved known =
        elim (Option-cases (lookup (service_key x e.name e.interface) s.resolvers)) [
          | inl e1 ↦ rw (e1, on_browser_remove) (absent e1)
          | inr (r, e1) ↦
              elim (Option-cases (lookup (service_key x e.name e.interface) s.services)) [
                | inl e2 ↦ rw (e1, on_browser_remove, e2) (unresolved r e1 e2)
                | inr (zcs, e2) ↦ rw (e1, on_browser_remove, e2) (known r zcs e1 e2)
              ]
        ]

    event_cases :
        (event : BrowserEvent) (r : Option ℕ)
        → P (s, [])
        → P (on_browser_new x s e r)
        → P (on_browser_remove x s e)
        → P ((broswer_clean_up s).0, (broswer_clean_up s).1 ++ emits (error browser_failed) ∷ [])
        → P (on_browser_event x event s e r)
    unfolding on_browser_event
    event_cases browser_failure r nothing new gone failed = failed
    event_cases browser_new r nothing new gone failed = new
    event_cases browser_remove r nothing new gone failed = gone
    event_cases browser_all_for_now r nothing new gone failed = nothing
    event_cases browser_cache_exhausted r nothing new gone failed = nothing

    pub browse_cases :
        (r : Option ℕ)
        → P (s, [])
        → P (on_browser_new x s e r)
        → P (on_browser_remove x s e)
        → P ((broswer_clean_up s).0, (broswer_clean_up s).1 ++ emits (error browser_failed) ∷ [])
        → P (browse_callback x s e r)
    unfolding browse_callback
    browse_cases = event_cases e.event

  pub resolve_cases :
      (e : Resolve)
      → (e.found ≡ true
          → (zcs : ℕ) → lookup (service_key x e.name e.interface) s.services ≡ some zcs
          → P (
            record s { objects = set_ip s.objects zcs (x.host_address e.address) },
            emits (service_updated zcs) ∷ [],
          ))
      → (e.found ≡ true
          → lookup (service_key x e.name e.interface) s.services ≡ none
          → P (
            record s {
              objects =
                  set_ip
                    (s.objects ++ resolved x e ∷ [])
                    (length s.objects)
                    (x.host_address e.address);
              services = insert (service_key x e.name e.interface) (length s.objects) s.services;
            },
            emits (service_added (length s.objects)) ∷ [],
          ))
      → (e.found ≡ false → lookup (service_key x e.name e.interface) s.services ≡ none → P (s, []))
      → (e.found ≡ false
          → (zcs : ℕ) → lookup (service_key x e.name e.interface) s.services ≡ some zcs
          → P (
            record s { services = remove (service_key x e.name e.interface) s.services },
            emits (service_removed zcs) ∷ [],
          ))
      → P (resolve_callback x s e)
  unfolding resolve_callback
  resolve_cases e update add nothing drop = elim (Bool-cases e.found) [
    | inl f ↦ elim (Option-cases (lookup (service_key x e.name e.interface) s.services)) [
      | inl k ↦ rw (f, on_resolver_found, k) (add f k)
      | inr (zcs, k) ↦ rw (f, on_resolver_found, k) (update f zcs k)
    ]
    | inr f ↦ elim (Option-cases (lookup (service_key x e.name e.interface) s.services)) [
      | inl k ↦ rw (f, on_resolver_failure, k) (nothing f k)
      | inr (zcs, k) ↦ rw (f, on_resolver_failure, k) (drop f zcs k)
    ]
  ]
