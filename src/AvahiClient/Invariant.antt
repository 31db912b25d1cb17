-- ===== src/AvahiClient/Invariant.antt =====
-- What holds of the wrapper of avahiclient.cpp between two entries.
use qt_zero_conf.Base.{
  [], ◌∷◌, ℕ, ◌≡◌, refl, ◌≢◌, List, Option, none, arith, length, get_elem?, get_elem?-snoc,
  Option-cases, inl, inr,
}
use qt_zero_conf.Text.{Text}
use qt_zero_conf.QMap.{QMap, lookup}
use qt_zero_conf.QMap.Order.{IsSorted, insert-IsSorted, remove-IsSorted}
use qt_zero_conf.QMap.Lookup.{lookup-insert, lookup-remove}
use qt_zero_conf.Service.{Externals, ServiceData, service_key, set_ip}
use qt_zero_conf.Service.Store.{
  IsFiled, insert-IsFiled, remove-IsFiled, IsFiled-mono, key_at-snoc, key_at-set,
}
use qt_zero_conf.Avahi.{Protocol, Browse, Resolve}
use qt_zero_conf.AvahiClient.{
  State, new_state, broswer_clean_up, resolve_callback, on_browser_new, on_browser_remove, resolved,
}
use qt_zero_conf.Text.Order.{eq_of_text_eq}
use qt_zero_conf.AvahiClient.Cases.{
  browse_cases, clean_up_cases, browser_new_cases, browser_remove_cases, resolve_cases,
}
use qt_zero_conf.AvahiClient.Api.{run, step, stops_browser, browses, Entry, resolves}
use qt_zero_conf.AvahiClient.Aside.{aside-IsSameView, IsSameView}

module _ (x : Externals) where
  -- The key of an object by its own name and interface.
  abbrev pub key_of : ServiceData → Text
  key_of d = service_key x d.name d.interface_index

  -- The maps have each key once, every service is filed under its own name and interface, every
  -- service has a resolver, and without a browser there is neither.
  pub record IsValid (s : State) : Type 0 where
    pub services_sorted : IsSorted s.services
    pub resolvers_sorted : IsSorted s.resolvers
    pub filed : IsFiled key_of s.objects s.services
    pub covered : (k : Text) → lookup k s.resolvers ≡ none → lookup k s.services ≡ none
    pub idle : s.browser ≡ none → (s.services ≡ []) × (s.resolvers ≡ [])

  -- The library calls browseCallback only while there is a browser, and
  -- resolveCallback only for a resolver that the wrapper keeps.
  abbrev pub Allowed : State → Entry → Type 0
  Allowed s (browses e r) = s.browser ≢ none
  Allowed s (resolves e) = lookup (service_key x e.name e.interface) s.resolvers ≢ none
  Allowed s _ = Unit {0}

  pub new_state-IsValid :
      (client : Option ℕ) (protocol : Protocol) → IsValid (new_state client protocol).0
  unfolding new_state lookup
  new_state-IsValid client protocol = record {
    services_sorted = tt;
    resolvers_sorted = tt;
    filed = tt;
    covered = λ k e. refl;
    idle = λ _. (refl, refl);
  }

  -- setIp keeps every service filed.
  set_ip-IsFiled :
      (objects : List ServiceData) (h : ℕ) (ip : Text) (m : QMap ℕ)
      → IsFiled key_of objects m
      → IsFiled key_of (set_ip objects h ip) m
  unfolding set_ip
  set_ip-IsFiled objects h ip m f = elim (Option-cases (get_elem? objects h)) [
    | inl e ↦ rw (e, set_ip) f
    | inr (d, e) ↦
        rw (e, set_ip)
          (IsFiled-mono key_of objects _ m (λ i k. key_at-set key_of objects h _ i k (rw e)) f)
  ]

  clean_up-IsValid : (s : State) → IsValid s → IsValid (broswer_clean_up s).0
  unfolding lookup
  clean_up-IsValid s v =
      clean_up_cases (λ r. IsValid r.0) s (λ _. v)
        λ b _. record {
          services_sorted = tt;
          resolvers_sorted = tt;
          filed = tt;
          covered = λ k e. refl;
          idle = λ _. (refl, refl);
        }

  browser_new-IsValid :
      (s : State) (e : Browse) (r : Option ℕ)
      → s.browser ≢ none
      → IsValid s
      → IsValid (on_browser_new x s e r).0
  browser_new-IsValid s e r busy v =
      browser_new_cases x (λ q. IsValid q.0) s e r
        (λ fresh. record {
          services_sorted = v.services_sorted;
          resolvers_sorted = insert-IsSorted _ _ _ v.resolvers_sorted;
          filed = v.filed;
          covered = λ k h. ground (
            arith,
            v.covered k,
            lookup-insert k (service_key x e.name e.interface) r s.resolvers,
          );
          idle = λ h. absurd (busy h);
        })
        v

  browser_remove-IsValid :
      (s : State) (e : Browse) → s.browser ≢ none → IsValid s → IsValid (on_browser_remove x s e).0
  browser_remove-IsValid s e busy v =
      let key = service_key x e.name e.interface in
      browser_remove_cases x (λ q. IsValid q.0) s e (λ _. v)
        (λ r has absent. record {
          services_sorted = v.services_sorted;
          resolvers_sorted = remove-IsSorted _ _ v.resolvers_sorted;
          filed = v.filed;
          covered = λ k h.
              ground (arith, v.covered k, lookup-remove k key s.resolvers, eq_of_text_eq k key);
          idle = λ h. absurd (busy h);
        })
        (λ r zcs has present. record {
          services_sorted = remove-IsSorted _ _ v.services_sorted;
          resolvers_sorted = remove-IsSorted _ _ v.resolvers_sorted;
          filed = remove-IsFiled key_of _ _ _ v.filed;
          covered = λ k h.
              ground (
                arith,
                v.covered k,
                lookup-remove k key s.resolvers,
                lookup-remove k key s.services,
              );
          idle = λ h. absurd (busy h);
        })

  -- Both branches of a callback for a resolver that is kept.
  resolve-IsValid :
      (s : State) (e : Resolve)
      → lookup (service_key x e.name e.interface) s.resolvers ≢ none
      → IsValid s
      → IsValid (resolve_callback x s e).0
  resolve-IsValid s e kept v =
      let key = service_key x e.name e.interface in
      let busy = λ (h : s.browser ≡ none). kept (unfold lookup in rw (v.idle h).1) in
      resolve_cases x (λ q. IsValid q.0) s e
        (λ _ zcs _. record {
          services_sorted = v.services_sorted;
          resolvers_sorted = v.resolvers_sorted;
          filed = set_ip-IsFiled _ _ _ _ v.filed;
          covered = v.covered;
          idle = v.idle;
        })
        (λ _ absent. record {
          services_sorted = insert-IsSorted _ _ _ v.services_sorted;
          resolvers_sorted = v.resolvers_sorted;
          filed = set_ip-IsFiled _ _ _ _ (
              insert-IsFiled key_of _ key _ _ (rw (get_elem?-snoc s.objects (resolved x e))) (
                IsFiled-mono key_of s.objects _ _ (key_at-snoc key_of s.objects (resolved x e))
                  v.filed));
          covered = λ k h. ground (
            arith,
            kept,
            v.covered k,
            lookup-insert k key (length s.objects) s.services,
            eq_of_text_eq k key,
          );
          idle = λ h. absurd (busy h);
        })
        (λ _ _. v)
        (λ _ zcs _. record {
          services_sorted = remove-IsSorted _ _ v.services_sorted;
          resolvers_sorted = v.resolvers_sorted;
          filed = remove-IsFiled key_of _ _ _ v.filed;
          covered = λ k h. ground (arith, v.covered k, lookup-remove k key s.services);
          idle = λ h. absurd (busy h);
        })

module _ (x : Externals) where
  pub aside-IsValid : (s t : State) → IsSameView s t → IsValid x s → IsValid x t
  aside-IsValid s t f v = record {
    services_sorted = rw f.services v.services_sorted;
    resolvers_sorted = rw f.resolvers v.resolvers_sorted;
    filed = rw (f.objects, f.services) v.filed;
    covered = λ k h. rw f.services (v.covered k (rw f.resolvers at h));
    idle = λ h. rw (f.services, f.resolvers) (v.idle (f.idle h));
  }

  -- Every entry keeps the invariant.
  pub step-IsValid :
      (s : State) (e : Entry) → Allowed x s e → IsValid x s → IsValid x (step x s e).0
  unfolding step
  step-IsValid s stops_browser ok v = clean_up-IsValid x s v
  step-IsValid s (browses e r) ok v =
      browse_cases x (λ q. IsValid x q.0) s e r v (browser_new-IsValid x s e r ok v)
        (browser_remove-IsValid x s e ok v) (clean_up-IsValid x s v)
  step-IsValid s (resolves e) ok v = resolve-IsValid x s e ok v
  step-IsValid s e ok v = aside-IsValid s _ (aside-IsSameView x s e refl) v

  -- The entries come as the library may make them.
  abbrev pub AllowedAll : State → List Entry → Type 0
  AllowedAll s [] = Unit {0}
  AllowedAll s (e ∷ es) = Allowed x s e × AllowedAll (step x s e).0 es

  -- If the library calls browseCallback only while there is a browser and resolveCallback only for a
  -- resolver that is kept, any list of entries keeps the invariant: the two maps are sorted with each
  -- key once, every service is filed under the key of its own name and interface and has a resolver,
  -- and without a browser both maps are empty.
  pub run-IsValid :
      (s : State) (es : List Entry) → AllowedAll s es → IsValid x s → IsValid x (run x s es).0
  unfolding run
  run-IsValid s [] ok v = v
  run-IsValid s (e ∷ es) ok v = run-IsValid (step x s e).0 es ok.1 (step-IsValid s e ok.0 v)
