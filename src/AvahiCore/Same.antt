-- ===== src/AvahiCore/Same.antt =====
-- avahicore.cpp and avahiclient.cpp: the callbacks of the browser and of the resolvers are the
-- same code twice.
use qt_zero_conf.AvahiClient
use qt_zero_conf.AvahiCore.{
  group_callback, on_browser_event, on_browser_remove, on_browser_new, free_resolvers, State,
  browse_callback, resolve_callback, broswer_clean_up,
}
use qt_zero_conf.Base.{refl, inr, [], ap, inl, ◌∷◌, arith, Option-cases, ◌≡◌, ℕ, List, Option}
use qt_zero_conf.Service.{calls, Externals}
use qt_zero_conf.Avahi.{
  browser_cache_exhausted, browser_all_for_now, browser_remove, browser_new, browser_failure,
  BrowserEvent, uncommited, service_resolver_free, EntryGroupState, Resolve, Effects, Browse,
}
use qt_zero_conf.QMap.{values}

-- The object of the one wrapper as one of the other, with the server in the client's place.
abbrev pub as_client : Option ℕ → State → AvahiClient.State
as_client server s = record {
  objects = s.objects;
  services = s.services;
  client = server;
  group = s.group;
  browser = s.browser;
  a_protocol = s.a_protocol;
  resolvers = s.resolvers;
  txt = s.txt;
}

abbrev pub on_client : Option ℕ → State × Effects → AvahiClient.State × Effects
on_client server q = (as_client server q.0, q.1)

-- Freeing the resolvers is the same loop.
pub free_resolvers-same : (rs : List (Option ℕ)) → free_resolvers rs ≡ AvahiClient.free_resolvers rs
unfolding free_resolvers AvahiClient.free_resolvers
free_resolvers-same [] = refl
free_resolvers-same (r ∷ rs) =
    ap (λ e. calls (service_resolver_free r) ∷ e) (free_resolvers-same rs)

-- broswerCleanUp does the same to the same object.
pub clean_up-same :
    (server : Option ℕ) (s : State)
    → on_client server (broswer_clean_up s) ≡ AvahiClient.broswer_clean_up (as_client server s)
unfolding broswer_clean_up AvahiClient.broswer_clean_up
clean_up-same server s = elim (Option-cases s.browser) [
  | inl e ↦ rw (e, broswer_clean_up, AvahiClient.broswer_clean_up)
  | inr (b, e) ↦
      rw (e, broswer_clean_up, AvahiClient.broswer_clean_up)
        (rw (free_resolvers-same (values s.resolvers)))
]

browser_new-same :
    (x : Externals) (server : Option ℕ) (s : State) (e : Browse) (r : Option ℕ)
    → on_client server (on_browser_new x server s e r)
      ≡ AvahiClient.on_browser_new x (as_client server s) e r
unfolding on_browser_new AvahiClient.on_browser_new
browser_new-same x server s e r = ground arith

browser_remove-same :
    (x : Externals) (server : Option ℕ) (s : State) (e : Browse)
    → on_client server (on_browser_remove x server s e)
      ≡ AvahiClient.on_browser_remove x (as_client server s) e
unfolding on_browser_remove AvahiClient.on_browser_remove
browser_remove-same x server s e = ground arith

on_browser_event-same :
    (x : Externals) (server : Option ℕ) (event : BrowserEvent) (s : State) (e : Browse)
    (r : Option ℕ)
    → on_client server (on_browser_event x server event s e r)
      ≡ AvahiClient.on_browser_event x event (as_client server s) e r
unfolding on_browser_event AvahiClient.on_browser_event
on_browser_event-same x server browser_failure s e r = cc (clean_up-same server s)
on_browser_event-same x server browser_new s e r = browser_new-same x server s e r
on_browser_event-same x server browser_remove s e r = browser_remove-same x server s e
on_browser_event-same x server browser_all_for_now s e r = refl
on_browser_event-same x server browser_cache_exhausted s e r = refl

browse-same :
    (x : Externals) (server : Option ℕ) (s : State) (e : Browse) (r : Option ℕ)
    → on_client server (browse_callback x server s e r)
      ≡ AvahiClient.browse_callback x (as_client server s) e r
unfolding browse_callback AvahiClient.browse_callback
browse-same x server s e r = on_browser_event-same x server e.event s e r

resolve-same :
    (x : Externals) (server : Option ℕ) (s : State) (e : Resolve)
    → on_client server (resolve_callback x server s e)
      ≡ AvahiClient.resolve_callback x (as_client server s) e
unfolding resolve_callback AvahiClient.resolve_callback
resolve-same x server s e = ground arith

group-same :
    (server : Option ℕ) (s : State) (g : Option ℕ) (state : EntryGroupState)
    → on_client server (group_callback s g state)
      ≡ AvahiClient.group_callback (as_client server s) g state
unfolding group_callback AvahiClient.group_callback
group-same server s g uncommited = refl
group-same server s g _ = refl

-- The browser, the resolver and the group callback and broswerCleanUp do in the core wrapper
-- just what they do in the client wrapper: the same to the members and the same effects.
pub callbacks-same :
    (x : Externals) (server : Option ℕ) (s : State)
    → ((e : Browse) (r : Option ℕ)
        → on_client server (browse_callback x server s e r)
          ≡ AvahiClient.browse_callback x (as_client server s) e r)
      × ((e : Resolve)
          → on_client server (resolve_callback x server s e)
            ≡ AvahiClient.resolve_callback x (as_client server s) e)
      × ((g : Option ℕ) (state : EntryGroupState)
          → on_client server (group_callback s g state)
            ≡ AvahiClient.group_callback (as_client server s) g state)
      × (on_client server (broswer_clean_up s) ≡ AvahiClient.broswer_clean_up (as_client server s))
callbacks-same x server s =
    (browse-same x server s, resolve-same x server s, group-same server s, clean_up-same server s)
