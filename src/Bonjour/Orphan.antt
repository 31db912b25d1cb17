-- ===== src/Bonjour/Orphan.antt =====
-- bonjour.cpp: a Resolver whose entry in the map another one takes.
use mathlib.Core.Option
use qt_zero_conf.Bonjour.{
  Effects, State, Resolver, Reply, resolver_at, join, ◌>>=◌, Visits, service_resolve, clean_up_all,
  clean_up_browser, clean_up, delete_resolver, resolver_clean_up, zcs_key,
}
use qt_zero_conf.Bonjour.Callbacks.{
  Browse, AddressReply, resolve, announced, on_browse_add, browse_callback,
}
use qt_zero_conf.Bonjour.Api.{
  step, run, stop_browser, browses, stops_browser, addresses, resolver_reads, resolver_ready,
}
use qt_zero_conf.Service.{object_or_blank, service_key, Externals, calls, emits, service_added}
use qt_zero_conf.Base.{
  suc, false, true, ◌≡◌, none, ◌++◌, get_elem?-snoc, length, some, Option, ℕ, [], ◌∷◌, arith, ◌==◌,
  refl, ◌∙◌, ap, get_elem?-snoc_lt, length-append,
}
use qt_zero_conf.QMap.{insert, remove, lookup, contains}
use qt_zero_conf.Text.{Text}
use qt_zero_conf.Text.Order.{text_eq_refl}
use qt_zero_conf.Bonjour.Removal.{address_found, files_absent}
use qt_zero_conf.Bonjour.CleanUp.{Returns, VisitsEach, visits_none, clean_up_there}
use qt_zero_conf.Bonjour.Kept.{get_elem?-set_other, set-snoc}

-- The Resolver of a service that is resolved with the reference `p`.
abbrev pub resolving : ℕ → ℕ → Resolver
resolving zcs p = record {
  zcs = zcs;
  resolver_ref = some p;
  address_ref = none;
  resolver_notifier = true;
  address_notifier = false;
}

abbrev pub granted : ℕ → Reply
granted p = record { ok = true; ref = some p; has_socket = true }

abbrev pub announces : ℕ → Text → Text → Text → Browse
announces interface name type domain = record {
  ok = true;
  add = true;
  interface = interface;
  name = name;
  type = type;
  domain = domain;
}

module _ (x : Externals) where
  -- The state in which an announced service is being resolved.
  abbrev announced_state : State → Browse → ℕ → State
  announced_state s e p = record s {
    objects = s.objects ++ announced x e ∷ [];
    resolvers = insert (service_key x e.name e.interface) (length s.heap) s.resolvers;
    heap = s.heap ++ some (resolving (length s.objects) p) ∷ [];
  }

  -- The call that asks for the service.
  abbrev asks : Browse → ℕ → Effects
  asks e p =
      calls (
        service_resolve e.interface (x.to_utf8 e.name) (x.to_utf8 e.type) (x.to_utf8 e.domain)
          (some p))
      ∷ []

  announce :
      (s : State) (e : Browse) (p : ℕ)
      → lookup (service_key x e.name e.interface) s.services ≡ none
      → on_browse_add x s e (granted p) ≡ some (announced_state s e p, asks e p)
  unfolding on_browse_add contains resolve
  announce s e p absent =
      rw (absent, on_browse_add, contains)
        (rw (get_elem?-snoc s.objects (announced x e)) (rw set-snoc))

module _ (x : Externals) (v : Visits) (each : VisitsEach v) where
  -- The browser is gone, and the Resolver is there.
  abbrev Survives : ℕ → Resolver → State → Type 0
  Survives i r t = (resolver_at t i ≡ some r) × (t.browser ≡ none) × (t.services ≡ [])

  -- A Resolver that stands nowhere in the map outlives the browser.
  stop-Survives :
      (s : State) (b i : ℕ) (r : Resolver)
      → s.resolvers ≡ []
      → resolver_at s i ≡ some r
      → s.browser ≡ some b
      → Returns (λ q. Survives i r q.0) (stop_browser x v s)
  unfolding stop_browser clean_up clean_up_browser clean_up_all
  stop-Survives s b i r empty has running =
      rw (running, self b) (rw (visits_none x v each s.resolvers empty) (has, refl, refl))
    where
      self : (n : ℕ) → (n == n) ≡ true
      self n = ground arith

-- An entry that took the place of another is removed.
taken_back : (k : Text) (i j : ℕ) → remove k (insert k j (insert k i [])) ≡ []
unfolding insert remove
taken_back k i j = rw (text_eq_refl k) (rw (text_eq_refl k) refl)

-- Of one service with two Resolvers the second one fails.
module _ (x : Externals) (s : State) (e e' : Browse) (p p' : ℕ) where
  abbrev twice : State
  twice = announced_state x (announced_state x s e p) e' p'

  abbrev newer : ℕ
  newer = length (announced_state x s e p).heap

  abbrev newer_resolver : Resolver
  newer_resolver = resolving (length (announced_state x s e p).objects) p'

  newer_there : resolver_at twice newer ≡ some newer_resolver
  newer_there = ap join (get_elem?-snoc (announced_state x s e p).heap (some newer_resolver))

  older_there : resolver_at twice (length s.heap) ≡ some (resolving (length s.objects) p)
  older_there =
      let longer = length-append s.heap (some (resolving (length s.objects) p) ∷ []) in
      ap join (
        get_elem?-snoc_lt (announced_state x s e p).heap (length s.heap) (some newer_resolver)
          (omega (arith, longer))
        ∙ get_elem?-snoc s.heap (some (resolving (length s.objects) p)))

  abbrev once_more : State × Effects
  once_more = delete_resolver x twice newer newer_resolver

  still_there : resolver_at once_more.0 (length s.heap) ≡ some (resolving (length s.objects) p)
  still_there =
      let longer = length-append s.heap (some (resolving (length s.objects) p) ∷ []) in
      ap join (get_elem?-set_other twice.heap (length s.heap) newer none (ground (arith, longer)))
      ∙ older_there

  none_filed :
      service_key x e'.name e'.interface ≡ service_key x e.name e.interface
      → s.resolvers ≡ []
      → once_more.0.resolvers ≡ []
  unfolding insert remove
  none_filed same empty =
      let key = service_key x e.name e.interface in
      let objects = s.objects ++ announced x e ∷ [] in
      let own : zcs_key x twice (length objects) ≡ key =
        ap (λ o. service_key x (object_or_blank o).name (object_or_blank o).interface_index)
          (get_elem?-snoc objects (announced x e'))
        ∙ same in
      rw (own, same, empty) (taken_back key (length s.heap) (newer))

Returns-next :
    (P : State → Type 0) (effects : Effects) (o : Option (State × Effects))
    → Returns {A = State × Effects} (λ q. P q.0) o
    → Returns {A = State × Effects} (λ q. P q.0) (Option.map (λ q. (q.0, effects ++ q.1)) o)
Returns-next P effects none h = absurd h
Returns-next P effects (some q) h = h

-- The Resolver of a service is there although there is neither a browser nor a service filed, and
-- an address that it gets is signalled.
abbrev pub Lingers : Externals → Visits → ℕ → Resolver → AddressReply → State → Type 0
Lingers x v i r e t =
    (resolver_at t i ≡ some r)
    × (t.browser ≡ none)
    × (t.services ≡ [])
    × Returns {A = State × Effects} (λ u. u.1 ≡ emits (service_added r.zcs) ∷ [])
        (step x v t (addresses i e))

-- An address that is found for a service.
abbrev pub found : ℕ → Text → AddressReply
found interface address = record { ok = true; add = true; interface = interface; address = address }

module _ (x : Externals) (v : Visits) (i interface : ℕ) (address : Text) (r : Resolver) where
  survivor-Lingers :
      (t : State)
      → (resolver_at t i ≡ some r) × (t.browser ≡ none) × (t.services ≡ [])
      → Lingers x v i r (found interface address) t
  unfolding step lookup
  survivor-Lingers t h = (
    h.0,
    h.1,
    h.2,
    rw (address_found x t i interface address r h.0)
        (ap (λ q. q.1) (files_absent x t r (found interface address) (rw h.2 refl))),
  )

  stopped-Lingers :
      (o : Option (State × Effects))
      → Returns {A = State × Effects}
          (λ q. (resolver_at q.0 i ≡ some r) × (q.0.browser ≡ none) × (q.0.services ≡ []))
          o
      → Returns {A = State × Effects}
          (λ q. Lingers x v i r (found interface address) q.0)
          (o >>= λ t. some (t, []))
  stopped-Lingers none h = absurd h
  stopped-Lingers (some q) h = survivor-Lingers q.0 h

-- While there is a browser and no Resolver stands in the map, a service that is not filed is
-- announced for two domains; the second Resolver, which takes the entry of the first in the map,
-- fails, and then the browser is stopped. The first is still there when there is neither a browser
-- nor a service filed, and an address that it then gets signals serviceAdded. A loop over a QHash
-- visits each entry once if its body does not change the QHash.
pub orphaned :
    (x : Externals) (v : Visits) (s : State) (interface b p p' : ℕ)
    (name type domain domain' address : Text)
    → VisitsEach v
    → s.resolvers ≡ []
    → lookup (service_key x name interface) s.services ≡ none
    → s.browser ≡ some b
    → let i = length s.heap in
      let r = resolving (length s.objects) p in
      Returns {A = State × Effects}
        (λ q. Lingers x v i r (found interface address) q.0)
        (run x v s (
          browses (announces interface name type domain) (granted p)
          ∷ browses (announces interface name type domain') (granted p')
          ∷ resolver_reads (suc i) false
          ∷ stops_browser
          ∷ []))
unfolding run step browse_callback lookup resolver_ready
orphaned x v s interface b p p' name type domain domain' address each empty absent running =
    let e = announces interface name type domain in
    let e' = announces interface name type domain' in
    let i = length s.heap in
    let r = resolving (length s.objects) p in
    let first = announced_state x s e p in
    let second = announced_state x first e' p' in
    let third = once_more x s e e' p p' in
    let next : suc i ≡ length first.heap = omega (arith, length-append s.heap (some r ∷ [])) in
    let P = λ (t : State). Lingers x v i r (found interface address) t in
    let tail = λ (t : State). stop_browser x v t >>= λ u. some (u, []) in
    rw (announce x s e p absent) (
      Returns-next P (asks x e p)
        (on_browse_add x first e' (granted p') >>= λ t. resolver_clean_up x t (suc i) >>= tail)
        (rw (announce x first e' p' absent) (
          Returns-next P (asks x e' p') (resolver_clean_up x second (suc i) >>= tail) (
            rw
              (
                next,
                clean_up_there x second (newer x s e e' p p') (newer_resolver x s e e' p p')
                    (newer_there x s e e' p p'),
              )
              (Returns-next P third.1 (tail third.0) (
                stopped-Lingers x v i interface address r (stop_browser x v third.0) (
                  stop-Survives x v each third.0 b i r (none_filed x s e e' p p' refl empty)
                    (still_there x s e e' p p') running)))))))
