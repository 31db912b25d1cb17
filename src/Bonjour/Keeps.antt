-- ===== src/Bonjour/Keeps.antt =====
-- bonjour.cpp: what the callback of the browser does to a state in which every Resolver of the map is
-- there.
use qt_zero_conf.Bonjour.{
  Effects, State, Resolver, Reply, resolver_at, ◌>>=◌, zcs_key, service_resolve, object_at,
}
use qt_zero_conf.Bonjour.Callbacks.{
  Browse, resolve, watch_resolver, announced, on_browse_add, on_browse_remove, clean_up_key,
}
use qt_zero_conf.Service.{service_key, ServiceData, Externals, calls, emits, service_removed}
use qt_zero_conf.Service.Store.{key_at-snoc}
use qt_zero_conf.Base.{
  false, true, ◌&&◌, ◌≡◌, none, ◌++◌, get_elem?, get_elem?-snoc, length, List, some, Option, ℕ, [],
  ◌∷◌, arith, inl, inr, Bool-cases, Option-cases, if◌then◌else◌, ◌==◌, ◌+◌, set, refl,
}
use qt_zero_conf.QMap.{insert, remove, lookup, contains}
use qt_zero_conf.QMap.Count.{count, count-append, count-remove}
use qt_zero_conf.QMap.Order.{remove-IsSorted, insert-IsSorted}
use qt_zero_conf.Service.Signals.{present, is_added, is_removed}
use qt_zero_conf.Text.{Text}
use qt_zero_conf.Bonjour.Alive.{
  heap_key, heap_key-set, heap_key-snoc, resolver_key_mono, own_key, mono-IsKeyed, insert-IsKeyed,
  lookup-IsKeyed,
}
use qt_zero_conf.Bonjour.CleanUp.{IsSafe, Good, Returns, Good-then, clean_up-Good}

-- A change of the objects and of the Resolvers that keeps every key, with signals that change
-- nothing.
pub update-IsSafe :
    (x : Externals) (s : State) (objects : List ServiceData) (heap : List (Option Resolver))
    → ((h : ℕ) (k : Text)
        → heap_key x s.objects s.heap h ≡ some k
        → heap_key x objects heap h ≡ some k)
    → IsSafe x s
    → IsSafe x (record s { objects = objects; heap = heap })
update-IsSafe x s objects heap keep v = record {
  keyed = mono-IsKeyed _ _ s.resolvers keep v.keyed;
  services_sorted = v.services_sorted;
  resolvers_sorted = v.resolvers_sorted;
}

-- A write of a Resolver that keeps its service.
pub write-IsSafe :
    (x : Externals) (s : State) (i : ℕ) (r r' : Resolver)
    → resolver_at s i ≡ some r
    → r'.zcs ≡ r.zcs
    → IsSafe x s
    → IsSafe x (record s { heap = set s.heap i (some r') })
write-IsSafe x s i r r' has same v =
    update-IsSafe x s s.objects (set s.heap i (some r'))
      (λ h k e. heap_key-set x s.objects s.heap i (some r') h k (λ own. rw same (rw has at own)) e)
      v

module _ (x : Externals) where
  watch-Good :
      (s : State) (i : ℕ) (r : Resolver) (reply : Reply)
      → resolver_at s i ≡ some r
      → IsSafe x s
      → Returns (Good x s) (watch_resolver x s i r reply)
  unfolding count
  watch-Good s i r reply has v = elim (Bool-cases (reply.ok && reply.has_socket)) [
    | inl e ↦
        rw e (
          write-IsSafe x s i r (record r { resolver_notifier = true }) has refl v,
          λ h. omega arith,
        )
    | inr e ↦ rw e (clean_up-Good x s i (λ gone. cc) v)
  ]

  pub resolve-Good :
      (s : State) (h : ℕ) (d : ServiceData) (reply : Reply)
      → get_elem? s.objects h ≡ some d
      → IsSafe x s
      → Returns (Good x s) (resolve x s h reply)
  unfolding resolve count
  resolve-Good s h d reply there v =
      let r : Resolver = record {
        zcs = h;
        resolver_ref = reply.ref;
        address_ref = none;
        resolver_notifier = false;
        address_notifier = false;
      } in
      let t = record s {
        resolvers = insert (zcs_key x s h) (length s.heap) s.resolvers;
        heap = s.heap ++ some r ∷ [];
      } in
      let safe : IsSafe x t = record {
        keyed =
            insert-IsKeyed (heap_key x s.objects s.heap) _ (zcs_key x s h) (length s.heap)
              s.resolvers (rw (get_elem?-snoc s.heap (some r), there) refl)
              (heap_key-snoc x s.objects s.heap (some r)) v.keyed;
        services_sorted = v.services_sorted;
        resolvers_sorted = insert-IsSorted _ _ _ v.resolvers_sorted;
      } in
      let asked : Effects =
        calls (
          service_resolve (object_at s h).interface_index (x.to_utf8 (object_at s h).name)
            (x.to_utf8 (object_at s h).type) (x.to_utf8 (object_at s h).domain) reply.ref)
        ∷ [] in
      Good-then x s (t, asked) (λ u. watch_resolver x u (length s.heap) r reply)
        (safe, λ k. omega arith)
        (watch-Good t (length s.heap) r reply (rw (get_elem?-snoc s.heap (some r)) refl) safe)

  pub browse_add-Good :
      (s : State) (e : Browse) (reply : Reply)
      → IsSafe x s
      → Returns (Good x s) (on_browse_add x s e reply)
  unfolding on_browse_add count
  browse_add-Good s e reply v =
      elim (Bool-cases (contains (service_key x e.name e.interface) s.services)) [
        | inl known ↦ rw known (v, λ h. omega arith)
        | inr new ↦ rw new (
            resolve-Good (record s { objects = s.objects ++ announced x e ∷ [] }) (length s.objects)
              (announced x e) reply (get_elem?-snoc s.objects (announced x e))
              (update-IsSafe x s (s.objects ++ announced x e ∷ []) s.heap
                (λ h k own.
                  resolver_key_mono x s.objects _ (resolver_at s h) k
                    (λ i. key_at-snoc (own_key x) s.objects (announced x e) i k) own)
                v))
      ]

  -- The signal serviceRemoved for a service that was dropped before.
  removed-Good :
      (s t : State) (zcs : ℕ) (m : Option (State × Effects))
      → ((h : ℕ) → present h t.services + (if zcs == h then 1 else 0) ≡ present h s.services)
      → Returns (Good x t) m
      → Returns (Good x s) (m >>= λ u. some (u, emits (service_removed zcs) ∷ []))
  unfolding count
  removed-Good s t zcs none drop g = absurd g
  removed-Good s t zcs (some (u, effects)) drop g = (
    g.0,
    λ h. ground (
      arith,
      drop h,
      g.1 h,
      count-append (is_added h) effects (emits (service_removed zcs) ∷ []),
      count-append (is_removed h) effects (emits (service_removed zcs) ∷ []),
    ),
  )

  clean_up_key-Good :
      (s : State) (k : Text) (o : Option ℕ)
      → lookup k s.resolvers ≡ o
      → IsSafe x s
      → Returns (Good x s) (clean_up_key x s o)
  unfolding count
  clean_up_key-Good s k none e v = (v, λ h. omega arith)
  clean_up_key-Good s k (some i) e v =
      let own = lookup-IsKeyed (heap_key x s.objects s.heap) k s.resolvers i v.keyed e in
      clean_up-Good x s i (λ gone. let there = rw gone at own in cc) v

  -- A service that goes is dropped, with its Resolver.
  pub browse_remove-Good :
      (s : State) (e : Browse) → IsSafe x s → Returns (Good x s) (on_browse_remove x s e)
  unfolding on_browse_remove count
  browse_remove-Good s e v =
      let key = service_key x e.name e.interface in
      let dropped = record s { services = remove key s.services } in
      elim (Option-cases (lookup key s.services)) [
        | inl absent ↦ rw (absent, on_browse_remove) (v, λ h. omega arith)
        | inr (zcs, filed) ↦
            rw (filed, on_browse_remove)
              (removed-Good s dropped zcs (clean_up_key x dropped (lookup key s.resolvers))
                (λ h.
                  rw filed at (count-remove (λ (i : ℕ). i == h) key s.services v.services_sorted))
                (clean_up_key-Good dropped key (lookup key s.resolvers) refl (record {
                  keyed = v.keyed;
                  services_sorted = remove-IsSorted _ _ v.services_sorted;
                  resolvers_sorted = v.resolvers_sorted;
                })))
      ]
