-- ===== src/Bonjour/Leaks.antt =====
-- bonjour.cpp: what the callbacks do with the DNSServiceRefs.
use qt_zero_conf.Base.{
  ℕ, ◌≡◌, refl, true, false, ◌&&◌, [], ◌∷◌, ◌++◌, Option, none, some, arith, get_elem?-snoc, length,
  set, suc, if◌then◌else◌, inl, inr, Bool-cases, Option-cases,
}
use qt_zero_conf.QMap.{QMap, insert, remove, lookup, contains}
use qt_zero_conf.QMap.Count.{count}
use qt_zero_conf.Service.{Externals, calls, emits, service_removed, service_key}
use qt_zero_conf.Avahi.Resources.{held}
use qt_zero_conf.Text.{Text}
use qt_zero_conf.Bonjour.{
  State, Reply, Resolver, Effects, resolver_at, object_at, zcs_key, resolver_clean_up,
  service_resolve, get_addr_info,
}
use qt_zero_conf.Bonjour.Callbacks.{
  Browse, Resolve, AddressReply, announced, resolve, watch_resolver, on_browse_add,
  on_browse_remove, clean_up_key, on_resolved, resolver_callback, on_address, address_reply,
  entries_of, from_big_endian,
}
use qt_zero_conf.Bonjour.Wire.{read_wire}
use qt_zero_conf.Bonjour.References.{
  made, freed, held_by, Conserves, Ensures, Conserves-then, Conserves-bind, held_on-set,
  held_on-snoc,
}
use qt_zero_conf.Bonjour.Conserves.{clean_up-Conserves}
use qt_zero_conf.Bonjour.Answers.{drop_address, resolver_at-set}

module _ (x : Externals) where
  -- A write of a Resolver that keeps its references.
  write-Conserves :
      (s : State) (i : ℕ) (r r' : Resolver)
      → resolver_at s i ≡ some r
      → ((p : ℕ) → held_by p (some r') ≡ held_by p (some r))
      → Conserves s (record s { heap = set s.heap i (some r') }, [])
  unfolding count
  write-Conserves s i r r' has same p =
      omega (arith, same p, held_on-set p s.heap i r (some r') has)

  watch-Conserves :
      (s : State) (i : ℕ) (r : Resolver) (reply : Reply)
      → resolver_at s i ≡ some r
      → Ensures (Conserves s) (watch_resolver x s i r reply)
  watch-Conserves s i r reply has = elim (Bool-cases (reply.ok && reply.has_socket)) [
    | inl well ↦
        rw well (write-Conserves s i r (record r { resolver_notifier = true }) has (λ p. refl))
    | inr failed ↦ rw failed (clean_up-Conserves x s i)
  ]

  resolve-Conserves :
      (s : State) (h : ℕ) (reply : Reply) → Ensures (Conserves s) (resolve x s h reply)
  unfolding resolve count
  resolve-Conserves s h reply =
      let r : Resolver = record {
        zcs = h;
        resolver_ref = reply.ref;
        address_ref = none;
        resolver_notifier = false;
        address_notifier = false;
      } in
      let t = record s {
        resolvers = insert (zcs_key x s h) (length s.heap) s.resolvers;
        heap = s.heap ++ some r ∷ [];
      } in
      let asked : Effects =
        calls (
          service_resolve (object_at s h).interface_index (x.to_utf8 (object_at s h).name)
            (x.to_utf8 (object_at s h).type) (x.to_utf8 (object_at s h).domain) reply.ref)
        ∷ [] in
      Conserves-then s (t, asked) (λ u. watch_resolver x u (length s.heap) r reply)
        (λ p. omega (arith, held_on-snoc p s.heap (some r)))
        (watch-Conserves t (length s.heap) r reply (rw (get_elem?-snoc s.heap (some r)) refl))

  asked-counts :
      (p interface : ℕ) (host : Text) (a ref : Option ℕ)
      → let asked : Effects = drop_address a ++ calls (get_addr_info interface host ref) ∷ [] in
        (made p asked ≡ held p ref) × (freed p asked ≡ held p a)
  unfolding count
  asked-counts p interface host none ref = omega arith
  asked-counts p interface host (some a) ref = omega arith

  on_resolved-Conserves :
      (s : State) (i : ℕ) (r : Resolver) (e : Resolve) (m : QMap Text) (reply : Reply)
      → resolver_at s i ≡ some r
      → Ensures (Conserves s) (on_resolved x s i r e m reply)
  unfolding on_resolved count
  on_resolved-Conserves s i r e m reply has =
      let d = object_at s r.zcs in
      let filled = record s {
        objects =
            set s.objects r.zcs
              (record d { txt = m; host = e.host_name; port = from_big_endian e.port });
      } in
      let asking = record r { address_ref = reply.ref } in
      let t = record filled { heap = set s.heap i (some asking) } in
      let asked : Effects =
        drop_address r.address_ref
        ++ calls (get_addr_info e.interface e.host_name reply.ref) ∷ [] in
      Conserves-then s (t, asked)
        (λ u.
          if reply.ok && reply.has_socket
          then some (
            record u { heap = set u.heap i (some (record asking { address_notifier = true })) },
            [],
          )
          else resolver_clean_up x u i)
        (λ p. omega (
          arith,
          held_on-set p s.heap i r (some asking) has,
          asked-counts p e.interface e.host_name r.address_ref reply.ref,
        ))
        (elim (Bool-cases (reply.ok && reply.has_socket)) [
          | inl well ↦ rw well (
              write-Conserves t i asking (record asking { address_notifier = true })
                (resolver_at-set s.heap i r asking has) (λ p. refl))
          | inr failed ↦ rw failed (clean_up-Conserves x t i)
        ])

  pub browse_add-Conserves :
      (s : State) (e : Browse) (reply : Reply) → Ensures (Conserves s) (on_browse_add x s e reply)
  unfolding on_browse_add count
  browse_add-Conserves s e reply =
      elim (Bool-cases (contains (service_key x e.name e.interface) s.services)) [
        | inl known ↦ rw known (λ p. omega arith)
        | inr new ↦ rw new (
            resolve-Conserves (record s { objects = s.objects ++ announced x e ∷ [] })
              (length s.objects) reply)
      ]

  clean_up_key-Conserves : (s : State) (o : Option ℕ) → Ensures (Conserves s) (clean_up_key x s o)
  unfolding count
  clean_up_key-Conserves s none = λ p. omega arith
  clean_up_key-Conserves s (some i) = clean_up-Conserves x s i

  pub browse_remove-Conserves :
      (s : State) (e : Browse) → Ensures (Conserves s) (on_browse_remove x s e)
  unfolding on_browse_remove count
  browse_remove-Conserves s e =
      let key = service_key x e.name e.interface in
      let dropped = record s { services = remove key s.services } in
      elim (Option-cases (lookup key s.services)) [
        | inl absent ↦ rw (absent, on_browse_remove) (λ p. omega arith)
        | inr (zcs, filed) ↦
            rw (filed, on_browse_remove)
              (Conserves-bind s (clean_up_key x dropped (lookup key s.resolvers))
                (λ t. some (t, emits (service_removed zcs) ∷ []))
                (clean_up_key-Conserves dropped (lookup key s.resolvers)) (λ t p. omega arith))
      ]

  on_address-Conserves :
      (s : State) (r : Resolver) (e : AddressReply) → Conserves s (on_address x s r e)
  unfolding on_address count contains
  on_address-Conserves s r e =
      elim (Bool-cases (contains (service_key x (object_at s r.zcs).name e.interface) s.services)) [
        | inl known ↦ rw (known, on_address) (λ p. omega arith)
        | inr new ↦ rw (new, on_address) (λ p. omega arith)
      ]

  pub address_reply-Conserves :
      (s : State) (i : ℕ) (e : AddressReply) → Ensures (Conserves s) (address_reply x s i e)
  unfolding address_reply count
  address_reply-Conserves s i e = elim (Option-cases (resolver_at s i)) [
    | inl gone ↦ rw (gone, address_reply) tt
    | inr (r, has) ↦
        rw (has, address_reply)
          (elim (Bool-cases e.ok) [
            | inl ok ↦ elim (Bool-cases e.add) [
              | inl adds ↦ simp (ok, adds) (on_address-Conserves s r e)
              | inr other ↦ rw (ok, other) (λ p. omega arith)
            ]
            | inr failed ↦ rw failed (clean_up-Conserves x s i)
          ])
  ]

  pub resolver_callback-Conserves :
      (s : State) (i : ℕ) (e : Resolve) (reply : Reply)
      → Ensures (Conserves s) (resolver_callback x s i e reply)
  unfolding resolver_callback
  resolver_callback-Conserves s i e reply = elim (Option-cases (resolver_at s i)) [
    | inl gone ↦ rw (gone, resolver_callback) tt
    | inr (r, has) ↦ elim (Bool-cases e.ok) [
      | inr failed ↦ rw (has, failed, resolver_callback) (clean_up-Conserves x s i)
      | inl ok ↦
          rw (has, ok, resolver_callback)
            (read r has (
              entries_of (
                read_wire (suc (length e.txt_record)) (object_at s r.zcs).txt e.txt_len
                  e.txt_record)))
    ]
  ]
    where
      read :
          (r : Resolver)
          → resolver_at s i ≡ some r
          → (o : Option (QMap Text))
          → Ensures (Conserves s) (elim o [ none ↦ none | some m ↦ on_resolved x s i r e m reply ])
      read r has none = tt
      read r has (some m) = on_resolved-Conserves s i r e m reply has
