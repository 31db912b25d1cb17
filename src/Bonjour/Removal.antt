-- ===== src/Bonjour/Removal.antt =====
-- bonjour.cpp: a service that goes while it is being resolved.
use qt_zero_conf.Bonjour.Callbacks.{
  browse_callback, AddressReply, Browse, on_address, on_browse_remove, address_reply,
}
use qt_zero_conf.Bonjour.Api.{addresses, browses, step}
use qt_zero_conf.Service.{service_added, emits, set_ip, service_key, Externals}
use qt_zero_conf.Bonjour.{Reply, resolver_at, object_at, Resolver, Visits, State}
use qt_zero_conf.Base.{ap, ◌∙◌, ◌∷◌, false, refl, true, [], some, none, ◌≡◌, ℕ}
use qt_zero_conf.QMap.{insert, contains, lookup}
use qt_zero_conf.Text.{Text}
use qt_zero_conf.QMap.Lookup.{lookup-insert}
use qt_zero_conf.Text.Order.{text_eq_refl}

module _ (x : Externals) (s : State) where
  remove_absent :
      (e : Browse)
      → lookup (service_key x e.name e.interface) s.services ≡ none
      → on_browse_remove x s e ≡ some (s, [])
  unfolding on_browse_remove
  remove_absent e absent = rw (absent, on_browse_remove) refl

  -- The state in which the Resolver's service is filed with an address.
  abbrev pub files : Resolver → Text → Text → State
  files r key address = record s {
    objects = set_ip s.objects r.zcs (x.host_address address);
    services = insert key r.zcs s.services;
  }

  pub files_absent :
      (r : Resolver) (e : AddressReply)
      → let key = service_key x (object_at s r.zcs).name e.interface in
        lookup key s.services ≡ none
        → on_address x s r e ≡ (files r key e.address, emits (service_added r.zcs) ∷ [])
  unfolding on_address contains
  files_absent r e absent = rw (absent, on_address, contains) refl

  pub address_found :
      (i interface : ℕ) (address : Text) (r : Resolver)
      → resolver_at s i ≡ some r
      → let e : AddressReply = record {
        ok = true;
        add = true;
        interface = interface;
        address = address;
      } in
        address_reply x s i e ≡ some (on_address x s r e)
  unfolding address_reply
  address_found i interface address r has = rw (has, address_reply) refl

-- The library reports that a service goes which is not filed yet, and whose Resolver `i` is there:
-- nothing is done, and in particular the Resolver stays. An address that it then gets files the
-- service that is gone, and signals serviceAdded.
pub removed_before_resolved :
    (x : Externals) (v : Visits) (s : State) (interface i : ℕ) (type domain address : Text)
    (r : Resolver) (reply : Reply)
    → lookup (service_key x (object_at s r.zcs).name interface) s.services ≡ none
    → resolver_at s i ≡ some r
    → let name = (object_at s r.zcs).name in
      let key = service_key x name interface in
      let lost : Browse = record {
        ok = true;
        add = false;
        interface = interface;
        name = name;
        type = type;
        domain = domain;
      } in
      let found : AddressReply = record {
        ok = true;
        add = true;
        interface = interface;
        address = address;
      } in
      let filed = files x s r key address in
      (step x v s (browses lost reply) ≡ some (s, []))
      × (step x v s (addresses i found) ≡ some (filed, emits (service_added r.zcs) ∷ []))
      × (lookup key filed.services ≡ some r.zcs)
unfolding step browse_callback
removed_before_resolved x v s interface i type domain address r reply absent has =
    let key = service_key x (object_at s r.zcs).name interface in
    (
      remove_absent x s _ absent,
      address_found x s i interface address r has ∙ ap some (files_absent x s r _ absent),
      lookup-insert key key r.zcs s.services ∙ rw (text_eq_refl key) refl,
    )
