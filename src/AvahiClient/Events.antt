-- ===== src/AvahiClient/Events.antt =====
-- avahiclient.cpp: what a callback of the library leaves filed.
use qt_zero_conf.AvahiClient.{resolved, resolve_callback, State, on_browser_event, browse_callback}
use qt_zero_conf.Service.{ServiceData, service_key, Externals}
use qt_zero_conf.Avahi.{browser_remove, Browse, Resolve}
use qt_zero_conf.AvahiClient.Invariant.{key_of, IsValid}
use qt_zero_conf.Base.{
  inl, inr, ◌⊎◌, refl, get_elem?-snoc, length, [], ◌∷◌, ◌++◌, arith, none, if◌then◌else◌, get_elem?,
  some, true, ◌≡◌, ℕ, Option,
}
use qt_zero_conf.Text.{text_eq, Text}
use qt_zero_conf.QMap.{lookup}
use qt_zero_conf.AvahiClient.Cases.{browser_remove_cases, resolve_cases}
use qt_zero_conf.Service.Store.{get_elem?-set_ip, key_at-lookup, key_at-object}
use qt_zero_conf.Text.Order.{text_eq_refl, eq_of_text_eq}
use qt_zero_conf.QMap.Lookup.{lookup-insert, lookup-remove}

-- The library removes a service: the wrapper then files neither the service nor its resolver, and
-- every other key has what it had.
pub browse_remove_forgets :
    (x : Externals) (s : State) (e : Browse) (r : Option ℕ) (k : Text)
    → IsValid x s
    → let t = (browse_callback x s (record e { event = browser_remove }) r).0 in
      let gone = text_eq k (service_key x e.name e.interface) in
      (lookup k t.services ≡ (if gone then none else lookup k s.services))
      × (lookup k t.resolvers ≡ (if gone then none else lookup k s.resolvers))
unfolding browse_callback on_browser_event
browse_remove_forgets x s e r k v =
    let key = service_key x e.name e.interface in
    browser_remove_cases x
      (λ q.
        (lookup k q.0.services ≡ (if text_eq k key then none else lookup k s.services))
        × (lookup k q.0.resolvers ≡ (if text_eq k key then none else lookup k s.resolvers)))
      s (record e { event = browser_remove })
      (λ absent. ground (arith, v.covered key, eq_of_text_eq k key))
      (λ r has absent. ground (arith, eq_of_text_eq k key, lookup-remove k key s.resolvers))
      (λ r zcs has present.
        ground (arith, lookup-remove k key s.resolvers, lookup-remove k key s.services))

-- Under the key of a resolved service stands an object with that key and the address of the
-- event.
abbrev pub IsFound : Externals → Resolve → State → State → Type 0
IsFound x e s t =
    let key = service_key x e.name e.interface in
    (h : ℕ) × (d : ServiceData) × (lookup key t.services ≡ some h)
    × (get_elem? t.objects h ≡ some d)
    × (d.ip ≡ x.host_address e.address)
    × (key_of x d ≡ key)
    × ((lookup key s.services ≡ none) ⊎ (lookup key s.services ≡ some h))

-- A service is resolved: the wrapper files under its key an object with that key and the address
-- of the event, and it is the object that was there before if there was one.
pub resolve_found_files :
    (x : Externals) (s : State) (e : Resolve)
    → IsValid x s
    → e.found ≡ true
    → IsFound x e s (resolve_callback x s e).0
resolve_found_files x s e v f =
    let key = service_key x e.name e.interface in
    let ip = x.host_address e.address in
    resolve_cases x (λ q. IsFound x e s q.0) s e
      (λ _ zcs has.
        let (d, here, filed) =
          key_at-object (key_of x) s.objects zcs key
            (key_at-lookup (key_of x) s.objects key s.services zcs v.filed has) in
        (
          zcs,
          record d { ip = ip },
          has,
          get_elem?-set_ip s.objects zcs d ip here,
          refl,
          filed,
          inr has,
        ))
      (λ _ absent.
        let made = s.objects ++ resolved x e ∷ [] in
        (
          length s.objects,
          record (resolved x e) { ip = ip },
          rw (lookup-insert key key (length s.objects) s.services, text_eq_refl key),
          get_elem?-set_ip made (length s.objects) (resolved x e) ip
              (get_elem?-snoc s.objects (resolved x e)),
          refl,
          refl,
          inl absent,
        ))
      (λ g _. cc) (λ g _ _. cc)
