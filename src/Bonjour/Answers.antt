-- ===== src/Bonjour/Answers.antt =====
-- bonjour.cpp: what the callbacks of a Resolver do to a state in which every Resolver of the map is
-- there.
use qt_zero_conf.Bonjour.{
  Effects, State, Resolver, Reply, resolver_at, join, get_addr_info, ref_deallocate,
  resolver_clean_up, object_at,
}
use qt_zero_conf.Bonjour.Callbacks.{Resolve, AddressReply, on_resolved, on_address, from_big_endian}
use qt_zero_conf.Service.{set_ip, service_key, ServiceData, Externals, object_or_blank, calls}
use qt_zero_conf.Service.Store.{key?}
use qt_zero_conf.Base.{
  true, ◌&&◌, ◌≡◌, none, ◌++◌, get_elem?, List, some, Option, ℕ, [], ◌∷◌, arith, inl, inr,
  Bool-cases, Option-cases, if◌then◌else◌, ◌==◌, set, zero, suc, refl,
}
use qt_zero_conf.QMap.{QMap, lookup, contains}
use qt_zero_conf.QMap.Count.{count, count-insert}
use qt_zero_conf.QMap.Order.{insert-IsSorted}
use qt_zero_conf.Service.Signals.{added, removed}
use qt_zero_conf.Text.{Text}
use qt_zero_conf.Bonjour.Alive.{resolver_key_mono, own_key}
use qt_zero_conf.Bonjour.CleanUp.{IsSafe, Good, Returns, Good-then, clean_up-Good}
use qt_zero_conf.Bonjour.Keeps.{update-IsSafe, write-IsSafe}

pub resolver_at-set :
    (heap : List (Option Resolver)) (i : ℕ) (r r' : Resolver)
    → join (get_elem? heap i) ≡ some r
    → join (get_elem? (set heap i (some r')) i) ≡ some r'
resolver_at-set [] i r r' e = cc
resolver_at-set (p ∷ heap) zero r r' e = refl
resolver_at-set (p ∷ heap) (suc i) r r' e = resolver_at-set heap i r r' e

-- The object of a service gets members that are no part of its key.
object-keeps :
    (x : Externals) (objects : List ServiceData) (i : ℕ) (d : ServiceData) (h : ℕ) (k : Text)
    → own_key x d ≡ own_key x (object_or_blank (get_elem? objects i))
    → key? (own_key x) (get_elem? objects h) ≡ some k
    → key? (own_key x) (get_elem? (set objects i d) h) ≡ some k
object-keeps x [] i d h k same e = e
object-keeps x (o ∷ objects) zero d zero k same e = cc
object-keeps x (o ∷ objects) zero d (suc h) k same e = e
object-keeps x (o ∷ objects) (suc i) d zero k same e = e
object-keeps x (o ∷ objects) (suc i) d (suc h) k same e = object-keeps x objects i d h k same e

set_ip-keeps :
    (x : Externals) (objects : List ServiceData) (i : ℕ) (ip : Text) (h : ℕ) (k : Text)
    → key? (own_key x) (get_elem? objects h) ≡ some k
    → key? (own_key x) (get_elem? (set_ip objects i ip) h) ≡ some k
unfolding set_ip
set_ip-keeps x objects i ip h k e = elim (Option-cases (get_elem? objects i)) [
  | inl absent ↦ rw (absent, set_ip) e
  | inr (d, there) ↦
      rw (there, set_ip) (object-keeps x objects i (record d { ip = ip }) h k (rw there refl) e)
]

-- The reference for the address that a Resolver had before.
abbrev pub drop_address : Option ℕ → Effects
drop_address a = elim a [ none ↦ [] | some p ↦ calls (ref_deallocate (some p)) ∷ [] ]

module _ (x : Externals) where
  asked-quiet :
      (h interface : ℕ) (host : Text) (a ref : Option ℕ)
      → let asked : Effects = drop_address a ++ calls (get_addr_info interface host ref) ∷ [] in
        (added h asked ≡ 0) × (removed h asked ≡ 0)
  unfolding count
  asked-quiet h interface host none ref = (refl, refl)
  asked-quiet h interface host (some p) ref = (refl, refl)

  pub on_resolved-Good :
      (s : State) (i : ℕ) (r : Resolver) (e : Resolve) (m : QMap Text) (reply : Reply)
      → resolver_at s i ≡ some r
      → IsSafe x s
      → Returns (Good x s) (on_resolved x s i r e m reply)
  unfolding on_resolved count
  on_resolved-Good s i r e m reply has v =
      let d = object_at s r.zcs in
      let d' = record d { txt = m; host = e.host_name; port = from_big_endian e.port } in
      let asking = record r { address_ref = reply.ref } in
      let filled = record s { objects = set s.objects r.zcs d' } in
      let known : IsSafe x filled =
        update-IsSafe x s (set s.objects r.zcs d') s.heap
          (λ h k own.
            resolver_key_mono x s.objects _ (resolver_at s h) k
              (λ j. object-keeps x s.objects r.zcs d' j k refl) own)
          v in
      let t = record filled { heap = set s.heap i (some asking) } in
      let safe : IsSafe x t = write-IsSafe x filled i r asking has refl known in
      let there : resolver_at t i ≡ some asking = resolver_at-set s.heap i r asking has in
      let asked : Effects =
        drop_address r.address_ref
        ++ calls (get_addr_info e.interface e.host_name reply.ref) ∷ [] in
      Good-then x s (t, asked)
        (λ u.
          if reply.ok && reply.has_socket
          then some (
            record u { heap = set u.heap i (some (record asking { address_notifier = true })) },
            [],
          )
          else resolver_clean_up x u i)
        (safe, λ h. omega (arith, asked-quiet h e.interface e.host_name r.address_ref reply.ref))
        (elim (Bool-cases (reply.ok && reply.has_socket)) [
          | inl ok ↦ rw ok (
            write-IsSafe x t i asking (record asking { address_notifier = true }) there refl safe,
            λ h. omega arith,
          )
          | inr failed ↦ rw failed (clean_up-Good x t i (λ gone. cc) safe)
        ])

  pub on_address-Good :
      (s : State) (r : Resolver) (e : AddressReply) → IsSafe x s → Good x s (on_address x s r e)
  unfolding on_address count contains
  on_address-Good s r e v =
      let key = service_key x (object_at s r.zcs).name e.interface in
      let objects = set_ip s.objects r.zcs (x.host_address e.address) in
      let known : IsSafe x (record s { objects = objects }) =
        update-IsSafe x s objects s.heap
          (λ h k own.
            resolver_key_mono x s.objects _ (resolver_at s h) k
              (λ j. set_ip-keeps x s.objects r.zcs (x.host_address e.address) j k) own)
          v in
      elim (Option-cases (lookup key s.services)) [
        | inl absent ↦
            rw (absent, on_address, contains)
              (
                record {
                  keyed = known.keyed;
                  services_sorted = insert-IsSorted _ _ _ v.services_sorted;
                  resolvers_sorted = v.resolvers_sorted;
                },
                λ h. ground (
                  arith,
                  rw absent at
                      (count-insert (λ (i : ℕ). i == h) key r.zcs s.services v.services_sorted),
                ),
              )
        | inr (zcs, filed) ↦ rw (filed, on_address, contains) (known, λ h. omega arith)
      ]
