-- ===== src/AndroidNsd/Slots.antt =====
-- androidnsd.cpp: the services that the slots file, and the signals that they emit.
use qt_zero_conf.QMap.Count.{count-insert, count-remove, count}
use qt_zero_conf.Service.{blank, ServiceData}
use qt_zero_conf.AndroidNsd.{
  fill, name_changed, publisher_state_changed, browser_state_changed, service_lost,
  service_resolved, Slot, on_service_name_changed, on_service_resolved, on_service_removed,
  Resolved, on_publisher_state_changed, on_browser_state_changed, Effects, Platform, State, invoke,
  invoke_all,
}
use qt_zero_conf.QMap.Order.{remove-IsSorted, insert-IsSorted, IsSorted}
use qt_zero_conf.Text.{Text}
use qt_zero_conf.Service.Signals.{Reported-append, Reported}
use qt_zero_conf.Base.{
  refl, ◌∙◌, length, ◌==◌, ℕ, get_elem?-snoc, [], inr, inl, ◌∷◌, arith, Option-cases, List,
}
use qt_zero_conf.Service.Store.{
  key_at-lookup, key_at-set, key_at-snoc, IsFiled-mono, remove-IsFiled, insert-IsFiled, IsFiled,
}
use qt_zero_conf.QMap.{values, lookup}

abbrev pub name_of : ServiceData → Text
name_of d = d.name

-- Every name is filed once, and every service under its own name.
pub record IsValid (s : State) : Type 0 where
  pub sorted : IsSorted s.services
  pub filed : IsFiled name_of s.objects s.services

-- A slot keeps the services valid, and signals what becomes of them.
abbrev pub Keeps : State → State × Effects → Type 0
Keeps s q = IsValid q.0 × Reported s.services q.1 q.0.services

resolved-Keeps :
    (p : Platform) (s : State) (e : Resolved) → IsValid s → Keeps s (on_service_resolved p s e)
unfolding count on_service_resolved values
resolved-Keeps p s e v = elim (Option-cases (lookup e.name s.services)) [
  | inl absent ↦
      rw (absent, on_service_resolved)
        (
          record {
            sorted = insert-IsSorted _ _ _ v.sorted;
            filed =
                insert-IsFiled name_of _ e.name _ _
                  (rw (get_elem?-snoc s.objects (fill p blank e)) (unfold fill in refl))
                  (IsFiled-mono name_of s.objects _ _
                    (key_at-snoc name_of s.objects (fill p blank e)) v.filed);
          },
          λ h. ground (
            arith,
            absent,
            count-insert (λ (i : ℕ). i == h) e.name (length s.objects) s.services v.sorted,
          ),
        )
  | inr (zcs, known) ↦
      rw (known, on_service_resolved)
        (
          record {
            sorted = v.sorted;
            filed =
                IsFiled-mono name_of s.objects _ _
                  (λ h k. key_at-set name_of s.objects zcs _ h k (
                    key_at-lookup name_of s.objects e.name s.services zcs v.filed known
                    ∙ (unfold fill in refl)))
                  v.filed;
          },
          λ h. omega arith,
        )
]

removed-Keeps : (s : State) (name : Text) → IsValid s → Keeps s (on_service_removed s name)
unfolding count on_service_removed values
removed-Keeps s name v = elim (Option-cases (lookup name s.services)) [
  | inl absent ↦ rw (absent, on_service_removed) (v, λ h. omega arith)
  | inr (zcs, known) ↦
      rw (known, on_service_removed)
        (
          record {
            sorted = remove-IsSorted _ _ v.sorted;
            filed = remove-IsFiled name_of _ _ _ v.filed;
          },
          λ h. ground (arith, known, count-remove (λ (i : ℕ). i == h) name s.services v.sorted),
        )
]

pub invoke-Keeps : (p : Platform) (s : State) (e : Slot) → IsValid s → Keeps s (invoke p s e)
unfolding invoke on_browser_state_changed on_publisher_state_changed on_service_name_changed count
invoke-Keeps p s (service_resolved e) v = resolved-Keeps p s e v
invoke-Keeps p s (service_lost name) v = removed-Keeps s name v
invoke-Keeps p s (browser_state_changed running failed) v =
    (record { sorted = v.sorted; filed = v.filed }, λ h. ground arith)
invoke-Keeps p s (publisher_state_changed running failed) v =
    (record { sorted = v.sorted; filed = v.filed }, λ h. ground arith)
invoke-Keeps p s (name_changed name) v = (v, λ h. omega arith)

-- After any slots from a valid state every name is filed once, every service under its own name,
-- and the application that follows serviceAdded and serviceRemoved knows just the services filed:
-- for every service, its presence before and the serviceAdded signals for it are as many as its
-- presence after and the serviceRemoved signals for it.
pub invoke_all-Keeps :
    (p : Platform) (s : State) (es : List Slot) → IsValid s → Keeps s (invoke_all p s es)
unfolding invoke_all count
invoke_all-Keeps p s [] v = (v, λ h. omega arith)
invoke_all-Keeps p s (e ∷ es) v =
    let now = invoke-Keeps p s e v in
    let later = invoke_all-Keeps p (invoke p s e).0 es now.0 in
    (
      later.0,
      Reported-append s.services (invoke p s e).0.services _ (invoke p s e).1 _ now.1 later.1,
    )
