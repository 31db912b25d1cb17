-- ===== src/Service/Signals.antt =====
-- The signals about one service in what operations do, counted.
use qt_zero_conf.Base.{ℕ, ◌+◌, ◌≡◌, refl, Bool, false, List, [], ◌∷◌, ◌++◌, arith, ◌==◌}
use qt_zero_conf.QMap.{QMap, values}
use qt_zero_conf.QMap.Count.{count, count-append}
use qt_zero_conf.Service.{Effect, emits, service_added, service_removed}

module _ {C : Type 0} where
  abbrev pub is_added : ℕ → Effect C → Bool
  is_added h (emits (service_added i)) = i == h
  is_added h _ = false

  abbrev pub is_removed : ℕ → Effect C → Bool
  is_removed h (emits (service_removed i)) = i == h
  is_removed h _ = false

  abbrev pub added : ℕ → List (Effect C) → ℕ
  added h = count (is_added h)

  abbrev pub removed : ℕ → List (Effect C) → ℕ
  removed h = count (is_removed h)

  -- The loop `for (i : services) emit serviceRemoved(i.value())`.
  unfoldable pub emit_removed : List ℕ → List (Effect C)
  emit_removed [] = []
  emit_removed (h ∷ hs) = emits (service_removed h) ∷ emit_removed hs

module _ (C : Type 0) where
  pub removed-emit_removed :
      (h : ℕ) (hs : List ℕ) → removed {C = C} h (emit_removed hs) ≡ count (λ i. i == h) hs
  unfolding emit_removed count
  removed-emit_removed h [] = refl
  removed-emit_removed h (i ∷ hs) = ground (arith, removed-emit_removed h hs)

  pub added-emit_removed : (h : ℕ) (hs : List ℕ) → added {C = C} h (emit_removed hs) ≡ 0
  unfolding emit_removed count
  added-emit_removed h [] = refl
  added-emit_removed h (i ∷ hs) = ground (arith, added-emit_removed h hs)

-- How often a handle is filed.
abbrev pub present : ℕ → QMap ℕ → ℕ
present h m = count (λ i. i == h) (values m)

-- The signals of `effects` account for what has changed from `old` to `new`: the application that
-- adds a service on serviceAdded and drops it on serviceRemoved knows just the services filed.
abbrev pub Reported : {C : Type 0} → QMap ℕ → List (Effect C) → QMap ℕ → Type 0
Reported old effects new =
    (h : ℕ) → present h old + added h effects ≡ present h new + removed h effects

pub Reported-append :
    {C : Type 0} (a b c : QMap ℕ) (xs ys : List (Effect C))
    → Reported a xs b
    → Reported b ys c
    → Reported a (xs ++ ys) c
Reported-append a b c xs ys p q h =
    omega (arith, p h, q h, count-append (is_added h) xs ys, count-append (is_removed h) xs ys)
