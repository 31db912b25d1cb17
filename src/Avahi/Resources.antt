-- ===== src/Avahi/Resources.antt =====
-- The objects that the wrappers make in the Avahi library and free again, counted in what an
-- operation does.
use qt_zero_conf.Base.{
  ℕ, ◌+◌, ◌≡◌, refl, Bool, false, List, [], ◌∷◌, ◌++◌, Option, none, some, arith, ◌==◌,
}
use qt_zero_conf.QMap.{QMap, values}
use qt_zero_conf.QMap.Count.{count, count-append, weight}
use qt_zero_conf.Service.{Effect, calls}
use qt_zero_conf.Service.Signals.{emit_removed}
use qt_zero_conf.Avahi.{
  Call, Effects, group_new, group_free, service_browser_new, service_browser_free,
  service_resolver_new, service_resolver_free,
}

pub data Kind : Type 0 where
  entry_group browser resolver : Kind

-- The object that an effect makes, and the one that it frees.
abbrev pub makes : Kind → Effect Call → Option ℕ
makes entry_group (calls (group_new p)) = p
makes browser (calls (service_browser_new c protocol type p)) = p
makes resolver (calls (service_resolver_new c i q name type domain a p)) = p
makes k _ = none

abbrev pub frees : Kind → Effect Call → Option ℕ
frees entry_group (calls (group_free p)) = p
frees browser (calls (service_browser_free p)) = some p
frees resolver (calls (service_resolver_free p)) = p
frees k _ = none

abbrev pub points_to : ℕ → Option ℕ → Bool
points_to p none = false
points_to p (some q) = q == p

abbrev pub made : Kind → ℕ → Effects → ℕ
made k p = count (λ e. points_to p (makes k e))

abbrev pub freed : Kind → ℕ → Effects → ℕ
freed k p = count (λ e. points_to p (frees k e))

-- How often a pointer is kept: 1 or 0 for a member, and the number of entries for a map.
abbrev pub held : ℕ → Option ℕ → ℕ
held p r = weight (points_to p) r

abbrev pub held_in : ℕ → QMap (Option ℕ) → ℕ
held_in p m = count (points_to p) (values m)

-- What is kept afterwards and what was freed are what was kept before and what was made.
abbrev pub Balanced : Kind → (ℕ → ℕ) → Effects → (ℕ → ℕ) → Type 0
Balanced k before effects after =
    (p : ℕ) → before p + made k p effects ≡ after p + freed k p effects

pub Balanced-append :
    (k : Kind) (a b c : ℕ → ℕ) (xs ys : Effects)
    → Balanced k a xs b
    → Balanced k b ys c
    → Balanced k a (xs ++ ys) c
Balanced-append k a b c xs ys h l p = omega (
  arith,
  h p,
  l p,
  count-append (λ (e : Effect Call). points_to p (makes k e)) xs ys,
  count-append (λ (e : Effect Call). points_to p (frees k e)) xs ys,
)

-- The loop of signals makes and frees nothing.
pub made-emit_removed : (k : Kind) (p : ℕ) (hs : List ℕ) → made k p (emit_removed hs) ≡ 0
unfolding emit_removed count
made-emit_removed k p [] = refl
made-emit_removed entry_group p (h ∷ hs) = omega (arith, made-emit_removed entry_group p hs)
made-emit_removed browser p (h ∷ hs) = omega (arith, made-emit_removed browser p hs)
made-emit_removed resolver p (h ∷ hs) = omega (arith, made-emit_removed resolver p hs)

pub freed-emit_removed : (k : Kind) (p : ℕ) (hs : List ℕ) → freed k p (emit_removed hs) ≡ 0
unfolding emit_removed count
freed-emit_removed k p [] = refl
freed-emit_removed entry_group p (h ∷ hs) = omega (arith, freed-emit_removed entry_group p hs)
freed-emit_removed browser p (h ∷ hs) = omega (arith, freed-emit_removed browser p hs)
freed-emit_removed resolver p (h ∷ hs) = omega (arith, freed-emit_removed resolver p hs)
