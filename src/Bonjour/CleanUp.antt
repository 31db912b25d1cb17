-- ===== src/Bonjour/CleanUp.antt =====
-- bonjour.cpp: Resolver::cleanUp and QZeroConfPrivate::cleanUp from a state in which every Resolver of
-- the map is there.
use mathlib.Core.Option
use qt_zero_conf.Bonjour.{
  Effects, State, Resolver, resolver_at, ◌>>=◌, Call, Visits, ref_deallocate, delete_resolver,
  zcs_key, resolver_clean_up, clean_up_all, clean_up_browser, clean_up,
}
use qt_zero_conf.Service.{ServiceData, Externals, calls}
use qt_zero_conf.Base.{
  true, false, ◌≡◌, none, ◌++◌, get_elem?, List, some, Option, ℕ, [], ◌∷◌, arith, inl, inr,
  Bool-cases, ◌==◌, set, ◌≢◌, refl, Option-cases, ◌∙◌,
}
use qt_zero_conf.QMap.{QMap, values}
use qt_zero_conf.QMap.Count.{count, count-append}
use qt_zero_conf.QMap.Order.{IsSorted, remove-IsSorted}
use qt_zero_conf.Service.Signals.{
  present, Reported, Reported-append, emit_removed, is_added, is_removed, added-emit_removed,
  removed-emit_removed,
}
use qt_zero_conf.Text.{text_eq, Text}
use qt_zero_conf.Text.Order.{text_eq_refl}
use qt_zero_conf.Avahi.Resources.{points_to}
use qt_zero_conf.Bonjour.Alive.{
  IsKeyed, heap_key, heap_key-set, resolver_key, own_key_lem, remove-IsKeyed,
}

-- Both maps have each key once, and each entry of `resolvers` is a Resolver that is there and whose
-- service has the key of the entry.
pub record IsSafe (x : Externals) (s : State) : Type 0 where
  pub keyed : IsKeyed (heap_key x s.objects s.heap) s.resolvers
  pub services_sorted : IsSorted s.services
  pub resolvers_sorted : IsSorted s.resolvers

-- What an operation does from a safe state: its state is safe, and its signals account for the
-- change of the services filed.
abbrev pub Good : Externals → State → State × Effects → Type 0
Good x s q = IsSafe x q.0 × Reported s.services q.1 q.0.services

abbrev pub Returns : {A : Type 0} → (A → Type 0) → Option A → Type 0
Returns P none = ⊥
Returns P (some a) = P a

-- What holds of the state of a result, if there is one.
abbrev pub After : (State → Type 0) → Option (State × Effects) → Type 0
After P none = Unit {0}
After P (some q) = P q.0

Good-next :
    (x : Externals) (s t : State) (effects : Effects) (o : Option (State × Effects))
    → Good x s (t, effects)
    → Returns (Good x t) o
    → Returns (Good x s) (Option.map (λ q. (q.0, effects ++ q.1)) o)
Good-next x s t effects none h g = absurd g
Good-next x s t effects (some q) h g =
    (g.0, Reported-append s.services t.services q.0.services effects q.1 h.1 g.1)

pub Good-then :
    (x : Externals) (s : State) (q : State × Effects) (f : State → Option (State × Effects))
    → Good x s q
    → Returns (Good x q.0) (f q.0)
    → Returns (Good x s) (some q >>= f)
Good-then x s q f h g = Good-next x s q.0 q.1 (f q.0) h g

pub Good-bind :
    (x : Externals) (s : State) (m : Option (State × Effects))
    (f : State → Option (State × Effects))
    → Returns (Good x s) m
    → ((t : State) → IsSafe x t → Returns (Good x t) (f t))
    → Returns (Good x s) (m >>= f)
Good-bind x s none f h k = absurd h
Good-bind x s (some q) f h k = Good-then x s q f h (k q.0 h.0)

pub Resolver-there :
    (x : Externals) (objects : List ServiceData) (o : Option Resolver) (k : Text)
    → resolver_key x objects o ≡ some k
    → (r : Resolver) × (o ≡ some r)
Resolver-there x objects none k e = cc
Resolver-there x objects (some r) k e = (r, refl)

-- The entry of a filed Resolver is the one that its deletion removes.
pub key_of_there :
    (x : Externals) (s : State) (i : ℕ) (r : Resolver) (k : Text)
    → resolver_at s i ≡ some r
    → heap_key x s.objects s.heap i ≡ some k
    → zcs_key x s r.zcs ≡ k
key_of_there x s i r k has e = own_key_lem x (get_elem? s.objects r.zcs) k (rw has at e)

module _ (x : Externals) (s : State) (i : ℕ) (r : Resolver) (has : resolver_at s i ≡ some r) where
  pub delete-Good : IsSafe x s → Good x s (delete_resolver x s i r)
  unfolding count
  delete-Good v = (
    record {
      keyed =
          remove-IsKeyed (heap_key x s.objects s.heap) _ (zcs_key x s r.zcs) s.resolvers keep
            v.keyed;
      services_sorted = v.services_sorted;
      resolvers_sorted = remove-IsSorted _ _ v.resolvers_sorted;
    },
    λ h. omega arith,
  )
    where
      keep :
          (h : ℕ) (j : Text)
          → text_eq (zcs_key x s r.zcs) j ≡ false
          → heap_key x s.objects s.heap h ≡ some j
          → heap_key x s.objects (set s.heap i none) h ≡ some j
      keep h j other e =
          heap_key-set x s.objects s.heap i none h j
            (λ own. let same = key_of_there x s i r j has own in cc (text_eq_refl j)) e

  pub clean_up_there : resolver_clean_up x s i ≡ some (delete_resolver x s i r)
  unfolding resolver_clean_up
  clean_up_there = rw (has, resolver_clean_up)

-- A Resolver that is there is deleted.
pub clean_up-Good :
    (x : Externals) (s : State) (i : ℕ)
    → resolver_at s i ≢ none
    → IsSafe x s
    → Returns (Good x s) (resolver_clean_up x s i)
clean_up-Good x s i alive v = elim (Option-cases (resolver_at s i)) [
  | inl e ↦ absurd (alive e)
  | inr (r, e) ↦ rw (clean_up_there x s i r e) (delete-Good x s i r e v)
]

-- A loop over a QHash that its body does not change visits each entry once, in some order.
abbrev pub VisitsEach : Visits → Type 0
VisitsEach v = (m : QMap ℕ) (h : ℕ) → count (λ i. i == h) (v.visit m) ≡ present h m

-- A reference that is handed to cleanUp is that of the browser only while no Resolver stands in the
-- map.
abbrev pub Cleans : State → Option ℕ → Type 0
Cleans s none = Unit {0}
Cleans s (some p) = points_to p s.browser ≡ true → s.resolvers ≡ []

none-counted : (is : List ℕ) → ((h : ℕ) → count (λ i. i == h) is ≡ 0) → is ≡ []
unfolding count
none-counted [] h = refl
none-counted (i ∷ is) h = absurd (ground (arith, h i))

module _ (x : Externals) (v : Visits) (each : VisitsEach v) where
  -- A loop over an empty map visits nothing.
  pub visits_none : (m : QMap ℕ) → m ≡ [] → v.visit m ≡ []
  unfolding count values
  visits_none m e = none-counted (v.visit m) (λ h. each m h ∙ rw e refl)

  clean_up_browser-Good :
      (s : State) (b : ℕ)
      → s.resolvers ≡ []
      → IsSafe x s
      → Returns (Good x s) (clean_up_browser x v s b)
  unfolding clean_up_browser clean_up_all count values
  clean_up_browser-Good s b empty safe =
      let idle = record s { browser = none; browser_notifier = false } in
      let u : IsSafe x idle = record {
        keyed = safe.keyed;
        services_sorted = safe.services_sorted;
        resolvers_sorted = safe.resolvers_sorted;
      } in
      Good-bind x idle (clean_up_all x idle (v.visit s.resolvers)) _
        (rw (visits_none s.resolvers empty) (u, λ h. omega arith))
        (λ t u. (
          record { keyed = tt; services_sorted = tt; resolvers_sorted = tt },
          λ h. omega (
            arith,
            count-append (is_added h) (emit_removed (values t.services))
                (calls (ref_deallocate (some b)) ∷ []),
            count-append (is_removed h) (emit_removed (values t.services))
                (calls (ref_deallocate (some b)) ∷ []),
            removed-emit_removed Call h (values t.services),
            added-emit_removed Call h (values t.services),
          ),
        ))

  pub clean_up_ref-Good :
      (s : State) (p : Option ℕ) → Cleans s p → IsSafe x s → Returns (Good x s) (clean_up x v s p)
  unfolding clean_up count
  clean_up_ref-Good s none ok safe = (safe, λ h. omega arith)
  clean_up_ref-Good s (some p) ok safe = elim (Bool-cases (points_to p s.browser)) [
    | inl e ↦ rw e (clean_up_browser-Good s p (ok e) safe)
    | inr e ↦ elim (Bool-cases (points_to p s.dnss_ref)) [
      | inl d ↦
          rw (e, d)
            (
              record {
                keyed = safe.keyed;
                services_sorted = safe.services_sorted;
                resolvers_sorted = safe.resolvers_sorted;
              },
              λ h. omega arith,
            )
      | inr d ↦ rw (e, d) (safe, λ h. omega arith)
    ]
  ]
