-- ===== src/Bonjour/Alive.antt =====
-- bonjour.cpp: every Resolver in the map `resolvers` is there, under the key of its own service.
use qt_zero_conf.Bonjour.{Resolver, join}
use qt_zero_conf.Service.{service_key, ServiceData, Externals, object_or_blank}
use qt_zero_conf.Service.Store.{key?}
use qt_zero_conf.Base.{
  false, ◌≡◌, none, ◌++◌, get_elem?, List, some, Option, ℕ, [], ◌∷◌, arith, inl, inr, Bool-cases,
  ◌<◌, ◌==◌, set, zero, suc,
}
use qt_zero_conf.QMap.{QMap, insert, remove, lookup, values}
use qt_zero_conf.QMap.Count.{count}
use qt_zero_conf.QMap.Order.{IsSorted, lookup-Above}
use qt_zero_conf.Service.Signals.{present}
use qt_zero_conf.Text.{text_eq, Text}
use qt_zero_conf.Text.Order.{eq_of_text_eq, text_eq_refl}

-- Each entry of a map stands under the key of its value.
abbrev pub IsKeyed : (ℕ → Option Text) → QMap ℕ → Type 0
IsKeyed f [] = Unit {0}
IsKeyed f ((k, i) ∷ m) = (f i ≡ some k) × IsKeyed f m

pub mono-IsKeyed :
    (f g : ℕ → Option Text) (m : QMap ℕ)
    → ((h : ℕ) (j : Text) → f h ≡ some j → g h ≡ some j)
    → IsKeyed f m
    → IsKeyed g m
mono-IsKeyed f g [] keep v = tt
mono-IsKeyed f g ((j, h) ∷ m) keep v = (keep h j v.0, mono-IsKeyed f g m keep v.1)

pub insert-IsKeyed :
    (f g : ℕ → Option Text) (k : Text) (i : ℕ) (m : QMap ℕ)
    → g i ≡ some k
    → ((h : ℕ) (j : Text) → f h ≡ some j → g h ≡ some j)
    → IsKeyed f m
    → IsKeyed g (insert k i m)
unfolding insert
insert-IsKeyed f g k i [] new keep v = (new, tt)
insert-IsKeyed f g k i ((j, h) ∷ m) new keep v =
    ground (arith, keep h j v.0, mono-IsKeyed f g m keep v.1, insert-IsKeyed f g k i m new keep v.1)

-- What has another key than the one that is removed keeps its key.
pub remove-IsKeyed :
    (f g : ℕ → Option Text) (k : Text) (m : QMap ℕ)
    → ((h : ℕ) (j : Text) → text_eq k j ≡ false → f h ≡ some j → g h ≡ some j)
    → IsKeyed f m
    → IsKeyed g (remove k m)
unfolding remove
remove-IsKeyed f g k [] keep v = tt
remove-IsKeyed f g k ((j, h) ∷ m) keep v = elim (Bool-cases (text_eq k j)) [
  | inl e ↦ rw (e, remove) (remove-IsKeyed f g k m keep v.1)
  | inr e ↦ rw (e, remove) (keep h j e v.0, remove-IsKeyed f g k m keep v.1)
]

-- What is filed under a key has that key.
pub lookup-IsKeyed :
    (f : ℕ → Option Text) (k : Text) (m : QMap ℕ) (i : ℕ)
    → IsKeyed f m
    → lookup k m ≡ some i
    → f i ≡ some k
unfolding lookup
lookup-IsKeyed f k [] i v e = cc
lookup-IsKeyed f k ((j, h) ∷ m) i v e =
    ground (arith, eq_of_text_eq k j, lookup-IsKeyed f k m i v.1)

-- What stands in the map is found under its key.
pub lookup-present :
    (f : ℕ → Option Text) (i : ℕ) (m : QMap ℕ)
    → IsKeyed f m
    → IsSorted m
    → 0 < present i m
    → (k : Text) × (f i ≡ some k) × (lookup k m ≡ some i)
unfolding lookup count values
lookup-present f i [] v s h = absurd (omega arith)
lookup-present f i ((j, h) ∷ m) v s here = elim (Bool-cases (h == i)) [
  | inl e ↦ (j, ground arith, ground (arith, text_eq_refl j))
  | inr e ↦
      (let (k, own, found) = lookup-present f i m v.1 s.1 (ground arith) in
        (k, own, ground (arith, eq_of_text_eq k j, lookup-Above j m s.0)))
]

-- The key that a Resolver is filed under, from its object, or none for a deleted one.
abbrev pub own_key : Externals → ServiceData → Text
own_key x d = service_key x d.name d.interface_index

abbrev pub resolver_key : Externals → List ServiceData → Option Resolver → Option Text
resolver_key x objects none = none
resolver_key x objects (some r) = key? (own_key x) (get_elem? objects r.zcs)

abbrev pub heap_key : Externals → List ServiceData → List (Option Resolver) → ℕ → Option Text
heap_key x objects heap i = resolver_key x objects (join (get_elem? heap i))

pub own_key_lem :
    (x : Externals) (o : Option ServiceData) (k : Text)
    → key? (own_key x) o ≡ some k
    → own_key x (object_or_blank o) ≡ k
own_key_lem x none k e = cc
own_key_lem x (some d) k e = cc

module _ (x : Externals) (objects : List ServiceData) where
  -- A new Resolver changes no key.
  pub heap_key-snoc :
      (heap : List (Option Resolver)) (o : Option Resolver) (h : ℕ) (k : Text)
      → heap_key x objects heap h ≡ some k
      → heap_key x objects (heap ++ o ∷ []) h ≡ some k
  heap_key-snoc [] o h k e = cc
  heap_key-snoc (p ∷ heap) o zero k e = e
  heap_key-snoc (p ∷ heap) o (suc h) k e = heap_key-snoc heap o h k e

  -- A write to one Resolver keeps the keys of the others, and its own if that is kept.
  pub heap_key-set :
      (heap : List (Option Resolver)) (i : ℕ) (o : Option Resolver) (h : ℕ) (k : Text)
      → (heap_key x objects heap i ≡ some k → resolver_key x objects o ≡ some k)
      → heap_key x objects heap h ≡ some k
      → heap_key x objects (set heap i o) h ≡ some k
  heap_key-set [] i o h k keep e = e
  heap_key-set (p ∷ heap) zero o zero k keep e = keep e
  heap_key-set (p ∷ heap) zero o (suc h) k keep e = e
  heap_key-set (p ∷ heap) (suc i) o zero k keep e = e
  heap_key-set (p ∷ heap) (suc i) o (suc h) k keep e = heap_key-set heap i o h k keep e

pub resolver_key_mono :
    (x : Externals) (old new : List ServiceData) (o : Option Resolver) (k : Text)
    → ((h : ℕ)
        → key? (own_key x) (get_elem? old h) ≡ some k
        → key? (own_key x) (get_elem? new h) ≡ some k)
    → resolver_key x old o ≡ some k
    → resolver_key x new o ≡ some k
resolver_key_mono x old new none k keep e = cc
resolver_key_mono x old new (some r) k keep e = keep r.zcs e
