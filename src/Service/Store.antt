-- ===== src/Service/Store.antt =====
-- The map of services over the objects that its handles name.
use qt_zero_conf.Base.{
  refl, zero, ℕ, suc, ◌≡◌, List, [], ◌∷◌, ◌++◌, Option, none, some, arith, get_elem?, set,
}
use qt_zero_conf.Text.{Text}
use qt_zero_conf.Text.Order.{eq_of_text_eq}
use qt_zero_conf.QMap.{QMap, lookup, insert, remove}
use qt_zero_conf.Service.{set_ip, ServiceData}

get_elem?-set-some :
    (objects : List ServiceData) (h : ℕ) (d d' : ServiceData)
    → get_elem? objects h ≡ some d
    → get_elem? (set objects h d') h ≡ some d'
get_elem?-set-some [] h d d' e = cc
get_elem?-set-some (o ∷ objects) zero d d' e = refl
get_elem?-set-some (o ∷ objects) (suc h) d d' e = get_elem?-set-some objects h d d' e

-- setIp gives the object of the handle the address, and leaves its other members.
pub get_elem?-set_ip :
    (objects : List ServiceData) (h : ℕ) (d : ServiceData) (ip : Text)
    → get_elem? objects h ≡ some d
    → get_elem? (set_ip objects h ip) h ≡ some (record d { ip = ip })
unfolding set_ip
get_elem?-set_ip objects h d ip e =
    rw (e, set_ip) (get_elem?-set-some objects h d (record d { ip = ip }) e)

module _ (key_of : ServiceData → Text) where
  abbrev pub key? : Option ServiceData → Option Text
  key? none = none
  key? (some d) = some (key_of d)

  -- The key of the object of a handle.
  abbrev pub key_at : List ServiceData → ℕ → Option Text
  key_at objects h = key? (get_elem? objects h)

  -- Every service is filed under the key of its own object.
  abbrev pub IsFiled : List ServiceData → QMap ℕ → Type 0
  IsFiled objects [] = Unit {0}
  IsFiled objects ((k, h) ∷ m) = (key_at objects h ≡ some k) × IsFiled objects m

  pub insert-IsFiled :
      (objects : List ServiceData) (k : Text) (h : ℕ) (m : QMap ℕ)
      → key_at objects h ≡ some k
      → IsFiled objects m
      → IsFiled objects (insert k h m)
  unfolding insert
  insert-IsFiled objects k h [] e f = (e, tt)
  insert-IsFiled objects k h ((j, i) ∷ m) e f = ground (arith, insert-IsFiled objects k h m e f.1)

  pub remove-IsFiled :
      (objects : List ServiceData) (k : Text) (m : QMap ℕ)
      → IsFiled objects m
      → IsFiled objects (remove k m)
  unfolding remove
  remove-IsFiled objects k [] f = tt
  remove-IsFiled objects k ((j, i) ∷ m) f = ground (arith, remove-IsFiled objects k m f.1)

  -- What is filed under a key is an object with that key.
  pub key_at-lookup :
      (objects : List ServiceData) (k : Text) (m : QMap ℕ) (h : ℕ)
      → IsFiled objects m
      → lookup k m ≡ some h
      → key_at objects h ≡ some k
  unfolding lookup
  key_at-lookup objects k [] h f e = cc
  key_at-lookup objects k ((j, i) ∷ m) h f e =
      ground (arith, eq_of_text_eq k j, key_at-lookup objects k m h f.1)

  -- If no handle that has a key loses it, the services stay filed.
  pub IsFiled-mono :
      (old new : List ServiceData) (m : QMap ℕ)
      → ((h : ℕ) (k : Text) → key_at old h ≡ some k → key_at new h ≡ some k)
      → IsFiled old m
      → IsFiled new m
  IsFiled-mono old new [] keep f = tt
  IsFiled-mono old new ((k, h) ∷ m) keep f = (keep h k f.0, IsFiled-mono old new m keep f.1)

  pub key_at-snoc :
      (objects : List ServiceData) (d : ServiceData) (h : ℕ) (k : Text)
      → key_at objects h ≡ some k
      → key_at (objects ++ d ∷ []) h ≡ some k
  key_at-snoc [] d h k e = cc
  key_at-snoc (o ∷ objects) d zero k e = e
  key_at-snoc (o ∷ objects) d (suc h) k e = key_at-snoc objects d h k e

  -- An update of one object that keeps its key keeps the key of every handle.
  pub key_at-set :
      (objects : List ServiceData) (i : ℕ) (d : ServiceData) (h : ℕ) (k : Text)
      → key_at objects i ≡ some (key_of d)
      → key_at objects h ≡ some k
      → key_at (set objects i d) h ≡ some k
  key_at-set [] i d h k same e = cc
  key_at-set (o ∷ objects) zero d zero k same e = cc
  key_at-set (o ∷ objects) zero d (suc h) k same e = e
  key_at-set (o ∷ objects) (suc i) d zero k same e = e
  key_at-set (o ∷ objects) (suc i) d (suc h) k same e = key_at-set objects i d h k same e

  -- The object of a filed handle.
  pub key_at-object :
      (objects : List ServiceData) (h : ℕ) (k : Text)
      → key_at objects h ≡ some k
      → (d : ServiceData) × (get_elem? objects h ≡ some d) × (key_of d ≡ k)
  key_at-object [] h k e = cc
  key_at-object (o ∷ objects) zero k e = (o, refl, cc)
  key_at-object (o ∷ objects) (suc h) k e = key_at-object objects h k e
