-- ===== src/QMap.antt =====
-- Qt's ordered map with text keys, QMap<QString, V> and QMap<QByteArray, V>: the pairs in the
-- order in which its iterators visit them. A QHash is read through the same operations, where
-- nothing depends on the order.
pub mod Lookup
pub mod Order
pub mod Count
use qt_zero_conf.Base.{ℕ, Bool, true, false, List, [], ◌∷◌, Option, none, some, if◌then◌else◌}
use qt_zero_conf.Text.{Text, text_eq, text_lt}

abbrev pub QMap {ℓ} : Type ℓ → Type ℓ
QMap V = List (Text × V)

module _ {ℓ} {V : Type ℓ} where
  -- value(key), with what contains(key) tells.
  unfoldable pub lookup : Text → QMap V → Option V
  lookup k [] = none
  lookup k ((j, v) ∷ m) = if text_eq k j then some v else lookup k m

  abbrev pub is_some : Option V → Bool
  is_some none = false
  is_some (some v) = true

  unfoldable pub contains : Text → QMap V → Bool
  contains k m = is_some (lookup k m)

  -- insert(key, value), and the assignment to operator[](key).
  unfoldable pub insert : Text → V → QMap V → QMap V
  insert k v [] = (k, v) ∷ []
  insert k v ((j, w) ∷ m) =
      if text_eq k j
      then (k, v) ∷ m
      else if text_lt k j
      then (k, v) ∷ (j, w) ∷ m
      else (j, w) ∷ insert k v m

  unfoldable pub remove : Text → QMap V → QMap V
  remove k [] = []
  remove k ((j, w) ∷ m) = if text_eq k j then remove k m else (j, w) ∷ remove k m

  unfoldable pub values : QMap V → List V
  values [] = []
  values ((j, w) ∷ m) = w ∷ values m
