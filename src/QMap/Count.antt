-- ===== src/QMap/Count.antt =====
-- How often a value stands in a map: what an insertion adds, and what a removal takes.
use qt_zero_conf.Base.{
  ℕ, ◌+◌, ◌≡◌, Bool, List, [], ◌∷◌, ◌++◌, Option, none, some, arith, if◌then◌else◌,
}
use qt_zero_conf.Text.{Text}
use qt_zero_conf.Text.Order.{eq_of_text_eq}
use qt_zero_conf.QMap.{QMap, lookup, insert, remove, values}
use qt_zero_conf.QMap.Order.{IsSorted, Above-trans, lookup-Above, remove-Above}

module _ {ℓ} {V : Type ℓ} (test : V → Bool) where
  -- 1 if the test holds of the value.
  abbrev pub weight : V → ℕ
  weight v = if test v then 1 else 0

  abbrev pub weight? : Option V → ℕ
  weight? none = 0
  weight? (some v) = weight v

  unfoldable pub count : List V → ℕ
  count [] = 0
  count (v ∷ vs) = weight v + count vs

  pub count-append : (xs ys : List V) → count (xs ++ ys) ≡ count xs + count ys
  unfolding count
  count-append [] ys = omega arith
  count-append (x ∷ xs) ys = omega (arith, count-append xs ys)

  pub count-insert :
      (k : Text) (v : V) (m : QMap V)
      → IsSorted m
      → count (values (insert k v m)) + weight? (lookup k m) ≡ count (values m) + weight v
  unfolding count values insert lookup
  count-insert k v [] s = omega arith
  count-insert k v ((j, w) ∷ m) s = ground (
    arith,
    count-insert k v m s.1,
    lookup-Above k m,
    Above-trans k j m,
    eq_of_text_eq k j,
    lookup-Above j m s.0,
  )

  pub count-remove :
      (k : Text) (m : QMap V)
      → IsSorted m
      → count (values (remove k m)) + weight? (lookup k m) ≡ count (values m)
  unfolding count values remove lookup
  count-remove k [] s = omega arith
  count-remove k ((j, w) ∷ m) s =
      ground (arith, count-remove k m s.1, eq_of_text_eq k j, remove-Above j m s.0)
