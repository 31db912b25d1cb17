-- ===== src/QMap/Lookup.antt =====
-- What is found after an insertion and after a removal.
use qt_zero_conf.Base.{◌≡◌, refl, true, false, [], ◌∷◌, none, some, if◌then◌else◌, arith, ◌⊎◌}
use qt_zero_conf.Text.{Text, text_eq}
use qt_zero_conf.Text.Order.{text_eq_refl, eq_of_text_eq}
use qt_zero_conf.QMap.{QMap, lookup, insert, remove}

-- Whether two keys are one, with the equation that the answer gives.
pub text_eq_cases : (a b : Text) → ((a ≡ b) × (text_eq a b ≡ true)) ⊎ (text_eq a b ≡ false)
text_eq_cases a b = ground (arith, eq_of_text_eq a b)

module _ {ℓ} {V : Type ℓ} where
  pub lookup-insert :
      (k j : Text) (v : V) (m : QMap V)
      → lookup k (insert j v m) ≡ (if text_eq k j then some v else lookup k m)
  unfolding lookup insert
  lookup-insert k j v [] = refl
  lookup-insert k j v ((i, w) ∷ m) = ground (
    arith,
    eq_of_text_eq j i,
    eq_of_text_eq k i,
    eq_of_text_eq k j,
    text_eq_refl i,
    text_eq_refl k,
    lookup-insert k j v m,
  )

  pub lookup-remove :
      (k j : Text) (m : QMap V) → lookup k (remove j m) ≡ (if text_eq k j then none else lookup k m)
  unfolding lookup remove
  lookup-remove k j [] = ground arith
  lookup-remove k j ((i, w) ∷ m) = ground (
    arith,
    eq_of_text_eq j i,
    eq_of_text_eq k i,
    eq_of_text_eq k j,
    text_eq_refl i,
    lookup-remove k j m,
  )
