-- ===== src/QMap/Order.antt =====
-- The keys of a map stand in ascending order, so each stands once.
use qt_zero_conf.Base.{◌≡◌, refl, true, [], ◌∷◌, none, arith}
use qt_zero_conf.Text.{Text, text_lt}
use qt_zero_conf.Text.Order.{eq_of_text_eq, text_lt_trans, text_total, text_lt_irrefl}
use qt_zero_conf.QMap.{QMap, lookup, insert, remove}

module _ {ℓ} {V : Type ℓ} where
  -- Every key lies above `k`.
  abbrev pub Above : Text → QMap V → Type 0
  Above k [] = Unit {0}
  Above k ((j, v) ∷ m) = (text_lt k j ≡ true) × Above k m

  abbrev pub IsSorted : QMap V → Type 0
  IsSorted [] = Unit {0}
  IsSorted ((j, v) ∷ m) = Above j m × IsSorted m

  pub Above-trans : (i j : Text) (m : QMap V) → text_lt i j ≡ true → Above j m → Above i m
  Above-trans i j [] h a = tt
  Above-trans i j ((k, v) ∷ m) h a = (text_lt_trans i j k h a.0, Above-trans i j m h a.1)

  Above-insert :
      (i j : Text) (v : V) (m : QMap V) → text_lt i j ≡ true → Above i m → Above i (insert j v m)
  unfolding insert
  Above-insert i j v [] h a = (h, tt)
  Above-insert i j v ((k, w) ∷ m) h a = ground (arith, Above-insert i j v m h a.1)

  Above-remove : (i j : Text) (m : QMap V) → Above i m → Above i (remove j m)
  unfolding remove
  Above-remove i j [] a = tt
  Above-remove i j ((k, w) ∷ m) a = ground (arith, Above-remove i j m a.1)

  pub insert-IsSorted : (j : Text) (v : V) (m : QMap V) → IsSorted m → IsSorted (insert j v m)
  unfolding insert
  insert-IsSorted j v [] s = (tt, tt)
  insert-IsSorted j v ((k, w) ∷ m) s = ground (
    arith,
    eq_of_text_eq j k,
    text_total j k,
    Above-trans j k m,
    Above-insert k j v m,
    insert-IsSorted j v m s.1,
  )

  pub remove-IsSorted : (j : Text) (m : QMap V) → IsSorted m → IsSorted (remove j m)
  unfolding remove
  remove-IsSorted j [] s = tt
  remove-IsSorted j ((k, w) ∷ m) s = ground (arith, Above-remove k j m s.0, remove-IsSorted j m s.1)

  -- A key below all others is not there.
  pub lookup-Above : (k : Text) (m : QMap V) → Above k m → lookup k m ≡ none
  unfolding lookup
  lookup-Above k [] a = refl
  lookup-Above k ((j, v) ∷ m) a =
      ground (arith, eq_of_text_eq k j, text_lt_irrefl j, lookup-Above k m a.1)

  pub remove-Above : (k : Text) (m : QMap V) → Above k m → remove k m ≡ m
  unfolding remove
  remove-Above k [] a = refl
  remove-Above k ((j, v) ∷ m) a =
      ground (arith, eq_of_text_eq k j, text_lt_irrefl j, remove-Above k m a.1)
