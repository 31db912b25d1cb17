-- ===== src/Bonjour/Kept.antt =====
-- bonjour.cpp: what a write to a Resolver leaves of the others.
use qt_zero_conf.Bonjour.{Resolver}
use qt_zero_conf.Base.{
  false, ◌≡◌, ◌++◌, get_elem?, length, List, Option, ℕ, [], ◌∷◌, arith, ◌==◌, set, refl,
  get_elem?-set_ne, ap,
}

pub get_elem?-set_other :
    (heap : List (Option Resolver)) (i j : ℕ) (o : Option Resolver)
    → (j == i) ≡ false
    → get_elem? (set heap j o) i ≡ get_elem? heap i
get_elem?-set_other heap i j o e = get_elem?-set_ne heap o (λ (same : j ≡ i). ground arith)

pub set-snoc {ℓ} :
    {A : Type ℓ} (xs : List A) (v w : A) → set (xs ++ v ∷ []) (length xs) w ≡ xs ++ w ∷ []
set-snoc [] v w = refl
set-snoc (y ∷ xs) v w = ap (◌∷◌ y) (set-snoc xs v w)
