-- ===== src/Text.antt =====
-- Texts and byte strings: QString as its UTF-16 code units, QByteArray as its bytes. Both compare
-- unit by unit, as the keys of a QMap do.
pub mod Order
use Prim.Native.Char.{code}
use Prim.Native.String.{String}
use qt_zero_conf.Base.{
  ℕ, ◌+◌, ◌≡◌, refl, ap, ◌↔◌, Bool, true, false, ◌&&◌, ◌||◌, List, [], ◌∷◌, ◌++◌, Option, none,
  some, arith, ltb, ◌==◌, if◌then◌else◌, suc,
}

abbrev pub Text : Type 0
Text = List ℕ

-- operator== of QString and QByteArray.
unfoldable pub text_eq : Text → Text → Bool
text_eq [] [] = true
text_eq [] (y ∷ ys) = false
text_eq (x ∷ xs) [] = false
text_eq (x ∷ xs) (y ∷ ys) = x == y && text_eq xs ys

-- operator< of QString and QByteArray.
unfoldable pub text_lt : Text → Text → Bool
text_lt [] [] = false
text_lt [] (y ∷ ys) = true
text_lt (x ∷ xs) [] = false
text_lt (x ∷ xs) (y ∷ ys) = ltb x y || (x == y && text_lt xs ys)

-- The units of a literal, which is ASCII.
abbrev pub codes : String → Text
codes String.[] = []
codes (String.◌∷◌ c s) = code c ∷ codes s
