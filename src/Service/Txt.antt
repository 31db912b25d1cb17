-- ===== src/Service/Txt.antt =====
-- TXT records: how addServiceTxtRecord writes `name=value`, and how the callbacks read a record.
use qt_zero_conf.Base.{
  ℕ, suc, ◌≡◌, refl, List, [], ◌∷◌, ◌++◌, Option, none, some, arith, ◌==◌, if◌then◌else◌, take,
  drop, length, take-length,
}
use qt_zero_conf.Text.{Text}
use qt_zero_conf.QMap.{QMap, insert}

abbrev later : Option ℕ → Option ℕ
later none = none
later (some i) = some (suc i)

-- QByteArray::indexOf, where -1 is `none`.
unfoldable pub index_of : ℕ → Text → Option ℕ
index_of c [] = none
index_of c (x ∷ xs) = if x == c then some 0 else later (index_of c xs)

abbrev pub equals_sign : ℕ
equals_sign = b'='

-- One turn of the loops that fill `m_txt`: the record is split at its first '='.
unfoldable pub add_txt : QMap Text → Text → QMap Text
add_txt m text = elim (index_of equals_sign text) [
  | none ↦ insert text [] m
  | some pos ↦ insert (take pos text) (drop (suc pos) text) m
]

-- The loop over the records.
unfoldable pub read_txt : QMap Text → List Text → QMap Text
read_txt m [] = m
read_txt m (t ∷ ts) = read_txt (add_txt m t) ts

-- `name.append("="); name.append(value);`
unfoldable pub txt_pair : Text → Text → Text
txt_pair name value = name ++ equals_sign ∷ value

index_of-append :
    (name rest : Text)
    → index_of equals_sign name ≡ none
    → index_of equals_sign (name ++ equals_sign ∷ rest) ≡ some (length name)
unfolding index_of
index_of-append [] rest h = refl
index_of-append (c ∷ name) rest h = ground (arith, index_of-append name rest)

drop_after : (xs ys : Text) (c : ℕ) → drop (suc (length xs)) (xs ++ c ∷ ys) ≡ ys
drop_after [] ys c = refl
drop_after (x ∷ xs) ys c = drop_after xs ys c

-- A pair is read back as its name and its value, if the name holds no '='.
pub add_txt-txt_pair :
    (m : QMap Text) (name value : Text)
    → index_of equals_sign name ≡ none
    → add_txt m (txt_pair name value) ≡ insert name value m
unfolding add_txt txt_pair
add_txt-txt_pair m name value h =
    rw (index_of-append name value h, add_txt)
      (rw (take-length name (equals_sign ∷ value), drop_after name value equals_sign))
