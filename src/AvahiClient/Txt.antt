-- ===== src/AvahiClient/Txt.antt =====
-- avahiclient.cpp: the TXT records that an application adds, as a browser reads them.
use qt_zero_conf.Service.{Externals}
use qt_zero_conf.AvahiClient.{State}
use qt_zero_conf.Base.{
  suc, length, ℕ, ◌+◌, ◌≤◌, some, [], if◌then◌else◌, ◌∷◌, none, ◌≡◌, Option, List,
}
use qt_zero_conf.Text.{text_eq, Text}
use qt_zero_conf.QMap.{insert, QMap}
use qt_zero_conf.Service.Txt.{equals_sign, index_of, txt_pair}
use qt_zero_conf.AvahiClient.Api.{add_service_txt_record}

-- addServiceTxtRecord for each pair, one after the other.
unfoldable pub add_records : Externals → State → List (Text × Text) → State
add_records x s [] = s
add_records x s ((name, value) ∷ ps) = add_records x (add_service_txt_record x s name value) ps

-- The value that was first given to a key.
unfoldable pub first_value : Externals → Text → List (Text × Text) → Option Text
first_value x k [] = none
first_value x k ((name, value) ∷ ps) =
    if text_eq k (x.to_utf8 name) then some (x.to_utf8 value) else first_value x k ps

-- No name holds a '=', and every pair makes a string without a NUL, of 255 bytes at most.
abbrev pub AreRecords : Externals → List (Text × Text) → Type 0
AreRecords x [] = Unit {0}
AreRecords x ((name, value) ∷ ps) =
    let t = txt_pair (x.to_utf8 name) (x.to_utf8 value) in
    (index_of equals_sign (x.to_utf8 name) ≡ none)
    × (index_of 0 t ≡ none)
    × (length t ≤ 255)
    × AreRecords x ps

-- UTF-8 is converted unit by unit at an ASCII character, and avahi_string_list_add, which takes a
-- string up to its NUL, returns the list with the new string in front.
pub record IsPlain (x : Externals) : Type 0 where
  pub to_utf8-pair :
      (name value : Text)
      → x.to_utf8 (txt_pair name value) ≡ txt_pair (x.to_utf8 name) (x.to_utf8 value)
  pub list_add : (l : List Text) (t : Text) → index_of 0 t ≡ none → x.string_list_add l t ≡ t ∷ l

-- Every string has a byte at least, and 255 at most.
abbrev pub AreStrings : List Text → Type 0
AreStrings [] = Unit {0}
AreStrings (t ∷ l) = (1 ≤ length t) × (length t ≤ 255) × AreStrings l

-- The bytes of a TXT record with these strings, each behind its length.
abbrev pub record_length : List Text → ℕ
record_length [] = 0
record_length (t ∷ l) = suc (length t) + record_length l

-- The way of a TXT record from the Avahi library of a publisher to that of a browser. It shortens
-- strings of more than 255 bytes, leaves empty ones out, and has room for `limit` bytes; the others
-- arrive in the order in which they were sent.
pub record IsCarrier (carry : List Text → List Text) (limit : ℕ) : Type 0 where
  pub whole : (l : List Text) → AreStrings l → record_length l ≤ limit → carry l ≡ l

with_records : Externals → QMap Text → List (Text × Text) → QMap Text
with_records x m [] = m
with_records x m ((name, value) ∷ ps) =
    insert (x.to_utf8 name) (x.to_utf8 value) (with_records x m ps)
