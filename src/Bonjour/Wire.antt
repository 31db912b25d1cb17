-- ===== src/Bonjour/Wire.antt =====
-- bonjour.cpp: the TXT record as the bytes of the wire, each entry behind a byte with its length.
use qt_zero_conf.Base.{
  append-nil, append_assoc, sym, ap, drop-length, take-length, length-append, false, zero, ltb,
  drop, refl, ◌+◌, take, ◌-◌, length-drop, arith, ◌≡◌, ◌==◌, ◌≢◌, ◌≤◌, ◌%◌, [], ◌<◌, if◌then◌else◌,
  length, ◌++◌, ◌∷◌, suc, List, ℕ, ◌∙◌,
}
use qt_zero_conf.Service.Txt.{add_txt, read_txt}
use qt_zero_conf.Service.{Externals}
use qt_zero_conf.QMap.{QMap}
use qt_zero_conf.Text.{Text}

-- `txt.append(static_cast<char>(nameOnly.size())); txt.append(nameOnly.toUtf8());`
unfoldable pub append_entry : Externals → Text → Text → Text
append_entry x txt name = txt ++ (length name % 256) ∷ x.to_utf8 name

-- What becomes of the loop of resolverCallback: it ends and has read the entries, or it reads behind
-- the last byte of the record, and what it does from then on is not known. `out_of_fuel` is no end of
-- the loop.
pub data Wire : Type 0 where
  entries : QMap Text → Wire
  overrun : Wire
  out_of_fuel : Wire

-- `while (txtLen > 0)` of resolverCallback on the bytes from `txtRecord` on; `txtLen` is a quint16.
unfoldable pub read_wire : ℕ → QMap Text → ℕ → Text → Wire
read_wire zero m txt_len bytes = out_of_fuel
read_wire (suc fuel) m txt_len [] = if txt_len == 0 then entries m else overrun
read_wire (suc fuel) m txt_len (rec_len ∷ bytes) =
    let rest =
      read_wire fuel (add_txt m (take rec_len bytes)) ((txt_len + 65536 - (rec_len + 1)) % 65536)
        (drop rec_len bytes) in
    if txt_len == 0 then entries m else if ltb (length bytes) rec_len then overrun else rest

-- Each turn takes a byte at least: with more fuel than bytes the fuel does not run out.
read_wire_ends :
    (fuel : ℕ) (m : QMap Text) (txt_len : ℕ) (bytes : Text)
    → length bytes < fuel
    → read_wire fuel m txt_len bytes ≢ out_of_fuel
unfolding read_wire
read_wire_ends zero m txt_len bytes h = elim h [ ]
read_wire_ends (suc fuel) m txt_len [] h = ground arith
read_wire_ends (suc fuel) m txt_len (rec_len ∷ bytes) h = ground (
  arith,
  length-drop rec_len bytes,
  read_wire_ends fuel (add_txt m (take rec_len bytes)) ((txt_len + 65536 - (rec_len + 1)) % 65536)
      (drop rec_len bytes),
)

-- The entries one after the other.
unfoldable pub wire : List Text → Text
wire [] = []
wire (t ∷ ts) = (length t ∷ t) ++ wire ts

left_over : (n k : ℕ) → n + 1 + k < 65536 → (n + 1 + k + 65536 - (n + 1)) % 65536 ≡ k
left_over n k h = omega arith

-- One turn at an entry that is there whole.
read_entry :
    (fuel : ℕ) (m : QMap Text) (t : Text) (k : ℕ) (rest : Text)
    → length t + 1 + k < 65536
    → read_wire (suc fuel) m (length t + 1 + k) (length t ∷ t ++ rest)
      ≡ read_wire fuel (add_txt m t) k rest
unfolding read_wire
read_entry fuel m t k rest small = rw (
  take-length t rest,
  drop-length t rest,
  left_over (length t) k small,
  more (length t) k,
  inside t rest,
)
  where
    more : (n k : ℕ) → (n + 1 + k == 0) ≡ false
    more n k = ground arith

    inside : (t rest : Text) → ltb (length (t ++ rest)) (length t) ≡ false
    inside t rest = ground (arith, length-append t rest)

wire_regroup :
    (t rest : Text) (ts : List Text) → wire (t ∷ ts) ++ rest ≡ length t ∷ t ++ (wire ts ++ rest)
unfolding wire
wire_regroup t rest ts = ap (λ b. length t ∷ b) (append_assoc t (wire ts) rest)

read_wire-append :
    (fuel : ℕ) (m : QMap Text) (ts : List Text) (k : ℕ) (rest : Text)
    → length (wire ts) + k < 65536
    → length ts < fuel
    → read_wire fuel m (length (wire ts) + k) (wire ts ++ rest)
      ≡ read_wire (fuel - length ts) (read_txt m ts) k rest
unfolding wire read_txt
read_wire-append fuel m [] k rest small enough =
    let shut : (0 + k) ≡ k = omega arith in
    let whole : (fuel - 0) ≡ fuel = omega arith in rw (shut, whole)
read_wire-append zero m (t ∷ ts) k rest small enough = elim enough [ ]
read_wire-append (suc fuel) m (t ∷ ts) k rest small enough =
    let joined = length-append t (wire ts) in
    let e : (length (wire (t ∷ ts)) + k) ≡ (length t + 1 + (length (wire ts) + k)) =
      omega (arith, joined) in
    let less : (fuel - length ts) ≡ (suc fuel - suc (length ts)) = omega arith in
    ap (λ n. read_wire (suc fuel) m n (wire (t ∷ ts) ++ rest)) e
    ∙ ap (read_wire (suc fuel) m (length t + 1 + (length (wire ts) + k))) (wire_regroup t rest ts)
    ∙ read_entry fuel m t (length (wire ts) + k) (wire ts ++ rest) (omega (arith, joined))
    ∙ read_wire-append fuel (add_txt m t) ts k rest (omega (arith, joined)) (omega arith)
    ∙ ap (λ f. read_wire f (read_txt m (t ∷ ts)) k rest) less

length-wire : (ts : List Text) → length ts ≤ length (wire ts)
unfolding wire
length-wire [] = omega arith
length-wire (t ∷ ts) = omega (arith, length-append t (wire ts), length-wire ts)

read_end : (fuel : ℕ) (m : QMap Text) (rest : Text) → 0 < fuel → read_wire fuel m 0 rest ≡ entries m
unfolding read_wire
read_end zero m rest h = elim h [ ]
read_end (suc fuel) m [] h = refl
read_end (suc fuel) m (b ∷ rest) h = refl

read_over :
    (fuel : ℕ) (m : QMap Text) (rec_len : ℕ) (bytes : Text)
    → length bytes < rec_len
    → 0 < fuel
    → read_wire fuel m (length bytes + 1) (rec_len ∷ bytes) ≡ overrun
unfolding read_wire
read_over zero m rec_len bytes long h = elim h [ ]
read_over (suc fuel) m rec_len bytes long h = ground arith

-- The loop over a whole record, shorter than 65536 bytes, comes to its end after one turn for each
-- entry and one more test of the length: with so much fuel it has read all the entries, and none of
-- the bytes that stand behind the record.
pub read_wire_whole :
    (fuel : ℕ) (m : QMap Text) (ts : List Text) (rest : Text)
    → length (wire ts) < 65536
    → length ts < fuel
    → read_wire fuel m (length (wire ts)) (wire ts ++ rest) ≡ entries (read_txt m ts)
read_wire_whole fuel m ts rest small enough =
    let all : (length (wire ts) + 0) ≡ length (wire ts) = omega arith in
    ap (λ n. read_wire fuel m n (wire ts ++ rest)) (sym all)
    ∙ read_wire-append fuel m ts 0 rest (omega arith) enough
    ∙ read_end (fuel - length ts) (read_txt m ts) rest (omega arith)

-- The bytes of any entries, all read, give the entries: a record of the wire that fits a quint16
-- is read without an overrun to the map that the entries make.
pub read_wire-wire :
    (fuel : ℕ) (m : QMap Text) (ts : List Text)
    → length (wire ts) < 65536
    → length (wire ts) < fuel
    → read_wire fuel m (length (wire ts)) (wire ts) ≡ entries (read_txt m ts)
read_wire-wire fuel m ts small enough =
    ap (read_wire fuel m (length (wire ts))) (sym (append-nil (wire ts)))
    ∙ read_wire_whole fuel m ts [] small (omega (arith, length-wire ts))

-- A record whose last entry is longer than the bytes behind its length byte is read over its end,
-- whatever entries stand before it.
pub read_wire_overruns :
    (fuel : ℕ) (m : QMap Text) (ts : List Text) (rec_len : ℕ) (bytes : Text)
    → length bytes < rec_len
    → length (wire ts) + (length bytes + 1) < 65536
    → length (wire ts) + 1 < fuel
    → read_wire fuel m (length (wire ts) + (length bytes + 1)) (wire ts ++ rec_len ∷ bytes)
      ≡ overrun
read_wire_overruns fuel m ts rec_len bytes long small enough =
    let short = length-wire ts in
    read_wire-append fuel m ts (length bytes + 1) (rec_len ∷ bytes) small (omega arith)
    ∙ read_over (fuel - length ts) (read_txt m ts) rec_len bytes long (omega arith)

-- addServiceTxtRecord for each name, one after the other, on the bytes of a QByteArray.
unfoldable pub append_entries : Externals → Text → List Text → Text
append_entries x txt [] = txt
append_entries x txt (t ∷ ts) = append_entries x (append_entry x txt t) ts

-- The names are ASCII, so that UTF-8 leaves them, and short enough for the length byte.
abbrev pub ArePlain : Externals → List Text → Type 0
ArePlain x [] = Unit {0}
ArePlain x (t ∷ ts) = (x.to_utf8 t ≡ t) × (length t < 256) × ArePlain x ts

byte_fits : (n : ℕ) → n < 256 → n % 256 ≡ n
byte_fits n h = omega arith

append_entries-wire :
    (x : Externals) (txt : Text) (ts : List Text)
    → ArePlain x ts
    → append_entries x txt ts ≡ txt ++ wire ts
unfolding append_entries wire append_entry
append_entries-wire x txt [] plain = sym (append-nil txt)
append_entries-wire x txt (t ∷ ts) plain =
    append_entries-wire x (append_entry x txt t) ts plain.2
    ∙ rw (plain.0, byte_fits (length t) plain.1) (append_assoc txt (length t ∷ t) (wire ts))

-- What is published is what is browsed: the bytes that the application's records make, read by
-- the loop of resolverCallback, give the map of these records, if they are ASCII, each shorter
-- than 256 bytes and all together shorter than 65536.
pub wire_roundtrip :
    (x : Externals) (ts : List Text)
    → ArePlain x ts
    → length (append_entries x [] ts) < 65536
    → let txt = append_entries x [] ts in
      read_wire (suc (length txt)) [] (length txt) txt ≡ entries (read_txt [] ts)
wire_roundtrip x ts plain small =
    let same = append_entries-wire x [] ts plain in
    rw same (read_wire-wire (suc (length (wire ts))) [] ts (rw same at small) (omega arith))
