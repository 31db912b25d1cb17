-- ===== src/Window/Removal.antt =====
-- example/window.cpp: removeService removes just the rows of a name and an address.
use qt_zero_conf.Window.Cells.{
  Search, remove_rows, remove_each, has_item, remove_row, row_of, remove_found, Row,
}
use qt_zero_conf.Base.{
  ◌∙◌, sym, ap, suc, Bool-cases, ◌&&◌, arith, true, some, refl, get_elem?, inr, inl, ◌≡◌, [], ◌||◌,
  false, ◌==◌, if◌then◌else◌, Bool, ◌∷◌, ℕ, List,
}
use qt_zero_conf.Text.{text_eq, Text}

-- The rows but those that pass a test.
abbrev pub without : (Row → Bool) → List Row → List Row
without p [] = []
without p (r ∷ rs) = if p r then without p rs else r ∷ without p rs

-- No row has the item.
abbrev pub Lacks : ℕ → List Row → Type 0
Lacks i [] = Unit {0}
Lacks i (r ∷ rs) = (has_item i r ≡ false) × Lacks i rs

-- Each item stands in one place.
abbrev pub IsDistinct : List Row → Type 0
IsDistinct [] = Unit {0}
IsDistinct (r ∷ rs) =
    ((r.ip_item.pointer == r.name_item.pointer) ≡ false)
    × Lacks r.name_item.pointer rs
    × Lacks r.ip_item.pointer rs
    × IsDistinct rs

-- Some row has the item in its first column.
abbrev pub is_name : ℕ → List Row → Bool
is_name i [] = false
is_name i (r ∷ rs) = r.name_item.pointer == i || is_name i rs

-- A row whose first item is `i` and whose second shows `ip`.
abbrev pub is_match : Text → ℕ → Row → Bool
is_match ip i r = r.name_item.pointer == i && text_eq r.ip_item.text ip

without-Lacks : (ip : Text) (i : ℕ) (rs : List Row) → Lacks i rs → without (is_match ip i) rs ≡ rs
without-Lacks ip i [] h = refl
without-Lacks ip i (r ∷ rs) h = ground (arith, without-Lacks ip i rs h.1)

ne_of_Lacks : (p i : ℕ) (rs : List Row) → Lacks p rs → is_name i rs ≡ true → (p == i) ≡ false
ne_of_Lacks p i [] l h = cc
ne_of_Lacks p i (r ∷ rs) l h = ground (arith, ne_of_Lacks p i rs l.1)

-- Where the item `i` stands, and what the loop's body does there.
record Located (ip : Text) (i : ℕ) (rows : List Row) : Type 0 where
  row : ℕ
  at : Row
  found : row_of i rows ≡ some row
  there : get_elem? rows row ≡ some at
  other : (at.ip_item.pointer == i) ≡ false
  removes : text_eq at.ip_item.text ip ≡ true → remove_row row rows ≡ without (is_match ip i) rows
  leaves : text_eq at.ip_item.text ip ≡ false → without (is_match ip i) rows ≡ rows

locate :
    (ip : Text) (i : ℕ) (rows : List Row)
    → IsDistinct rows
    → is_name i rows ≡ true
    → Located ip i rows
unfolding row_of remove_row
locate ip i [] d h = cc
locate ip i (r ∷ rs) d h = elim (Bool-cases (r.name_item.pointer == i)) [
  | inl e ↦ record {
    row = 0;
    at = r;
    found = ground arith;
    there = refl;
    other = ground (arith, d.0);
    removes = λ t. ground (arith, without-Lacks ip i rs);
    leaves = λ t. ground (arith, without-Lacks ip i rs);
  }
  | inr e ↦
      let rest = locate ip i rs d.3 (ground arith) in
      let far = ne_of_Lacks r.ip_item.pointer i rs d.2 (ground arith) in
      record {
        row = suc rest.row;
        at = rest.at;
        found = ground (arith, rest.found);
        there = rest.there;
        other = rest.other;
        removes = λ t. ground (arith, rest.removes t);
        leaves = λ t. ground (arith, rest.leaves t);
      }
]

-- The loop's body removes just the row of the item, if that row shows the address.
remove_found_lem :
    (ip : Text) (i : ℕ) (rows : List Row)
    → IsDistinct rows
    → is_name i rows ≡ true
    → remove_found ip i rows ≡ some (without (is_match ip i) rows)
unfolding remove_found
remove_found_lem ip i rows d h =
    let l = locate ip i rows d h in
    elim (Bool-cases (text_eq l.at.ip_item.text ip)) [
      | inl t ↦ rw (l.found, remove_found) (rw l.there (rw (t, l.other) (ap some (l.removes t))))
      | inr t ↦ rw (l.found, remove_found) (rw l.there (rw t (ap some (sym (l.leaves t)))))
    ]

without-keeps-Lacks :
    (p : Row → Bool) (i : ℕ) (rows : List Row) → Lacks i rows → Lacks i (without p rows)
without-keeps-Lacks p i [] l = tt
without-keeps-Lacks p i (r ∷ rs) l = ground (arith, without-keeps-Lacks p i rs l.1)

without-IsDistinct :
    (p : Row → Bool) (rows : List Row) → IsDistinct rows → IsDistinct (without p rows)
without-IsDistinct p [] d = tt
without-IsDistinct p (r ∷ rs) d = ground (
  arith,
  without-IsDistinct p rs d.3,
  without-keeps-Lacks p r.name_item.pointer rs d.1,
  without-keeps-Lacks p r.ip_item.pointer rs d.2,
)

without-is_name :
    (ip : Text) (i j : ℕ) (rows : List Row)
    → (i == j) ≡ false
    → is_name j rows ≡ true
    → is_name j (without (is_match ip i) rows) ≡ true
without-is_name ip i j [] ne h = cc
without-is_name ip i j (r ∷ rs) ne h = ground (arith, without-is_name ip i j rs ne)

-- Whether a list of pointers has one.
abbrev pub mem : ℕ → List ℕ → Bool
mem i [] = false
mem i (j ∷ js) = j == i || mem i js

abbrev pub NoDuplicate : List ℕ → Type 0
NoDuplicate [] = Unit {0}
NoDuplicate (i ∷ rest) = (mem i rest ≡ false) × NoDuplicate rest

-- A row whose first item is in the list and whose second shows `ip`.
abbrev pub is_listed : Text → List ℕ → Row → Bool
is_listed ip found r = mem r.name_item.pointer found && text_eq r.ip_item.text ip

without-without :
    (ip : Text) (i : ℕ) (found : List ℕ) (rows : List Row)
    → without (is_listed ip found) (without (is_match ip i) rows)
      ≡ without (is_listed ip (i ∷ found)) rows
without-without ip i found [] = refl
without-without ip i found (r ∷ rs) = ground (arith, without-without ip i found rs)

without_none : (ip : Text) (rows : List Row) → without (is_listed ip []) rows ≡ rows
without_none ip [] = refl
without_none ip (r ∷ rs) = ap (λ l. r ∷ l) (without_none ip rs)

mem_ne : (i j : ℕ) (found : List ℕ) → mem i found ≡ false → mem j found ≡ true → (i == j) ≡ false
mem_ne i j [] a b = cc
mem_ne i j (k ∷ found) a b = ground (arith, mem_ne i j found)

remove_each_lem :
    (ip : Text) (found : List ℕ) (rows : List Row)
    → IsDistinct rows
    → NoDuplicate found
    → ((i : ℕ) → mem i found ≡ true → is_name i rows ≡ true)
    → remove_each ip found rows ≡ some (without (is_listed ip found) rows)
unfolding remove_each
remove_each_lem ip [] rows d n h = ap some (sym (without_none ip rows))
remove_each_lem ip (i ∷ found) rows d n h =
    rw (remove_found_lem ip i rows d (h i (ground arith)), remove_each)
      (remove_each_lem ip found (without (is_match ip i) rows) (without-IsDistinct _ rows d) n.1
          (λ j m. without-is_name ip i j rows (mem_ne i j found n.0 m) (h j (ground arith)))
        ∙ ap some (without-without ip i found rows))

-- Some row shows the text in the item, in either column.
abbrev pub shows : ℕ → Text → List Row → Bool
shows i text [] = false
shows i text (r ∷ rs) =
    (r.name_item.pointer == i && text_eq r.name_item.text text)
    || (r.ip_item.pointer == i && text_eq r.ip_item.text text)
    || shows i text rs

-- What findItems lists for a text with MatchExactly: each item of the table that shows it, once.
pub record Finds (rows : List Row) (text : Text) (found : List ℕ) : Type 0 where
  pub once : NoDuplicate found
  pub all : (i : ℕ) → mem i found ≡ shows i text rows

-- No address in the table is the text.
abbrev pub NoAddress : Text → List Row → Type 0
NoAddress text [] = Unit {0}
NoAddress text (r ∷ rs) = (text_eq r.ip_item.text text ≡ false) × NoAddress text rs

-- A row of a name and an address.
abbrev pub is_row : Text → Text → Row → Bool
is_row name ip r = text_eq r.name_item.text name && text_eq r.ip_item.text ip

shows-is_name :
    (i : ℕ) (text : Text) (rows : List Row)
    → NoAddress text rows
    → shows i text rows ≡ true
    → is_name i rows ≡ true
shows-is_name i text [] no_address h = cc
shows-is_name i text (r ∷ rs) no_address h = ground (arith, shows-is_name i text rs no_address.1)

Lacks-shows : (i : ℕ) (text : Text) (rows : List Row) → Lacks i rows → shows i text rows ≡ false
Lacks-shows i text [] l = refl
Lacks-shows i text (r ∷ rs) l = ground (arith, Lacks-shows i text rs l.1)

listed_rows :
    (name ip : Text) (found : List ℕ) (rows : List Row)
    → IsDistinct rows
    → ((i : ℕ) → is_name i rows ≡ true → mem i found ≡ shows i name rows)
    → without (is_listed ip found) rows ≡ without (is_row name ip) rows
listed_rows name ip found [] d all = refl
listed_rows name ip found (r ∷ rs) d all =
    let rest = listed_rows name ip found rs d.3 (λ i h. ground (
      arith,
      all i,
      ne_of_Lacks r.name_item.pointer i rs d.1,
      ne_of_Lacks r.ip_item.pointer i rs d.2,
    )) in
    ground (arith, rest, all r.name_item.pointer, d.0, Lacks-shows r.name_item.pointer name rs d.1)

-- removeService on a table in which each item stands in one place, when findItems lists each item
-- that shows the name once, in any order, and no address in the table is the name: no deleted item
-- is used, and of the table just the rows of the name and the address are gone.
pub remove_rows_lem :
    (q : Search) (rows : List Row) (name ip : Text)
    → IsDistinct rows
    → Finds rows name (q.find_items rows name)
    → NoAddress name rows
    → remove_rows q rows name ip ≡ some (without (is_row name ip) rows)
unfolding remove_rows
remove_rows_lem q rows name ip d f no_address =
    let found = q.find_items rows name in
    remove_each_lem ip found rows d f.once
      (λ i m. shows-is_name i name rows no_address (sym (f.all i) ∙ m))
    ∙ ap some (listed_rows name ip found rows d (λ i _. f.all i))
