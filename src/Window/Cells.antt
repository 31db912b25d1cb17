-- ===== src/Window/Cells.antt =====
-- example/window.cpp: the table of services, a QTableWidget with two columns, and the slots that
-- fill and empty it. A QTableWidgetItem is named by a number that is its own for good: no item that
-- a row holds has the number of a deleted one.
use mathlib.Core.Option
use qt_zero_conf.Base.{
  ◌+◌, zero, get_elem?, [], ◌||◌, some, none, ◌==◌, if◌then◌else◌, suc, Option, ◌++◌, Bool, ◌∷◌,
  List, ℕ,
}
use qt_zero_conf.Text.{text_eq, Text}

pub record Item : Type 0 where
  pub pointer : ℕ
  pub text : Text

-- A row that addService has made: an item in each of the two columns.
pub record Row : Type 0 where
  pub name_item : Item
  pub ip_item : Item

-- The rows, and how many items were made.
pub record Table : Type 0 where
  pub rows : List Row
  pub made : ℕ

-- What the program takes of QTableWidget: the items that findItems lists for a text, by their
-- pointers.
pub record Search : Type 0 where
  pub find_items : List Row → Text → List ℕ

-- `insertRow(rowCount())`, and a new item in each column.
unfoldable pub add_row : Table → Text → Text → Table
add_row t name ip = record {
  rows =
      t.rows
      ++ record {
        name_item = record { pointer = t.made; text = name };
        ip_item = record { pointer = suc t.made; text = ip };
      }
        ∷ [];
  made = t.made + 2;
}

abbrev pub has_item : ℕ → Row → Bool
has_item i r = r.name_item.pointer == i || r.ip_item.pointer == i

-- `nameItem->row()`; `none` if the item is deleted.
unfoldable pub row_of : ℕ → List Row → Option ℕ
row_of i [] = none
row_of i (r ∷ rs) = if has_item i r then some 0 else Option.map suc (row_of i rs)

-- removeRow
unfoldable pub remove_row : ℕ → List Row → List Row
remove_row k [] = []
remove_row zero (r ∷ rs) = rs
remove_row (suc k) (r ∷ rs) = r ∷ remove_row k rs

-- `delete nameItem; delete ipItem; table.removeRow(row);`, a fault if the two are one item.
abbrev pub delete_row : ℕ → ℕ → Row → List Row → Option (List Row)
delete_row i row r rows = if r.ip_item.pointer == i then none else some (remove_row row rows)

-- The body of the loop of removeService for the item `i`: `none` if the item, or the row's second
-- one, is deleted already.
unfoldable pub remove_found : Text → ℕ → List Row → Option (List Row)
remove_found ip i rows = elim (row_of i rows) [
  | none ↦ none
  | some row ↦ elim (get_elem? rows row) [
    | none ↦ none
    | some r ↦ if text_eq r.ip_item.text ip then delete_row i row r rows else some rows
  ]
]

-- The loop over the items that were found.
unfoldable pub remove_each : Text → List ℕ → List Row → Option (List Row)
remove_each ip [] rows = some rows
remove_each ip (i ∷ found) rows = elim (remove_found ip i rows) [
  | none ↦ none
  | some rows' ↦ remove_each ip found rows'
]

-- removeService for a service by its name and its address as texts.
unfoldable pub remove_rows : Search → List Row → Text → Text → Option (List Row)
remove_rows q rows name ip = remove_each ip (q.find_items rows name) rows
