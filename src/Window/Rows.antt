-- ===== src/Window/Rows.antt =====
-- example/window.cpp: the rows of the table after addService.
use qt_zero_conf.Base.{◌++◌, false, [], ◌∷◌, ◌≤◌, ◌+◌, ◌<◌, ◌≡◌, arith, List, Bool, ℕ}
use qt_zero_conf.Window.Cells.{has_item, Row, add_row, Table}
use qt_zero_conf.Text.{text_eq, Text}
use qt_zero_conf.Window.Removal.{without, NoAddress, Lacks, IsDistinct}

-- No item of the table has a number that is not given out yet.
abbrev pub IsBelow : ℕ → List Row → Type 0
IsBelow n [] = Unit {0}
IsBelow n (r ∷ rs) = (r.name_item.pointer < n) × (r.ip_item.pointer < n) × IsBelow n rs

-- What addService keeps of a table.
pub record IsValid (t : Table) : Type 0 where
  pub distinct : IsDistinct t.rows
  pub below : IsBelow t.made t.rows

IsBelow-Lacks : (i n : ℕ) (rows : List Row) → IsBelow n rows → n ≤ i → Lacks i rows
IsBelow-Lacks i n [] b h = tt
IsBelow-Lacks i n (r ∷ rs) b h = ground (arith, IsBelow-Lacks i n rs b.2)

IsBelow-mono : (n m : ℕ) (rows : List Row) → n ≤ m → IsBelow n rows → IsBelow m rows
IsBelow-mono n m [] h b = tt
IsBelow-mono n m (r ∷ rs) h b = (omega arith, omega arith, IsBelow-mono n m rs h b.2)

IsBelow-snoc :
    (n : ℕ) (rows : List Row) (r : Row)
    → IsBelow n rows
    → r.name_item.pointer < n
    → r.ip_item.pointer < n
    → IsBelow n (rows ++ r ∷ [])
IsBelow-snoc n [] r b h k = (h, k, tt)
IsBelow-snoc n (q ∷ rs) r b h k = (b.0, b.1, IsBelow-snoc n rs r b.2 h k)

Lacks-snoc :
    (i : ℕ) (rows : List Row) (r : Row)
    → Lacks i rows
    → has_item i r ≡ false
    → Lacks i (rows ++ r ∷ [])
Lacks-snoc i [] r l h = (h, tt)
Lacks-snoc i (q ∷ rs) r l h = (l.0, Lacks-snoc i rs r l.1 h)

IsDistinct-snoc :
    (n : ℕ) (rows : List Row) (r : Row)
    → IsBelow n rows
    → n ≤ r.name_item.pointer
    → r.name_item.pointer < r.ip_item.pointer
    → IsDistinct rows
    → IsDistinct (rows ++ r ∷ [])
IsDistinct-snoc n [] r b h k d = (ground arith, tt, tt, tt)
IsDistinct-snoc n (q ∷ rs) r b h k d = (
  d.0,
  Lacks-snoc q.name_item.pointer rs r d.1 (ground arith),
  Lacks-snoc q.ip_item.pointer rs r d.2 (ground arith),
  IsDistinct-snoc n rs r b.2 h k d.3,
)

-- addService keeps every item in one place.
pub add_row-IsValid : (t : Table) (name ip : Text) → IsValid t → IsValid (add_row t name ip)
unfolding add_row
add_row-IsValid t name ip v = record {
  distinct = IsDistinct-snoc t.made t.rows _ v.below (omega arith) (omega arith) v.distinct;
  below =
      IsBelow-snoc (t.made + 2) t.rows _
        (IsBelow-mono t.made (t.made + 2) t.rows (omega arith) v.below) (omega arith) (omega arith);
}

pub without-snoc_kept :
    (test : Row → Bool) (rows : List Row) (r : Row)
    → test r ≡ false
    → without test (rows ++ r ∷ []) ≡ without test rows ++ r ∷ []
without-snoc_kept test [] r h = rw h
without-snoc_kept test (q ∷ rs) r h = ground (arith, without-snoc_kept test rs r h)

pub NoAddress-snoc :
    (text : Text) (rows : List Row) (r : Row)
    → NoAddress text rows
    → text_eq r.ip_item.text text ≡ false
    → NoAddress text (rows ++ r ∷ [])
NoAddress-snoc text [] r n h = (h, tt)
NoAddress-snoc text (q ∷ rs) r n h = (n.0, NoAddress-snoc text rs r n.1 h)
