-- ===== src/Window/Stale.antt =====
-- example/window.cpp: rows that stay, and items that are used after they are deleted.
use mathlib.Core.Option
use qt_zero_conf.Window.{remove_from, remove_service, update_service, Window, add_service, Platform}
use qt_zero_conf.Window.Cells.{
  remove_row, row_of, remove_found, remove_each, remove_rows, Row, Search, Table, add_row,
}
use qt_zero_conf.Text.{text_eq, Text}
use qt_zero_conf.ZeroConf.{ZeroConf}
use qt_zero_conf.Window.Rows.{without-snoc_kept, NoAddress-snoc, add_row-IsValid, IsValid}
use qt_zero_conf.Base.{
  refl, ◌==◌, ℕ, arith, ◌∙◌, inr, ap, inl, none, ◌⊎◌, true, [], ◌∷◌, ◌++◌, some, false, ◌≡◌, List,
  suc, Option,
}
use qt_zero_conf.Window.Removal.{
  Lacks, IsDistinct, remove_rows_lem, is_row, without, Finds, NoAddress,
}
use qt_zero_conf.Service.{ServiceData}

-- The row that addService makes.
abbrev pub new_row : Table → Text → Text → Row
new_row t name ip = record {
  name_item = record { pointer = t.made; text = name };
  ip_item = record { pointer = suc t.made; text = ip };
}

-- removeService on a table to which a row is added, when the name is no address.
remove-add_row :
    (q : Search) (t : Table) (name old ip : Text)
    → IsValid t
    → NoAddress name t.rows
    → text_eq old name ≡ false
    → Finds (add_row t name old).rows name (q.find_items (add_row t name old).rows name)
    → remove_rows q (add_row t name old).rows name ip
      ≡ some (without (is_row name ip) (t.rows ++ new_row t name old ∷ []))
unfolding add_row
remove-add_row q t name old ip v n o f =
    remove_rows_lem q (add_row t name old).rows name ip (add_row-IsValid t name old v).distinct f
      (NoAddress-snoc name t.rows (new_row t name old) n o)

module _ (p : Platform) (z : ZeroConf) where
  -- The rows of the window.
  abbrev pub rows_of : Window p z → Option (List Row)
  rows_of w = Option.map (λ (t : Table). t.rows) w.table

  -- A service is added, its address changes, and it is removed. The slot of serviceUpdated leaves
  -- the table, and the slot of serviceRemoved looks for the new address: if no address in the table
  -- is the name, and findItems lists each item of the name once, then the row of the old address
  -- is still in the table after the removal.
  pub stale_row :
      (w : Window p z) (t : Table) (d : ServiceData) (ip : Text)
      → w.table ≡ some t
      → IsValid t
      → NoAddress d.name t.rows
      → text_eq (p.to_string d.ip) d.name ≡ false
      → text_eq (p.to_string d.ip) (p.to_string ip) ≡ false
      → Finds
          (add_row t d.name (p.to_string d.ip)).rows
          d.name
          (p.search.find_items (add_row t d.name (p.to_string d.ip)).rows d.name)
      → let moved = record d { ip = ip } in
        let w' = remove_service p z (update_service p z (add_service p z w d) moved) moved in
        rows_of w'
        ≡ some (
            without (is_row d.name (p.to_string ip)) t.rows
            ++ new_row t d.name (p.to_string d.ip) ∷ [])
  unfolding add_service update_service remove_service
  stale_row w t d ip e v n o moved f =
      let added = λ (o : Option Table). Option.map (λ t. add_row t d.name (p.to_string d.ip)) o in
      let removed = λ (o : Option Table). elim o as (λ _. Option Table) [
        | none ↦ none
        | some t ↦ remove_from p z t (record d { ip = ip })
      ] in
      let rows = λ (o : Option Table). Option.map (λ (t : Table). t.rows) o in
      ap (λ o. rows (removed (added o))) e
      ∙ ap
          (λ o.
            rows (Option.map (λ l. record (add_row t d.name (p.to_string d.ip)) { rows = l }) o))
          (remove-add_row p.search t d.name (p.to_string d.ip) (p.to_string ip) v n o f)
      ∙ ap some (
          without-snoc_kept (is_row d.name (p.to_string ip)) t.rows
            (new_row t d.name (p.to_string d.ip)) (ground (arith, moved)))

row_of-Lacks : (i : ℕ) (rows : List Row) → Lacks i rows → row_of i rows ≡ none
unfolding row_of
row_of-Lacks i [] l = refl
row_of-Lacks i (r ∷ rs) l = rw (l.0, row_of-Lacks i rs l.1) refl

-- The loop's body at a deleted item, and at the two items of the first row.
gone_item : (ip : Text) (i : ℕ) (rows : List Row) → Lacks i rows → remove_found ip i rows ≡ none
unfolding remove_found
gone_item ip i rows l = rw (row_of-Lacks i rows l, remove_found) refl

same_refl : (i : ℕ) → (i == i) ≡ true
same_refl i = ground arith

name_of_first :
    (ip : Text) (r : Row) (rows : List Row)
    → IsDistinct (r ∷ rows)
    → text_eq r.ip_item.text ip ≡ true
    → remove_found ip r.name_item.pointer (r ∷ rows) ≡ some rows
unfolding remove_found row_of remove_row
name_of_first ip r rows d same = ground (arith, d.0)

ip_of_first :
    (ip : Text) (r : Row) (rows : List Row)
    → text_eq r.ip_item.text ip ≡ true
    → remove_found ip r.ip_item.pointer (r ∷ rows) ≡ none
unfolding remove_found row_of
ip_of_first ip r rows same = ground arith

-- A service whose name is its address as a text, in the table's first row: findItems lists both
-- items of the row, and removeService uses one of them after it is deleted, in whichever order they
-- come.
pub deleted_item :
    (q : Search) (r : Row) (rows : List Row) (text : Text)
    → IsDistinct (r ∷ rows)
    → text_eq r.ip_item.text text ≡ true
    → (q.find_items (r ∷ rows) text ≡ r.name_item.pointer ∷ r.ip_item.pointer ∷ [])
      ⊎ (q.find_items (r ∷ rows) text ≡ r.ip_item.pointer ∷ r.name_item.pointer ∷ [])
    → remove_rows q (r ∷ rows) text text ≡ none
unfolding remove_rows remove_each
deleted_item q r rows text d same (inl e) =
    ap (λ l. remove_each text l (r ∷ rows)) e
    ∙ rw (name_of_first text r rows d same, remove_each)
        (rw (gone_item text r.ip_item.pointer rows d.2, remove_each) refl)
deleted_item q r rows text d same (inr e) =
    ap (λ l. remove_each text l (r ∷ rows)) e ∙ rw (ip_of_first text r rows same, remove_each) refl
