-- ===== src/Window/Name.antt =====
-- example/window.cpp: the name under which the example publishes.
use qt_zero_conf.Window.{os_name, System, build_name, remove_colons}
use qt_zero_conf.Text.{codes, Text}
use qt_zero_conf.Base.{drop-length, sym, ◌∙◌, refl, drop, [], arith, ap, ◌∷◌, ◌≡◌, length, ◌++◌}

remove_colons-append : (a b : Text) → remove_colons (a ++ b) ≡ remove_colons a ++ remove_colons b
unfolding remove_colons
remove_colons-append [] b = refl
remove_colons-append (c ∷ a) b = ground (arith, remove_colons-append a b)

-- The name has of the hardware address what stands behind its first six digits, whatever the
-- colons: with two digits a byte, the last three bytes of six.
pub build_name_tail :
    (system : System) (vendor device : Text)
    → length (remove_colons vendor) ≡ 6
    → build_name system (vendor ++ device)
      ≡ (codes "Qt ZeroConf Test - " ++ os_name system ++ codes " (")
        ++ remove_colons device
        ++ codes ")"
unfolding build_name
build_name_tail system vendor device h =
    let front = codes "Qt ZeroConf Test - " ++ os_name system ++ codes " (" in
    ap (λ t. front ++ drop 6 t ++ codes ")") (remove_colons-append vendor device)
    ∙ ap (λ n. front ++ drop n (remove_colons vendor ++ remove_colons device) ++ codes ")") (sym h)
    ∙ ap (λ t. front ++ t ++ codes ")") (drop-length (remove_colons vendor) (remove_colons device))
