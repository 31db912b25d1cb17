-- ===== src/AvahiClient/Keys.antt =====
-- avahiclient.cpp: the keys `name + QString::number(interface)`, and two services with one key.
use qt_zero_conf.AvahiClient.{State, on_browser_new, on_browser_event, browse_callback}
use qt_zero_conf.Service.{Externals, service_key}
use qt_zero_conf.Text.{Text}
use qt_zero_conf.Base.{[], some, append_assoc, ◌++◌, Option, ◌≡◌, ℕ}
use qt_zero_conf.Avahi.{browser_new, Browse}
use qt_zero_conf.QMap.{lookup}

-- The digits between the name and the interface belong to either: a name that ends in the digits
-- by which the number of the other interface is longer has the other's key.
service_key-collides :
    (x : Externals) (name digits : Text) (i j : ℕ)
    → x.number j ≡ digits ++ x.number i
    → service_key x (name ++ digits) i ≡ service_key x name j
unfolding service_key
service_key-collides x name digits i j h = rw (h, append_assoc)

-- Of two services whose keys are one in this way, the second is ignored while the first has a
-- resolver: no resolver is made for it, and nothing is signalled.
pub browse_new_ignored :
    (x : Externals) (s : State) (e : Browse) (digits : Text) (j : ℕ) (q r : Option ℕ)
    → x.number j ≡ digits ++ x.number e.interface
    → lookup (service_key x (e.name ++ digits) e.interface) s.resolvers ≡ some q
    → let other : Browse = record e { event = browser_new; interface = j } in
      browse_callback x s other r ≡ (s, [])
unfolding browse_callback on_browser_event on_browser_new
browse_new_ignored x s e digits j q r h has =
    rw (← service_key-collides x e.name digits e.interface j h) (rw has)
