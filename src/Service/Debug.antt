-- ===== src/Service/Debug.antt =====
-- qzeroconfservice.cpp: a service in the debug output.
use qt_zero_conf.Base.{◌++◌, ℕ}
use qt_zero_conf.Text.{codes, Text}
use qt_zero_conf.Service.{ServiceData}

-- `operator<<`; `ip` is `ip().toString()` and `number` is QString::number.
unfoldable pub debug_text : (ℕ → Text) → (Text → Text) → ServiceData → Text
debug_text number to_string d =
    codes "Zeroconf Service: "
    ++ d.name
    ++ codes " @ "
    ++ d.host
    ++ codes " ("
    ++ to_string d.ip
    ++ codes ":"
    ++ number d.port
    ++ codes ")"
