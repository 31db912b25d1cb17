-- ===== src/ZeroConf.antt =====
-- qzeroconf.h: the class QZeroConf as an application sees it, whatever wrapper stands behind it.
use qt_zero_conf.Text.{Text}
use qt_zero_conf.Base.{[], true, ◌∷◌, false, ℕ, List, ◌≡◌, Bool}
use qt_zero_conf.Avahi.{LayerProtocol, ipv4_protocol}
use qt_zero_conf.Service.{calls, emits, ServiceData, Signal, Effect}

-- The methods that change the object, with their arguments.
pub data Request : Type 0 where
  start_service_publish : Text → Text → Text → ℕ → ℕ → Request
  stop_service_publish stop_browser clear_service_txt_records : Request
  start_browser : Text → LayerProtocol → Request
  add_service_txt_name : Text → Request
  add_service_txt_record : Text → Text → Request

-- `startBrowser(type)`
unfoldable pub start_browser_ipv4 : Text → Request
start_browser_ipv4 type = start_browser type ipv4_protocol

-- A wrapper as the class shows it: its states, what the library beneath answers to a request, and
-- what that library calls back. A request and a callback emit signals, in order. `service` is the
-- object of a QZeroConfService, which the slots of the application read; a wrapper writes to its
-- objects before it emits.
pub record ZeroConf : Type 1 where
  pub Wrapper : Type 0
  pub Reply : Type 0
  pub Callback : Type 0
  pub request : Wrapper → Request → Reply → Wrapper × List Signal
  pub callback : Wrapper → Callback → Wrapper × List Signal
  pub publish_exists : Wrapper → Bool
  pub browser_exists : Wrapper → Bool
  pub service : Wrapper → ℕ → ServiceData

-- The requests that do not publish.
abbrev pub is_quiet : Request → Bool
is_quiet (start_service_publish name type domain port interface) = false
is_quiet _ = true

-- What an application relies on that stops a publication: it is gone at once, and none comes but by
-- startServicePublish.
pub record IsPrompt (z : ZeroConf) : Type 0 where
  pub stopped :
      (w : z.Wrapper) (r : z.Reply)
      → z.publish_exists (z.request w stop_service_publish r).0 ≡ false
  pub quiet :
      (w : z.Wrapper) (q : Request) (r : z.Reply)
      → is_quiet q ≡ true
      → z.publish_exists w ≡ false
      → z.publish_exists (z.request w q r).0 ≡ false
  pub unasked :
      (w : z.Wrapper) (c : z.Callback)
      → z.publish_exists w ≡ false
      → z.publish_exists (z.callback w c).0 ≡ false

module _ {C : Type 0} where
  -- The signals among the effects of an operation.
  abbrev pub signals : List (Effect C) → List Signal
  signals [] = []
  signals (emits e ∷ es) = e ∷ signals es
  signals (calls c ∷ es) = signals es
