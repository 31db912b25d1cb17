-- ===== src/AndroidNsd/Interface.antt =====
-- androidnsd.cpp as the class QZeroConf: the methods of QZeroConf for one object of the process, and
-- what the Android thread and the event loop do between them.
use qt_zero_conf.AndroidNsd
use qt_zero_conf.AndroidNsd.Threads
use qt_zero_conf.ZeroConf.{Request, ZeroConf, signals}
use qt_zero_conf.Base.{get_elem?, none, some, set, false, Bool, Option, [], List, ℕ}
use qt_zero_conf.Service.{object_or_blank, blank, Signal}

-- The methods of QZeroConf for the object `i`, which is there with the members `s`; `suspended` is
-- `applicationState() == Qt::ApplicationSuspended`. A domain, an interface and a protocol are left
-- out: "Not supported on Android API".
unfoldable pub invoke_request :
    AndroidNsd.Platform
    → Threads.World
    → ℕ
    → AndroidNsd.State
    → Request
    → Bool
    → Threads.World × AndroidNsd.Effects
unfolding Threads.start_service_publish Threads.stop_service_publish Threads.start_browser
    Threads.stop_browser AndroidNsd.clear_service_txt_records AndroidNsd.add_service_txt_name
    AndroidNsd.add_service_txt_record
invoke_request p w i s (Request.start_service_publish name type domain port interface) suspended =
    (Threads.start_service_publish w i s name type port, [])
invoke_request p w i s Request.stop_service_publish suspended =
    Threads.stop_service_publish w i suspended
invoke_request p w i s (Request.start_browser type protocol) suspended =
    (Threads.start_browser w i type, [])
invoke_request p w i s Request.stop_browser suspended = Threads.stop_browser w i suspended
invoke_request p w i s Request.clear_service_txt_records suspended =
    (record w { heap = set w.heap i (some (AndroidNsd.clear_service_txt_records s)) }, [])
invoke_request p w i s (Request.add_service_txt_name name) suspended =
    (record w { heap = set w.heap i (some (AndroidNsd.add_service_txt_name p s name)) }, [])
invoke_request p w i s (Request.add_service_txt_record name value) suspended =
    (record w { heap = set w.heap i (some (AndroidNsd.add_service_txt_record p s name value)) }, [])

-- What happens between the methods: a native method is called for the object, and the event loop
-- takes the slot that is queued first.
pub data Callback : Type 0 where
  posts : AndroidNsd.Slot → Callback
  delivers : Callback

-- A method of an object that may be deleted.
abbrev pub on_object : {A : Type 0} → Option AndroidNsd.State → A → (AndroidNsd.State → A) → A
on_object none a f = a
on_object (some s) a f = f s

module _ (p : AndroidNsd.Platform) (i : ℕ) where
  abbrev pub shown : Threads.World × AndroidNsd.Effects → Threads.World × List Signal
  shown q = (q.0, signals q.1)

  abbrev pub called : Threads.World → Callback → Threads.World × AndroidNsd.Effects
  called w (posts slot) = (Threads.post w i slot, [])
  called w delivers = Threads.deliver p w

  -- The class QZeroConf over the Java class QZeroConfNsdManager, for the object `i`. After the object
  -- is deleted there is no method to call.
  abbrev pub android_zero_conf : ZeroConf
  android_zero_conf = record {
    Wrapper = Threads.World;
    Reply = Bool;
    Callback = Callback;
    request = λ w q suspended.
        shown (on_object (Threads.object w i) (w, []) (λ s. invoke_request p w i s q suspended));
    callback = λ w c. shown (called w c);
    publish_exists = λ w. on_object (Threads.object w i) false AndroidNsd.publish_exists;
    browser_exists = λ w. on_object (Threads.object w i) false AndroidNsd.browser_exists;
    service =
        λ w h. on_object (Threads.object w i) blank (λ s. object_or_blank (get_elem? s.objects h));
  }
