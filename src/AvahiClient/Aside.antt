-- ===== src/AvahiClient/Aside.antt =====
-- avahiclient.cpp: the entries that touch neither the services nor the resolvers.
use qt_zero_conf.Base.{true, false, Bool, ℕ, ◌≡◌, refl, Option, none, arith}
use qt_zero_conf.Text.{Text}
use qt_zero_conf.Service.{Externals}
use qt_zero_conf.Avahi.{EntryGroupState, uncommited, LayerProtocol, Replies}
use qt_zero_conf.AvahiClient.{group_callback, State}
use qt_zero_conf.AvahiClient.Api.{
  step, start_service_publish, stop_service_publish, start_browser, starts_publish, stops_publish,
  clears_txt, stops_browser, starts_browser, adds_txt_name, adds_txt_record, group_changes, browses,
  Entry, resolves,
}

-- Two states file the same services, objects and resolvers, and a browser is not lost.
pub record IsSameView (s t : State) : Type 0 where
  pub objects : t.objects ≡ s.objects
  pub services : t.services ≡ s.services
  pub resolvers : t.resolvers ≡ s.resolvers
  pub idle : t.browser ≡ none → s.browser ≡ none

same : (s : State) → IsSameView s s
same s = record { objects = refl; services = refl; resolvers = refl; idle = λ h. h }

publish-IsSameView :
    (s : State) (name type domain : Text) (port interface : ℕ) (r : Replies)
    → IsSameView s (start_service_publish s name type domain port interface r).0
unfolding start_service_publish
publish-IsSameView s name type domain port interface r = ground arith

stop-IsSameView : (s : State) → IsSameView s (stop_service_publish s).0
unfolding stop_service_publish
stop-IsSameView s = ground arith

group-IsSameView :
    (s : State) (g : Option ℕ) (state : EntryGroupState) → IsSameView s (group_callback s g state).0
unfolding group_callback
group-IsSameView s g uncommited = same s
group-IsSameView s g _ = record { objects = refl; services = refl; resolvers = refl; idle = λ h. h }

browser-IsSameView :
    (x : Externals) (s : State) (type : Text) (protocol : LayerProtocol) (b : Option ℕ)
    → IsSameView s (start_browser x s type protocol b).0
unfolding start_browser
browser-IsSameView x s type protocol b = ground arith

-- The entries that touch neither the services nor the resolvers.
abbrev pub is_aside : Entry → Bool
is_aside stops_browser = false
is_aside (browses e r) = false
is_aside (resolves e) = false
is_aside _ = true

pub aside-IsSameView :
    (x : Externals) (s : State) (e : Entry) → is_aside e ≡ true → IsSameView s (step x s e).0
unfolding step
aside-IsSameView x s (starts_publish name type domain port interface r) h =
    publish-IsSameView s name type domain port interface r
aside-IsSameView x s stops_publish h = stop-IsSameView s
aside-IsSameView x s clears_txt h = record {
  objects = refl;
  services = refl;
  resolvers = refl;
  idle = λ h. h;
}
aside-IsSameView x s stops_browser h = cc
aside-IsSameView x s (starts_browser type protocol b) h = browser-IsSameView x s type protocol b
aside-IsSameView x s (adds_txt_name name) h = record {
  objects = refl;
  services = refl;
  resolvers = refl;
  idle = λ h. h;
}
aside-IsSameView x s (adds_txt_record name value) h = record {
  objects = refl;
  services = refl;
  resolvers = refl;
  idle = λ h. h;
}
aside-IsSameView x s (group_changes g state) h = group-IsSameView s g state
aside-IsSameView x s (browses e r) h = cc
aside-IsSameView x s (resolves e) h = cc
