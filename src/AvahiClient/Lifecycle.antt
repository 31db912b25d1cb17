-- ===== src/AvahiClient/Lifecycle.antt =====
-- avahiclient.cpp: the resolvers, browsers and entry groups that the wrapper makes and frees.
use qt_zero_conf.QMap.Count.{count}
use qt_zero_conf.Avahi.Resources.{
  Balanced-append, browser, resolver, entry_group, freed, made, Kind,
}
use qt_zero_conf.AvahiClient.{group_callback, State}
use qt_zero_conf.Base.{true, refl, [], arith, ◌∷◌, ◌≡◌, Option, List, ℕ}
use qt_zero_conf.AvahiClient.Cases.{browse_cases}
use qt_zero_conf.Service.{calls, Externals}
use qt_zero_conf.Avahi.{
  string_list_free, uncommited, LayerProtocol, EntryGroupState, Replies, Effects,
}
use qt_zero_conf.AvahiClient.Invariant.{step-IsValid, AllowedAll, IsValid}
use qt_zero_conf.AvahiClient.Api.{
  stops_browser, clears_txt, stops_publish, resolves, browses, adds_txt_record, adds_txt_name,
  starts_browser, group_changes, add_service_txt_record, add_service_txt_name, starts_publish,
  clear_service_txt_records, stop_service_publish, start_browser, run, Entry, start_service_publish,
  step,
}
use qt_zero_conf.Text.{Text}
use qt_zero_conf.AvahiClient.Conserves.{
  resolve-Conserves, failed-Conserves, browser_remove-Conserves, browser_new-Conserves,
  clean_up-Conserves, kept, Conserves,
}

-- The library reports a change of the group that the wrapper keeps, and a service that was added
-- is committed.
abbrev pub IsClean : State → Entry → Type 0
IsClean s (starts_publish name type domain port interface r) =
    (r.added ≡ true) → (r.committed ≡ true)
IsClean s (group_changes g state) = g ≡ s.group
IsClean s _ = Unit {0}

publish-Conserves :
    (k : Kind) (s : State) (name type domain : Text) (port interface : ℕ) (r : Replies)
    → (k ≡ entry_group → r.added ≡ true → r.committed ≡ true)
    → Conserves k s (start_service_publish s name type domain port interface r)
unfolding start_service_publish count
publish-Conserves entry_group s name type domain port interface r ok p = ground (arith, ok refl)
publish-Conserves browser s name type domain port interface r ok p = ground arith
publish-Conserves resolver s name type domain port interface r ok p = ground arith

group-Conserves :
    (k : Kind) (s : State) (g : Option ℕ) (state : EntryGroupState)
    → (k ≡ entry_group → g ≡ s.group)
    → Conserves k s (group_callback s g state)
unfolding group_callback count
group-Conserves entry_group s g uncommited ok p = ground arith
group-Conserves entry_group s g _ ok p = ground (arith, ok refl)
group-Conserves browser s g uncommited ok p = ground arith
group-Conserves browser s g _ ok p = ground arith
group-Conserves resolver s g uncommited ok p = ground arith
group-Conserves resolver s g _ ok p = ground arith

stop-Conserves : (k : Kind) (s : State) → Conserves k s (stop_service_publish s)
unfolding stop_service_publish count
stop-Conserves entry_group s p = ground arith
stop-Conserves browser s p = ground arith
stop-Conserves resolver s p = ground arith

start_browser-Conserves :
    (x : Externals) (k : Kind) (s : State) (type : Text) (protocol : LayerProtocol) (b : Option ℕ)
    → Conserves k s (start_browser x s type protocol b)
unfolding start_browser count
start_browser-Conserves x entry_group s type protocol b p = ground arith
start_browser-Conserves x browser s type protocol b p = ground arith
start_browser-Conserves x resolver s type protocol b p = ground arith

-- Nothing is made or freed, and the pointers are those of before.
idle-Conserves :
    (k : Kind) (s : State) (txt : List Text) (effects : Effects)
    → ((p : ℕ) → (made k p effects ≡ 0) × (freed k p effects ≡ 0))
    → Conserves k s (record s { txt = txt }, effects)
idle-Conserves entry_group s txt effects q p = omega (arith, q p)
idle-Conserves browser s txt effects q p = omega (arith, q p)
idle-Conserves resolver s txt effects q p = omega (arith, q p)

-- Every entry conserves the objects of the library: what it makes and what the wrapper kept before
-- are what it frees and what the wrapper keeps afterwards.
pub step-Conserves :
    (x : Externals) (k : Kind) (s : State) (e : Entry)
    → IsValid x s
    → (k ≡ entry_group → IsClean s e)
    → Conserves k s (step x s e)
unfolding step clear_service_txt_records count add_service_txt_name add_service_txt_record
step-Conserves x k s (starts_publish name type domain port interface r) v ok =
    publish-Conserves k s name type domain port interface r ok
step-Conserves x k s stops_publish v ok = stop-Conserves k s
step-Conserves x k s clears_txt v ok =
    idle-Conserves k s [] (calls (string_list_free s.txt) ∷ []) (cleared k)
  where
    cleared :
        (k : Kind) (p : ℕ)
        → (made k p (calls (string_list_free s.txt) ∷ []) ≡ 0)
          × (freed k p (calls (string_list_free s.txt) ∷ []) ≡ 0)
    cleared entry_group p = omega arith
    cleared browser p = omega arith
    cleared resolver p = omega arith
step-Conserves x k s stops_browser v ok = clean_up-Conserves k s
step-Conserves x k s (starts_browser type protocol b) v ok =
    start_browser-Conserves x k s type protocol b
step-Conserves x k s (adds_txt_name name) v ok = idle-Conserves k s _ [] (λ p. (refl, refl))
step-Conserves x k s (adds_txt_record name value) v ok = idle-Conserves k s _ [] (λ p. (refl, refl))
step-Conserves x k s (group_changes g state) v ok = group-Conserves k s g state ok
step-Conserves x k s (browses e r) v ok =
    browse_cases x (Conserves k s) s e r (idle-Conserves k s s.txt [] (λ p. (refl, refl)))
      (browser_new-Conserves x k s e r v) (browser_remove-Conserves x k s e v)
      (failed-Conserves k s)
step-Conserves x k s (resolves e) v ok = resolve-Conserves x k s e

abbrev pub IsCleanAll : Externals → State → List Entry → Type 0
IsCleanAll x s [] = Unit {0}
IsCleanAll x s (e ∷ es) = IsClean s e × IsCleanAll x (step x s e).0 es

-- From a valid state and by entries that the library may make, for browsers and for resolvers, and
-- for groups if no commit fails and the group of a callback is the one that is kept: of each
-- pointer, what was kept before and what is made are together what is freed and what is kept after.
pub run-Conserves :
    (x : Externals) (k : Kind) (s : State) (es : List Entry)
    → IsValid x s
    → AllowedAll x s es
    → (k ≡ entry_group → IsCleanAll x s es)
    → Conserves k s (run x s es)
unfolding run count
run-Conserves x k s [] v ok clean = idle-Conserves k s s.txt [] (λ p. (refl, refl))
run-Conserves x k s (e ∷ es) v ok clean =
    Balanced-append k (kept k s) (kept k (step x s e).0) _ (step x s e).1 _
      (step-Conserves x k s e v (λ g. (clean g).0))
      (run-Conserves x k (step x s e).0 es (step-IsValid x s e ok.0 v) ok.1 (λ g. (clean g).1))
