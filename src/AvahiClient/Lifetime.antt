-- ===== src/AvahiClient/Lifetime.antt =====
-- avahiclient.cpp: a QZeroConf from its constructor to its destructor.
use qt_zero_conf.QMap.Count.{count-append, count}
use qt_zero_conf.Service.{Effect, calls, Externals}
use qt_zero_conf.Base.{none, some, arith, refl, ◌∷◌, ◌++◌, ◌≡◌, ◌≢◌, List, ℕ, Option}
use qt_zero_conf.Avahi.Resources.{
  frees, makes, points_to, freed, resolver, browser, made, entry_group, Kind,
}
use qt_zero_conf.QMap.{values}
use qt_zero_conf.AvahiClient.{broswer_clean_up, new_state, State}
use qt_zero_conf.Avahi.{Call, string_list_free, Effects, Protocol}
use qt_zero_conf.AvahiClient.Api.{free_client, destroy, run, Entry}
use qt_zero_conf.Text.{Text}
use qt_zero_conf.AvahiClient.Invariant.{run-IsValid, new_state-IsValid, AllowedAll, IsValid}
use qt_zero_conf.AvahiClient.Lifecycle.{run-Conserves}
use qt_zero_conf.Service.Signals.{is_removed, is_added, removed, added, present}
use qt_zero_conf.AvahiClient.Cases.{clean_up_cases}
use qt_zero_conf.AvahiClient.Signals.{clean_up-Reported, run-Reported}
use qt_zero_conf.AvahiClient.Conserves.{kept, clean_up-Conserves}

-- Without a browser the wrapper keeps no browser, no resolver and no service.
cleaned-empty :
    (x : Externals) (k : Kind) (s : State) (p : ℕ)
    → k ≢ entry_group
    → IsValid x s
    → (kept k (broswer_clean_up s).0 p ≡ 0) × (present p (broswer_clean_up s).0.services ≡ 0)
unfolding count values
cleaned-empty x entry_group s p other v = absurd (other refl)
cleaned-empty x browser s p other v =
    clean_up_cases (λ q. (kept browser q.0 p ≡ 0) × (present p q.0.services ≡ 0)) s
      (λ e. (rw e, rw (v.idle e).0)) (λ b e. (refl, refl))
cleaned-empty x resolver s p other v =
    clean_up_cases (λ q. (kept resolver q.0 p ≡ 0) × (present p q.0.services ≡ 0)) s
      (λ e. (rw (v.idle e).1, rw (v.idle e).0)) (λ b e. (refl, refl))

new_state-keeps :
    (k : Kind) (client : Option ℕ) (protocol : Protocol) (p : ℕ)
    → kept k (new_state client protocol).0 p ≡ 0
unfolding new_state count values
new_state-keeps entry_group client protocol p = refl
new_state-keeps browser client protocol p = refl
new_state-keeps resolver client protocol p = refl

new_state-files :
    (client : Option ℕ) (protocol : Protocol) (h : ℕ)
    → present h (new_state client protocol).0.services ≡ 0
unfolding new_state count values
new_state-files client protocol h = refl

-- What one object does in its life: its entries, and the destructor.
unfoldable pub lifetime : Externals → Option ℕ → Protocol → List Entry → Effects
lifetime x client protocol es =
    let (s, effects) = run x (new_state client protocol).0 es in effects ++ (destroy s).1

free_client-quiet :
    (k : Kind) (p : ℕ) (client : Option ℕ)
    → (made k p (free_client client) ≡ 0)
      × (freed k p (free_client client) ≡ 0)
      × (added p (free_client client) ≡ 0)
      × (removed p (free_client client) ≡ 0)
unfolding count
free_client-quiet k p none = (refl, refl, refl, refl)
free_client-quiet entry_group p (some c) = omega arith
free_client-quiet browser p (some c) = omega arith
free_client-quiet resolver p (some c) = omega arith

text_free-quiet :
    (k : Kind) (p : ℕ) (txt : List Text) (effects : Effects)
    → (made k p (calls (string_list_free txt) ∷ effects) ≡ made k p effects)
      × (freed k p (calls (string_list_free txt) ∷ effects) ≡ freed k p effects)
unfolding count
text_free-quiet entry_group p txt effects = omega arith
text_free-quiet browser p txt effects = omega arith
text_free-quiet resolver p txt effects = omega arith

-- The destructor does to the browser, the resolvers and the signals what broswerCleanUp does.
destroy-counts :
    (k : Kind) (s : State) (p : ℕ)
    → let effects = (broswer_clean_up s).1 in
      (made k p (destroy s).1 ≡ made k p effects)
      × (freed k p (destroy s).1 ≡ freed k p effects)
      × (added p (destroy s).1 ≡ added p effects)
      × (removed p (destroy s).1 ≡ removed p effects)
unfolding destroy count
destroy-counts k s p =
    let effects = (broswer_clean_up s).1 in
    omega (
      arith,
      text_free-quiet k p s.txt (effects ++ free_client s.client),
      free_client-quiet k p s.client,
      count-append (λ (e : Effect Call). points_to p (makes k e)) effects (free_client s.client),
      count-append (λ (e : Effect Call). points_to p (frees k e)) effects (free_client s.client),
      count-append (is_added p) effects (free_client s.client),
      count-append (is_removed p) effects (free_client s.client),
    )

-- Over the life of an object, from the constructor through any entries that the library may make to
-- the destructor, every browser and every resolver that it makes is freed as often as it is made. A
-- library makes browseCallback only while there is a browser, and resolveCallback only for a resolver
-- that is kept.
pub lifetime-frees :
    (x : Externals) (k : Kind) (client : Option ℕ) (protocol : Protocol) (es : List Entry) (p : ℕ)
    → k ≢ entry_group
    → AllowedAll x (new_state client protocol).0 es
    → made k p (lifetime x client protocol es) ≡ freed k p (lifetime x client protocol es)
unfolding lifetime count
lifetime-frees x k client protocol es p other ok =
    let start = (new_state client protocol).0 in
    let valid = new_state-IsValid x client protocol in
    let s = (run x start es).0 in
    let effects = (run x start es).1 in
    omega (
      arith,
      run-Conserves x k start es valid ok (λ g. absurd (other g)) p,
      clean_up-Conserves k s p,
      cleaned-empty x k s p other (run-IsValid x start es ok valid),
      new_state-keeps k client protocol p,
      destroy-counts k s p,
      count-append (λ (e : Effect Call). points_to p (makes k e)) effects (destroy s).1,
      count-append (λ (e : Effect Call). points_to p (frees k e)) effects (destroy s).1,
    )

-- Over the life of an object, from the constructor through any entries that the library may make to
-- the destructor, every service has as many serviceRemoved as serviceAdded signals. A library makes
-- browseCallback only while there is a browser, and resolveCallback only for a resolver that is kept.
pub lifetime-removes :
    (x : Externals) (client : Option ℕ) (protocol : Protocol) (es : List Entry) (h : ℕ)
    → AllowedAll x (new_state client protocol).0 es
    → added h (lifetime x client protocol es) ≡ removed h (lifetime x client protocol es)
unfolding lifetime count
lifetime-removes x client protocol es h ok =
    let start = (new_state client protocol).0 in
    let valid = new_state-IsValid x client protocol in
    let s = (run x start es).0 in
    let effects = (run x start es).1 in
    omega (
      arith,
      run-Reported x start es valid ok h,
      clean_up-Reported s h,
      cleaned-empty x browser s h (λ e. cc) (run-IsValid x start es ok valid),
      new_state-files client protocol h,
      destroy-counts browser s h,
      count-append (is_added h) effects (destroy s).1,
      count-append (is_removed h) effects (destroy s).1,
    )
