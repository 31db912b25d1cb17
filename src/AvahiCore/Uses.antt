-- ===== src/AvahiCore/Uses.antt =====
-- avahicore.cpp: what happens to one object, by the application and by the library, and what of it
-- touches neither the services nor the resolvers.
use qt_zero_conf.AvahiClient.Aside.{IsSameView}
use qt_zero_conf.AvahiClient.Invariant.{IsValid, aside-IsValid}
use qt_zero_conf.AvahiCore.{State, group_callback}
use qt_zero_conf.AvahiCore.Api.{
  ServerState, server_running, register_service, server_callback, start_service_publish,
  stop_service_publish, start_browser,
}
use qt_zero_conf.AvahiCore.Interface.{Reply, Callback, browses, resolves, invoke, called}
use qt_zero_conf.AvahiCore.Same.{as_client}
use qt_zero_conf.Avahi.{Effects, EntryGroupState, uncommited, LayerProtocol, Replies}
use qt_zero_conf.Avahi.Resources.{Balanced, held_in, made, freed, resolver}
use qt_zero_conf.Base.{ℕ, List, [], ◌∷◌, ◌++◌, Option, none, ◌≡◌, ◌≢◌, refl, arith}
use qt_zero_conf.QMap.{lookup}
use qt_zero_conf.QMap.Count.{count}
use qt_zero_conf.Service.{Externals, service_key}
use qt_zero_conf.Service.Signals.{added, removed, Reported}
use qt_zero_conf.Text.{Text}
use qt_zero_conf.ZeroConf.{Request}

-- A method of the object, with what the library answers, or a callback of the library.
pub data Use : Type 0 where
  requests : Request → Reply → Use
  calls_back : Callback → Use

module _ (x : Externals) (server : Option ℕ) where
  unfoldable pub step : State → Use → State × Effects
  step s (requests q r) = invoke x server s q r
  step s (calls_back c) = called x server s c

  -- One after the other.
  unfoldable pub run : State → List Use → State × Effects
  run s [] = (s, [])
  run s (e ∷ es) =
      let (s', effects) = step s e in let (t, later) = run s' es in (t, effects ++ later)

  -- The application calls startBrowser only while there is no browser. The library calls
  -- browseCallback only for a browser that is not freed, which is then the one that is kept, and
  -- resolveCallback only for a resolver that is kept.
  abbrev pub Allowed : State → Use → Type 0
  Allowed s (calls_back (browses e r)) = s.browser ≢ none
  Allowed s (calls_back (resolves e)) = lookup (service_key x e.name e.interface) s.resolvers ≢ none
  Allowed s (requests (Request.start_browser type protocol) r) = s.browser ≡ none
  Allowed s _ = Unit {0}

  abbrev pub AllowedAll : State → List Use → Type 0
  AllowedAll s [] = Unit {0}
  AllowedAll s (e ∷ es) = Allowed s e × AllowedAll (step s e).0 es

  -- The object, taken for one of the client wrapper, is valid, the signals account for what is
  -- filed, and the resolvers made are kept or freed.
  abbrev pub Keeps : State → State × Effects → Type 0
  Keeps s q =
      IsValid x (as_client server q.0)
      × Reported s.services q.1 q.0.services
      × Balanced resolver (λ p. held_in p s.resolvers) q.1 (λ p. held_in p q.0.resolvers)

  -- No signal tells of a service, and no resolver is made or freed.
  abbrev pub IsQuiet : Effects → Type 0
  IsQuiet effects =
      (h : ℕ)
      → (added h effects ≡ 0)
        × (removed h effects ≡ 0)
        × (made resolver h effects ≡ 0)
        × (freed resolver h effects ≡ 0)

  -- Neither the services nor the resolvers change, and the effects are quiet.
  pub record IsAside (s : State) (q : State × Effects) : Type 0 where
    pub view : IsSameView (as_client server s) (as_client server q.0)
    pub quiet : IsQuiet q.1

  pub aside-Keeps :
      (s : State) (q : State × Effects) → IsAside s q → IsValid x (as_client server s) → Keeps s q
  aside-Keeps s q a v = (
    aside-IsValid x _ _ a.view v,
    λ h. rw a.view.services (omega (arith, a.quiet h)),
    λ p. rw a.view.resolvers (omega (arith, a.quiet p)),
  )

  unchanged : (s : State) → IsSameView (as_client server s) (as_client server s)
  unchanged s = record { objects = refl; services = refl; resolvers = refl; idle = λ e. e }

  pub publish-IsAside :
      (s : State) (name type domain : Text) (port interface : ℕ) (r : Replies)
      → IsAside s (start_service_publish server s name type domain port interface r)
  unfolding start_service_publish register_service count
  publish-IsAside s name type domain port interface r = record {
    view = ground arith;
    quiet = λ h. ground arith;
  }

  pub stop-IsAside : (s : State) → IsAside s (stop_service_publish s)
  unfolding stop_service_publish count
  stop-IsAside s = record { view = ground arith; quiet = λ h. ground arith }

  pub server-IsAside :
      (s : State) (state : ServerState) (r : Replies) → IsAside s (server_callback server s state r)
  unfolding server_callback register_service count
  server-IsAside s server_running r = record { view = ground arith; quiet = λ h. ground arith }
  server-IsAside s _ r = record { view = unchanged s; quiet = λ h. (refl, refl, refl, refl) }

  pub group-IsAside :
      (s : State) (g : Option ℕ) (state : EntryGroupState) → IsAside s (group_callback s g state)
  unfolding group_callback count
  group-IsAside s g uncommited = record {
    view = unchanged s;
    quiet = λ h. (refl, refl, refl, refl);
  }
  group-IsAside s g _ = record {
    view = record { objects = refl; services = refl; resolvers = refl; idle = λ e. e };
    quiet = λ h. omega arith;
  }

  pub browser-IsAside :
      (s : State) (type : Text) (protocol : LayerProtocol) (b : Option ℕ)
      → s.browser ≡ none
      → IsAside s (start_browser x server s type protocol b)
  unfolding start_browser count
  browser-IsAside s type protocol b ok = record {
    view = record { objects = refl; services = refl; resolvers = refl; idle = λ e. ok };
    quiet = λ h. ground arith;
  }

  -- The TXT records alone change.
  pub text-IsAside :
      (s : State) (txt : List Text) (effects : Effects)
      → IsQuiet effects
      → IsAside s (record s { txt = txt }, effects)
  text-IsAside s txt effects quiet = record {
    view = record { objects = refl; services = refl; resolvers = refl; idle = λ e. e };
    quiet = quiet;
  }
