-- ===== src/Bonjour/Safety.antt =====
-- bonjour.cpp: a QZeroConf from its constructor to its destructor uses no deleted Resolver.
use qt_zero_conf.Bonjour.{
  Effects, State, ◌>>=◌, Visits, new_state, DnsProtocol, clean_up, clean_up_all, clean_up_browser,
}
use qt_zero_conf.Bonjour.Api.{destroy, Entry, step, run}
use qt_zero_conf.Service.{Externals}
use qt_zero_conf.Avahi.Resources.{points_to}
use qt_zero_conf.Base.{
  ◌≡◌, ℕ, refl, false, inl, inr, Bool-cases, none, List, some, Option, [], ◌∷◌, arith,
}
use qt_zero_conf.QMap.Count.{count}
use qt_zero_conf.Bonjour.CleanUp.{
  IsSafe, Good, Returns, After, Good-then, clean_up_ref-Good, VisitsEach,
}
use qt_zero_conf.Bonjour.Entries.{Allowed, step-Good, emptied}

-- The entries come as the library may make them.
abbrev pub AllowedAll : Externals → Visits → State → List Entry → Type 0
AllowedAll x v s [] = Unit {0}
AllowedAll x v s (e ∷ es) = Allowed s e × After (λ t. AllowedAll x v t es) (step x v s e)

run-Good :
    (x : Externals) (v : Visits) (s : State) (es : List Entry)
    → VisitsEach v
    → AllowedAll x v s es
    → IsSafe x s
    → Returns (Good x s) (run x v s es)
unfolding run count
run-Good x v s [] each ok safe = (safe, λ h. omega arith)
run-Good x v s (e ∷ es) each ok safe =
    go (step x v s e) (step-Good x v each s e ok.0 safe) ok.1 (λ t. run-Good x v t es each)
  where
    go :
        (o : Option (State × Effects))
        → Returns (Good x s) o
        → After (λ t. AllowedAll x v t es) o
        → ((t : State) → AllowedAll x v t es → IsSafe x t → Returns (Good x t) (run x v t es))
        → Returns (Good x s) (o >>= λ t. run x v t es)
    go none g a h = absurd g
    go (some q) g a h = Good-then x s q (λ t. run x v t es) g (h q.0 a g.0)

-- A clean-up leaves a map without Resolvers as it is, or makes it empty.
clean_up-empty :
    (x : Externals) (v : Visits) (each : VisitsEach v) (s : State) (p : Option ℕ)
    → s.resolvers ≡ []
    → After (λ t. t.resolvers ≡ []) (clean_up x v s p)
unfolding clean_up clean_up_browser
clean_up-empty x v each s none e = e
clean_up-empty x v each s (some p) e = elim (Bool-cases (points_to p s.browser)) [
  | inl b ↦ rw b (
      emptied_after
        (clean_up_all x (record s { browser = none; browser_notifier = false })
          (v.visit s.resolvers))
        _)
  | inr b ↦ elim (Bool-cases (points_to p s.dnss_ref)) [ inl d ↦ rw (b, d) e | inr d ↦ rw (b, d) e ]
]
  where
    emptied_after :
        (o : Option (State × Effects)) (effects : State → Effects)
        → After
            (λ t. t.resolvers ≡ [])
            (o >>= λ t. some (record t { resolvers = []; services = [] }, effects t))
    emptied_after none effects = tt
    emptied_after (some q) effects = refl

destroy-Good :
    (x : Externals) (v : Visits) (each : VisitsEach v) (t : State)
    → t.resolvers ≡ []
    → IsSafe x t
    → Returns (Good x t) (destroy x v t)
unfolding destroy
destroy-Good x v each t e safe =
    go (clean_up x v t t.dnss_ref)
      (clean_up_ref-Good x v each t t.dnss_ref (emptied t t.dnss_ref e) safe)
      (clean_up-empty x v each t t.dnss_ref e)
  where
    go :
        (o : Option (State × Effects))
        → Returns (Good x t) o
        → After (λ u. u.resolvers ≡ []) o
        → Returns (Good x t) (o >>= λ u. clean_up x v u u.browser)
    go none g e = absurd g
    go (some q) g e =
        Good-then x t q (λ u. clean_up x v u u.browser) g
          (clean_up_ref-Good x v each q.0 q.0.browser (emptied q.0 q.0.browser e) g.0)

-- From the constructor through any entries to the destructor, no deleted Resolver is used, and no
-- iterator that a removal has made invalid: there is a result. In it every Resolver of the map is
-- there, and for every service the serviceAdded signals are as many as its presence in `services` and
-- the serviceRemoved signals. A library calls back only for a Resolver that is there and hands whole
-- records over, and a loop over a QHash visits each entry once if its body does not change the QHash.
-- The browser is cleaned up, by the application, after a failure, or by the destructor, only while no
-- Resolver stands in the map.
pub lifetime-IsSafe :
    (x : Externals) (v : Visits) (protocol : DnsProtocol) (es : List Entry)
    → VisitsEach v
    → AllowedAll x v (new_state protocol) es
    → After (λ t. t.resolvers ≡ []) (run x v (new_state protocol) es)
    → Returns (Good x (new_state protocol)) (run x v (new_state protocol) es >>= destroy x v)
unfolding new_state
lifetime-IsSafe x v protocol es each ok empty =
    go (run x v (new_state protocol) es)
      (run-Good x v (new_state protocol) es each ok
        (record { keyed = tt; services_sorted = tt; resolvers_sorted = tt }))
      empty
  where
    go :
        (o : Option (State × Effects))
        → Returns (Good x (new_state protocol)) o
        → After (λ t. t.resolvers ≡ []) o
        → Returns (Good x (new_state protocol)) (o >>= destroy x v)
    go none g e = absurd g
    go (some q) g e =
        Good-then x (new_state protocol) q (destroy x v) g (destroy-Good x v each q.0 e g.0)
