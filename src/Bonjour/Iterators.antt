-- ===== src/Bonjour/Iterators.antt =====
-- bonjour.cpp: the loop of cleanUp over a QHash from which its body removes entries.
use qt_zero_conf.Base.{
  ℕ, suc, ◌<◌, ◌≡◌, ◌≢◌, refl, true, false, List, [], ◌∷◌, none, some, arith, length, ◌==◌, sym,
}
use qt_zero_conf.Bonjour.{
  State, Visits, resolver_at, zcs_key, clean_up_all, clean_up_browser, clean_up,
}
use qt_zero_conf.Bonjour.Alive.{heap_key, lookup-present}
use qt_zero_conf.Bonjour.Api.{stop_browser}
use qt_zero_conf.Bonjour.CleanUp.{IsSafe, VisitsEach, Resolver-there, key_of_there, clean_up_there}
use qt_zero_conf.QMap.{QMap, lookup, remove, values}
use qt_zero_conf.QMap.Count.{count}
use qt_zero_conf.QMap.Order.{IsSorted, remove-Above}
use qt_zero_conf.Service.{Externals}
use qt_zero_conf.Service.Signals.{present}
use qt_zero_conf.Text.{Text}
use qt_zero_conf.Text.Order.{eq_of_text_eq}

length-remove :
    (k : Text) (i : ℕ) (m : QMap ℕ)
    → IsSorted m
    → lookup k m ≡ some i
    → suc (length (remove k m)) ≡ length m
unfolding lookup remove
length-remove k i [] s e = cc
length-remove k i ((j, h) ∷ m) s e =
    ground (arith, length-remove k i m s.1, eq_of_text_eq k j, remove-Above j m s.0)

module _ (x : Externals) (s : State) (safe : IsSafe x s) where
  -- The first Resolver of the map that is visited takes its entry away.
  loop_faults : (i : ℕ) (is : List ℕ) → 0 < present i s.resolvers → clean_up_all x s (i ∷ is) ≡ none
  unfolding clean_up_all
  loop_faults i is filed =
      let (k, own, found) =
        lookup-present (heap_key x s.objects s.heap) i s.resolvers safe.keyed safe.resolvers_sorted
          filed in
      let (r, has) = Resolver-there x s.objects (resolver_at s i) k own in
      let taken =
        length-remove (zcs_key x s r.zcs) i s.resolvers safe.resolvers_sorted
          (rw (key_of_there x s i r k has own) found) in
      let changed : (length (remove (zcs_key x s r.zcs) s.resolvers) == length s.resolvers)
          ≡ false =
        ground (arith, taken) in
      rw (clean_up_there x s i r has) (rw changed refl)

-- A map in which no pointer stands is empty.
unfiled : (m : QMap ℕ) → ((h : ℕ) → present h m ≡ count (λ i. i == h) []) → m ≡ []
unfolding count values
unfiled [] e = refl
unfiled ((k, i) ∷ m) e = absurd (ground (arith, e i))

counted : (i : ℕ) (is : List ℕ) (n : ℕ) → count (λ j. j == i) (i ∷ is) ≡ n → 0 < n
unfolding count
counted i is n e = ground (arith, e)

-- From a safe state with a browser and with a Resolver in the map, stopBrowser has no result: its loop
-- over the map goes on with an iterator that the removal of the entry it is at has made invalid. A
-- loop over a QHash visits each entry once if its body does not change the QHash.
pub stop_faults :
    (x : Externals) (v : Visits) (s : State) (b : ℕ)
    → VisitsEach v
    → IsSafe x s
    → s.browser ≡ some b
    → s.resolvers ≢ []
    → stop_browser x v s ≡ none
unfolding stop_browser clean_up clean_up_browser
stop_faults x v s b each safe running busy =
    let idle = record s { browser = none; browser_notifier = false } in
    let u : IsSafe x idle = record {
      keyed = safe.keyed;
      services_sorted = safe.services_sorted;
      resolvers_sorted = safe.resolvers_sorted;
    } in
    let stuck : clean_up_all x idle (v.visit s.resolvers) ≡ none =
      visited (v.visit s.resolvers) (each s.resolvers) busy (loop_faults x idle u) in
    rw (running, self b) (rw stuck refl)
  where
    self : (n : ℕ) → (n == n) ≡ true
    self n = ground arith

    visited :
        (is : List ℕ)
        → ((h : ℕ) → count (λ i. i == h) is ≡ present h s.resolvers)
        → s.resolvers ≢ []
        → ((i : ℕ) (is : List ℕ)
            → 0 < present i s.resolvers
            → clean_up_all x (record s { browser = none; browser_notifier = false }) (i ∷ is)
              ≡ none)
        → clean_up_all x (record s { browser = none; browser_notifier = false }) is ≡ none
    visited [] each busy faults = absurd (busy (unfiled s.resolvers (λ h. sym (each h))))
    visited (i ∷ is) each busy faults = faults i is (counted i is (present i s.resolvers) (each i))
