-- ===== src/Bonjour/Conserves.antt =====
-- bonjour.cpp: every DNSServiceRef that is made is kept or deallocated.
use qt_zero_conf.Base.{
  ℕ, ◌≡◌, refl, Bool, true, false, List, [], ◌∷◌, ◌++◌, Option, none, some, arith, if◌then◌else◌,
  inl, inr, Bool-cases, Option-cases, length, ◌==◌,
}
use qt_zero_conf.QMap.{values}
use qt_zero_conf.QMap.Count.{count, count-append}
use qt_zero_conf.Service.{Externals, Effect, calls, emits, error, ErrorT}
use qt_zero_conf.Service.Signals.{emit_removed}
use qt_zero_conf.Avahi.Resources.{points_to}
use qt_zero_conf.Bonjour.{
  State, Resolver, Effects, Call, Visits, resolver_at, ◌>>=◌, delete_resolver, resolver_clean_up,
  clean_up_all, clean_up_browser, clean_up, ref_deallocate,
}
use qt_zero_conf.Bonjour.References.{
  makes, frees, Conserves, Ensures, Conserves-bind, held_on-set, signals-quiet,
}

module _ (x : Externals) where
  delete-Conserves :
      (s : State) (i : ℕ) (r : Resolver)
      → resolver_at s i ≡ some r
      → Conserves s (delete_resolver x s i r)
  unfolding count
  delete-Conserves s i r has p = omega (arith, held_on-set p s.heap i r none has)

  pub clean_up-Conserves : (s : State) (i : ℕ) → Ensures (Conserves s) (resolver_clean_up x s i)
  unfolding resolver_clean_up
  clean_up-Conserves s i = elim (Option-cases (resolver_at s i)) [
    | inl gone ↦ rw (gone, resolver_clean_up) tt
    | inr (r, has) ↦ rw (has, resolver_clean_up) (delete-Conserves s i r has)
  ]

  either :
      (b : Bool) (o : Option (State × Effects)) (P : State × Effects → Type 0)
      → Ensures P o
      → Ensures P (if b then o else none)
  either true o P h = h
  either false o P h = tt

  clean_up_all-Conserves : (s : State) (is : List ℕ) → Ensures (Conserves s) (clean_up_all x s is)
  unfolding clean_up_all count
  clean_up_all-Conserves s [] = λ p. omega arith
  clean_up_all-Conserves s (i ∷ is) =
      Conserves-bind s (resolver_clean_up x s i)
        (λ t. if length t.resolvers == length s.resolvers then clean_up_all x t is else none)
        (clean_up-Conserves s i)
        (λ t.
          either (length t.resolvers == length s.resolvers) (clean_up_all x t is) (Conserves t)
            (clean_up_all-Conserves t is))

  module _ (v : Visits) where
    -- The browser's reference is kept until it is deallocated at the end.
    clean_up_browser-Conserves :
        (s : State) (b c : ℕ)
        → s.browser ≡ some c
        → points_to b (some c) ≡ true
        → Ensures (Conserves s) (clean_up_browser x v s b)
    unfolding clean_up_browser count
    clean_up_browser-Conserves s b c has same =
        let idle = record s { browser = none; browser_notifier = false } in
        go (clean_up_all x idle (v.visit s.resolvers))
          (clean_up_all-Conserves idle (v.visit s.resolvers))
      where
        go :
            (o : Option (State × Effects))
            → Ensures (Conserves (record s { browser = none; browser_notifier = false })) o
            → Ensures (Conserves s) (
                o >>= λ t. some (
                  record t { resolvers = []; services = [] },
                  emit_removed (values t.services) ++ calls (ref_deallocate (some b)) ∷ [],
                ))
        go none h = tt
        go (some q) h = λ p.
            let last : Effects = calls (ref_deallocate (some b)) ∷ [] in
            let tail = emit_removed (values q.0.services) ++ last in
            ground (
              arith,
              has,
              h p,
              count-append (λ (e : Effect Call). points_to p (makes e)) q.1 tail,
              count-append (λ (e : Effect Call). points_to p (frees e)) q.1 tail,
              count-append (λ (e : Effect Call). points_to p (makes e))
                  (emit_removed (values q.0.services)) last,
              count-append (λ (e : Effect Call). points_to p (frees e))
                  (emit_removed (values q.0.services)) last,
              signals-quiet p (values q.0.services),
            )

    points-some : (d : ℕ) (o : Option ℕ) → points_to d o ≡ true → (c : ℕ) × (o ≡ some c)
    points-some d none e = cc
    points-some d (some c) e = (c, refl)

    pub points_self : (b : ℕ) → points_to b (some b) ≡ true
    points_self b = ground arith

    pub browser-Conserves :
        (s : State) (o : Option ℕ) → s.browser ≡ o → Ensures (Conserves s) (clean_up x v s o)
    unfolding clean_up count
    browser-Conserves s none has = λ p. omega arith
    browser-Conserves s (some b) has =
        let here : points_to b s.browser ≡ true = rw has (points_self b) in
        rw here (clean_up_browser-Conserves s b b has (points_self b))

    pub publish-Conserves :
        (s : State) (o : Option ℕ) → s.dnss_ref ≡ o → Ensures (Conserves s) (clean_up x v s o)
    unfolding clean_up count
    publish-Conserves s none has = λ p. omega arith
    publish-Conserves s (some d) has =
        let here : points_to d s.dnss_ref ≡ true = rw has (points_self d) in
        elim (Bool-cases (points_to d s.browser)) [
          | inl same ↦
              (let (c, browsing) = points-some d s.browser same in
                rw same (clean_up_browser-Conserves s d c browsing (rw browsing at same)))
          | inr other ↦ rw (other, here) (λ p. ground (arith, has))
        ]

    -- cleanUp for one of the two members, and an error behind it.
    pub failed-Conserves :
        (s : State) (m : Option (State × Effects)) (code : ErrorT)
        → Ensures (Conserves s) m
        → Ensures (Conserves s) (m >>= λ t. some (t, emits (error code) ∷ []))
    unfolding count
    failed-Conserves s m code h =
        Conserves-bind s m (λ t. some (t, emits (error code) ∷ [])) h (λ t p. omega arith)

    -- A branch on whether something has gone well.
    pub either-Conserves :
        (s : State) (ok : Bool) (f g : Option (State × Effects))
        → Ensures (Conserves s) f
        → Ensures (Conserves s) g
        → Ensures (Conserves s) (if ok then f else g)
    either-Conserves s true f g h k = h
    either-Conserves s false f g h k = k
