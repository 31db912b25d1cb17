-- ===== src/AvahiClient/Conserves.antt =====
-- avahiclient.cpp: the resolvers and browsers that the callbacks make, keep and free.
use qt_zero_conf.QMap.Count.{count-remove, count-insert, count-append, count}
use qt_zero_conf.Avahi.Resources.{
  Balanced-append, freed-emit_removed, made-emit_removed, frees, makes, points_to, browser,
  resolver, entry_group, freed, made, held_in, Balanced, held, Kind,
}
use qt_zero_conf.AvahiClient.{
  resolve_callback, on_browser_remove, on_browser_new, broswer_clean_up, State, free_resolvers,
}
use qt_zero_conf.QMap.{values}
use qt_zero_conf.Base.{◌++◌, refl, [], arith, ◌∷◌, ◌≡◌, Option, List, ℕ}
use qt_zero_conf.AvahiClient.Cases.{
  resolve_cases, browser_remove_cases, browser_new_cases, clean_up_cases,
}
use qt_zero_conf.Service.{service_key, browser_failed, error, emits, Externals, Effect}
use qt_zero_conf.Avahi.{Resolve, Browse, Effects, Call}
use qt_zero_conf.Service.Signals.{emit_removed}
use qt_zero_conf.AvahiClient.Invariant.{IsValid}

-- How often the loop over the resolvers frees a pointer of a kind.
abbrev pub freed_by_loop : Kind → ℕ → List (Option ℕ) → ℕ
freed_by_loop resolver p rs = count (points_to p) rs
freed_by_loop k p rs = 0

free_resolvers-freed :
    (k : Kind) (p : ℕ) (rs : List (Option ℕ)) → freed k p (free_resolvers rs) ≡ freed_by_loop k p rs
unfolding free_resolvers count
free_resolvers-freed entry_group p [] = refl
free_resolvers-freed browser p [] = refl
free_resolvers-freed resolver p [] = refl
free_resolvers-freed entry_group p (r ∷ rs) = omega (arith, free_resolvers-freed entry_group p rs)
free_resolvers-freed browser p (r ∷ rs) = omega (arith, free_resolvers-freed browser p rs)
free_resolvers-freed resolver p (r ∷ rs) = omega (arith, free_resolvers-freed resolver p rs)

free_resolvers-made : (k : Kind) (p : ℕ) (rs : List (Option ℕ)) → made k p (free_resolvers rs) ≡ 0
unfolding free_resolvers count
free_resolvers-made k p [] = refl
free_resolvers-made entry_group p (r ∷ rs) = omega (arith, free_resolvers-made entry_group p rs)
free_resolvers-made browser p (r ∷ rs) = omega (arith, free_resolvers-made browser p rs)
free_resolvers-made resolver p (r ∷ rs) = omega (arith, free_resolvers-made resolver p rs)

-- The two loops of broswerCleanUp together.
pub loops-counts :
    (k : Kind) (p : ℕ) (hs : List ℕ) (rs : List (Option ℕ))
    → (made k p (emit_removed hs ++ free_resolvers rs) ≡ 0)
      × (freed k p (emit_removed hs ++ free_resolvers rs) ≡ freed_by_loop k p rs)
loops-counts k p hs rs = omega (
  arith,
  count-append (λ (e : Effect Call). points_to p (makes k e)) (emit_removed hs) (free_resolvers rs),
  count-append (λ (e : Effect Call). points_to p (frees k e)) (emit_removed hs) (free_resolvers rs),
  free_resolvers-freed k p rs,
  free_resolvers-made k p rs,
  made-emit_removed k p hs,
  freed-emit_removed k p hs,
)

-- How often the wrapper keeps a pointer of a kind.
abbrev pub kept : Kind → State → ℕ → ℕ
kept entry_group s p = held p s.group
kept browser s p = held p s.browser
kept resolver s p = held_in p s.resolvers

-- What an operation makes and keeps, it frees or keeps afterwards.
abbrev pub Conserves : Kind → State → State × Effects → Type 0
Conserves k s q = Balanced k (kept k s) q.1 (kept k q.0)

pub clean_up-Conserves : (k : Kind) (s : State) → Conserves k s (broswer_clean_up s)
unfolding count values
clean_up-Conserves entry_group s =
    clean_up_cases (Conserves entry_group s) s (λ _ p. omega arith)
      λ b e p. ground (arith, loops-counts entry_group p (values s.services) (values s.resolvers))
clean_up-Conserves browser s =
    clean_up_cases (Conserves browser s) s (λ _ p. omega arith)
      λ b e p. ground (arith, loops-counts browser p (values s.services) (values s.resolvers))
clean_up-Conserves resolver s =
    clean_up_cases (Conserves resolver s) s (λ _ p. omega arith)
      λ b e p. ground (arith, loops-counts resolver p (values s.services) (values s.resolvers))

pub browser_new-Conserves :
    (x : Externals) (k : Kind) (s : State) (e : Browse) (r : Option ℕ)
    → IsValid x s
    → Conserves k s (on_browser_new x s e r)
unfolding count
browser_new-Conserves x entry_group s e r v =
    browser_new_cases x (Conserves entry_group s) s e r (λ _ p. omega arith) (λ p. omega arith)
browser_new-Conserves x browser s e r v =
    browser_new_cases x (Conserves browser s) s e r (λ _ p. omega arith) (λ p. omega arith)
browser_new-Conserves x resolver s e r v =
    let key = service_key x e.name e.interface in
    browser_new_cases x (Conserves resolver s) s e r
      (λ fresh p.
        ground (arith, fresh, count-insert (points_to p) key r s.resolvers v.resolvers_sorted))
      (λ p. omega arith)

pub browser_remove-Conserves :
    (x : Externals) (k : Kind) (s : State) (e : Browse)
    → IsValid x s
    → Conserves k s (on_browser_remove x s e)
unfolding count
browser_remove-Conserves x entry_group s e v =
    browser_remove_cases x (Conserves entry_group s) s e (λ _ p. omega arith)
      (λ r _ _ p. omega arith) (λ r zcs _ _ p. omega arith)
browser_remove-Conserves x browser s e v =
    browser_remove_cases x (Conserves browser s) s e (λ _ p. omega arith) (λ r _ _ p. omega arith)
      (λ r zcs _ _ p. omega arith)
browser_remove-Conserves x resolver s e v =
    let key = service_key x e.name e.interface in
    let taken = λ (p : ℕ). count-remove (points_to p) key s.resolvers v.resolvers_sorted in
    browser_remove_cases x (Conserves resolver s) s e (λ _ p. omega arith)
      (λ r has _ p. ground (arith, has, taken p)) (λ r zcs has _ p. ground (arith, has, taken p))

pub failed-Conserves :
    (k : Kind) (s : State)
    → Conserves k s
        ((broswer_clean_up s).0, (broswer_clean_up s).1 ++ emits (error browser_failed) ∷ [])
unfolding count
failed-Conserves k s =
    Balanced-append k (kept k s) (kept k (broswer_clean_up s).0) _ (broswer_clean_up s).1
      (emits (error browser_failed) ∷ []) (clean_up-Conserves k s) (after k)
  where
    after :
        (k : Kind)
        → Balanced k
            (kept k (broswer_clean_up s).0)
            (emits (error browser_failed) ∷ [])
            (kept k (broswer_clean_up s).0)
    after entry_group p = omega arith
    after browser p = omega arith
    after resolver p = omega arith

pub resolve-Conserves :
    (x : Externals) (k : Kind) (s : State) (e : Resolve) → Conserves k s (resolve_callback x s e)
unfolding count
resolve-Conserves x entry_group s e =
    resolve_cases x (Conserves entry_group s) s e (λ _ _ _ p. omega arith) (λ _ _ p. omega arith)
      (λ _ _ p. omega arith) (λ _ _ _ p. omega arith)
resolve-Conserves x browser s e =
    resolve_cases x (Conserves browser s) s e (λ _ _ _ p. omega arith) (λ _ _ p. omega arith)
      (λ _ _ p. omega arith) (λ _ _ _ p. omega arith)
resolve-Conserves x resolver s e =
    resolve_cases x (Conserves resolver s) s e (λ _ _ _ p. omega arith) (λ _ _ p. omega arith)
      (λ _ _ p. omega arith) (λ _ _ _ p. omega arith)
