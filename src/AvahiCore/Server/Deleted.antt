-- ===== src/AvahiCore/Server/Deleted.antt =====
-- avahicore.cpp: an object that is deleted while others share the server.
use qt_zero_conf.Base.{
  get_elem?-snoc_lt, Option-cases, Bool-cases, inl, inr, suc, zero, [], ◌∷◌, set, ◌++◌, none,
  get_elem?, length, some, false, true, arith, ◌<◌, ◌==◌, ◌∙◌, ap, ◌-◌, subst, ◌+◌, Option, ◌≡◌,
  List, ℕ, Bool, refl,
}
use qt_zero_conf.QMap.{values}
use qt_zero_conf.QMap.Count.{count, count-append}
use qt_zero_conf.Service.{Effect, calls, emits, service_removed}
use qt_zero_conf.Service.Signals.{emit_removed}
use qt_zero_conf.Avahi.{
  Call, Effects, Replies, Protocol, server_free, server_config_free, service_resolver_free,
  service_browser_free, string_list_free,
}
use qt_zero_conf.Avahi.Resources.{freed, entry_group, points_to, frees}
use qt_zero_conf.AvahiCore.{State, new_state, broswer_clean_up, free_resolvers}
use qt_zero_conf.AvahiCore.Api.{
  ServerState, server_callback, start_service_publish, stop_service_publish,
}
use qt_zero_conf.AvahiCore.Server.Second.{on_alive-some, on_owner-some, some_pair}
use qt_zero_conf.AvahiCore.Server.{
  here, next, Reaches, stops_publish, publishes, server_changes, deletes, creates, Event, step,
  on_alive, delete, update, alive, World, create, join, free_server, u32,
}

-- A call that frees the server.
abbrev pub frees_server : Effect Call → Bool
frees_server (calls (server_free p)) = true
frees_server _ = false

module _ (test : Effect Call → Bool)
    (no_signal : (h : ℕ) → test (emits (service_removed h)) ≡ false)
    (no_resolver : (r : Option ℕ) → test (calls (service_resolver_free r)) ≡ false)
    (no_browser : (b : ℕ) → test (calls (service_browser_free b)) ≡ false) where
  signals-none : (hs : List ℕ) → count test (emit_removed hs) ≡ 0
  unfolding count emit_removed
  signals-none [] = refl
  signals-none (h ∷ hs) = rw (no_signal h) (omega (arith, signals-none hs))

  resolvers-none : (rs : List (Option ℕ)) → count test (free_resolvers rs) ≡ 0
  unfolding count free_resolvers
  resolvers-none [] = refl
  resolvers-none (r ∷ rs) = rw (no_resolver r) (omega (arith, resolvers-none rs))

  -- broswerCleanUp makes none of the calls of the test.
  clean_up-none : (s : State) → count test (broswer_clean_up s).1 ≡ 0
  unfolding broswer_clean_up count
  clean_up-none s = elim (Option-cases s.browser) [
    | inl idle ↦ rw idle refl
    | inr (b, running) ↦
        rw (running, no_browser b)
          (omega (
            arith,
            signals-none (values s.services),
            resolvers-none (values s.resolvers),
            count-append test (emit_removed (values s.services))
                (free_resolvers (values s.resolvers)),
          ))
  ]

free_server-shared : (n : ℕ) (server : Option ℕ) → 0 < n → free_server n server ≡ []
free_server-shared zero server h = elim h [ ]
free_server-shared (suc n) server h = refl

-- What a destructor does while others share the server.
delete-effects :
    (w : World) (i : ℕ) (s : State)
    → 1 < w.reference_count
    → w.reference_count < 4294967296
    → (delete w i s).1
      ≡ calls (string_list_free s.txt) ∷ (broswer_clean_up s).1 ++ calls server_config_free ∷ []
unfolding delete
delete-effects w i s others small =
    rw (free_server-shared (u32 (w.reference_count + 4294967296 - 1)) w.server (omega arith)) refl

-- An object that was deleted.
abbrev IsGone : ℕ → World → Type 0
IsGone i w = get_elem? w.instances i ≡ some none

gone-lt : {A : Type 0} (xs : List A) (i : ℕ) (x : A) → get_elem? xs i ≡ some x → i < length xs
gone-lt [] i x e = cc
gone-lt (y ∷ xs) zero x e = omega arith
gone-lt (y ∷ xs) (suc i) x e = omega (arith, gone-lt xs i x e)

gone-set :
    (os : List (Option State)) (i j : ℕ) (o : Option State)
    → get_elem? os i ≡ some none
    → (j ≡ i → o ≡ none)
    → get_elem? (set os j o) i ≡ some none
gone-set [] i j o e k = e
gone-set (x ∷ os) zero zero o e k = rw (k refl) refl
gone-set (x ∷ os) zero (suc j) o e k = e
gone-set (x ∷ os) (suc i) zero o e k = e
gone-set (x ∷ os) (suc i) (suc j) o e k = gone-set os i j o e (λ h. k (omega (arith, h)))

deleted-gone :
    (os : List (Option State)) (i : ℕ) (s : State)
    → join (get_elem? os i) ≡ some s
    → get_elem? (set os i none) i ≡ some none
deleted-gone [] i s e = cc
deleted-gone (x ∷ os) zero s e = refl
deleted-gone (x ∷ os) (suc i) s e = deleted-gone os i s e

delete-IsGone : (w : World) (i : ℕ) (s : State) → alive w i ≡ some s → IsGone i (delete w i s).0
unfolding delete
delete-IsGone w i s live = deleted-gone w.instances i s live

create-IsGone :
    (w : World) (i : ℕ) (protocol : Protocol) (port : ℕ) (server : Option ℕ)
    → IsGone i w
    → IsGone i (create w protocol port server).0
unfolding create
create-IsGone w i protocol port server gone =
    let kept =
      get_elem?-snoc_lt w.instances i (some (new_state protocol port))
        (gone-lt w.instances i none gone)
      ∙ gone in
    elim (Bool-cases (w.reference_count == 0)) [
      | inl first ↦ rw first kept
      | inr later ↦ rw later kept
    ]

-- A call of an object that is there leaves the deleted ones.
update-IsGone :
    (w : World) (i j : ℕ) (s : State) (q : State × Effects)
    → alive w j ≡ some s
    → IsGone i w
    → IsGone i (update w j q).0
update-IsGone w i j s q live gone =
    gone-set w.instances i j (some q.0) gone
      (λ same. let there = rw (subst (λ k. alive w k ≡ some s) same live) at (ap join gone) in cc)

-- No event brings a deleted object back.
step-IsGone :
    (w u : World) (i : ℕ) (e : Event) (effects : Effects)
    → IsGone i w
    → step w e ≡ some (u, effects)
    → IsGone i u
unfolding step delete
step-IsGone w u i (creates protocol port server) effects gone h =
    subst (λ q. IsGone i q.0) (some_pair h) (create-IsGone w i protocol port server gone)
step-IsGone w u i (deletes j) effects gone h =
    let (s, live, is) = on_alive-some _ _ (u, effects) h in
    subst (λ q. IsGone i q.0) is (gone-set w.instances i j none gone (λ same. refl))
step-IsGone w u i (server_changes state r) effects gone h =
    let called = λ (j : ℕ) (t : State). update w j (server_callback w.server t state r) in
    let (j, owned, on) =
      on_owner-some w.owner (λ j. on_alive (alive w j) (called j)) (u, effects) h in
    let (s, live, is) = on_alive-some (alive w j) (called j) (u, effects) on in
    subst (λ q. IsGone i q.0) is
      (update-IsGone w i j s (server_callback w.server s state r) live gone)
step-IsGone w u i (publishes j name type domain port interface r) effects gone h =
    let (s, live, is) = on_alive-some _ _ (u, effects) h in
    subst (λ q. IsGone i q.0) is
      (update-IsGone w i j s (start_service_publish w.server s name type domain port interface r)
        live gone)
step-IsGone w u i (stops_publish j) effects gone h =
    let (s, live, is) = on_alive-some _ _ (u, effects) h in
    subst (λ q. IsGone i q.0) is (update-IsGone w i j s (stop_service_publish s) live gone)

Reaches-IsGone : {w u : World} (i : ℕ) → IsGone i w → Reaches w u → IsGone i u
Reaches-IsGone i gone here = gone
Reaches-IsGone i gone (next {w = t} r e effects h) =
    step-IsGone t _ i e effects (Reaches-IsGone i gone r) h

-- The object that was given to avahi_server_new is deleted while there is another: the server is not
-- freed, nor is any group, such as that of a service which the object has published. After any
-- events, while the server is still the one that was made with it, a callback of the server is one
-- with the deleted object.
pub deleted_owner :
    (w u : World) (i p : ℕ) (s : State) (state : ServerState) (r : Replies)
    → alive w i ≡ some s
    → 1 < w.reference_count
    → w.reference_count < 4294967296
    → Reaches (delete w i s).0 u
    → u.owner ≡ some i
    → (count frees_server (delete w i s).1 ≡ 0)
      × (freed entry_group p (delete w i s).1 ≡ 0)
      × (step u (server_changes state r) ≡ none)
unfolding step count
deleted_owner w u i p s state r live others small reach owned =
    let gone = Reaches-IsGone i (delete-IsGone w i s live) reach in
    let done = (broswer_clean_up s).1 in
    (
      rw (delete-effects w i s others small) (
          omega (
            arith,
            count-append frees_server done (calls server_config_free ∷ []),
            clean_up-none frees_server (λ h. refl) (λ q. refl) (λ b. refl) s,
          )),
      rw (delete-effects w i s others small) (
          omega (
            arith,
            count-append (λ (e : Effect Call). points_to p (frees entry_group e)) done
                (calls server_config_free ∷ []),
            clean_up-none (λ (e : Effect Call). points_to p (frees entry_group e)) (λ h. refl)
                (λ q. refl) (λ b. refl) s,
          )),
      rw (owned, gone),
    )
