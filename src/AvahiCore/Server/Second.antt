-- ===== src/AvahiCore/Server/Second.antt =====
-- avahicore.cpp: an object that is made while another has made the server. The server's callback
-- goes to the other, so that this one is never ready.
use qt_zero_conf.Base.{
  get_elem?-snoc, subst, ◌==◌, refl, Bool-cases, inr, ap, inl, length-append, suc, ◌∙◌,
  get_elem?-snoc_lt, sym, [], zero, ◌∷◌, length-set, set, ◌++◌, ◌≢◌, none, get_elem?, length, some,
  false, arith, ◌<◌, Option, ◌≡◌, List, ℕ,
}
use qt_zero_conf.AvahiCore.Api.{server_callback, start_service_publish, stop_service_publish}
use qt_zero_conf.AvahiCore.Server.{
  here, next, Reaches, stops_publish, publishes, server_changes, deletes, creates, Event, on_owner,
  step, on_alive, delete, update, alive, World, create,
}
use qt_zero_conf.AvahiCore.{new_state, State}
use qt_zero_conf.Avahi.{Replies, Effects, Protocol}
use qt_zero_conf.Text.{Text}

-- If the object is there, it has no service registered and is not ready for one.
abbrev pub WaitsIn : List (Option State) → ℕ → Type 0
WaitsIn os j = (s : State) → get_elem? os j ≡ some (some s) → (s.ready ≡ false) × (s.group ≡ none)

-- The object was made, is not the one that the server calls, and waits.
pub record IsSecond (j : ℕ) (w : World) : Type 0 where
  pub known : j < length w.instances
  pub foreign : w.owner ≢ some j
  pub waits : WaitsIn w.instances j

-- The object is not ready, and has no group.
abbrev IsIdle : State → Type 0
IsIdle s = (s.ready ≡ false) × (s.group ≡ none)

publish-IsIdle :
    (server : Option ℕ) (s : State) (name type domain : Text) (port interface : ℕ) (r : Replies)
    → IsIdle s
    → IsIdle (start_service_publish server s name type domain port interface r).0
unfolding start_service_publish
publish-IsIdle server s name type domain port interface r idle = ground arith

stop-IsIdle : (s : State) → IsIdle s → IsIdle (stop_service_publish s).0
unfolding stop_service_publish
stop-IsIdle s idle = ground arith

WaitsIn-set :
    (os : List (Option State)) (i j : ℕ) (o : Option State)
    → ((s : State) → i ≡ j → o ≡ some s → IsIdle s)
    → WaitsIn os j
    → WaitsIn (set os i o) j
WaitsIn-set [] i j o idle w s e = w s e
WaitsIn-set (x ∷ os) zero zero o idle w s e = idle s refl (cc)
WaitsIn-set (x ∷ os) zero (suc j) o idle w s e = w s e
WaitsIn-set (x ∷ os) (suc i) zero o idle w s e = w s e
WaitsIn-set (x ∷ os) (suc i) (suc j) o idle w s e =
    WaitsIn-set os i j o (λ t h. idle t (ap suc h)) w s e

WaitsIn-snoc :
    (os : List (Option State)) (s : State) (j : ℕ)
    → j < length os
    → WaitsIn os j
    → WaitsIn (os ++ some s ∷ []) j
WaitsIn-snoc os s j h w t e = w t (sym (get_elem?-snoc_lt os j (some s) h) ∙ e)

alive-elem :
    (w : World) (i : ℕ) (s : State) → alive w i ≡ some s → get_elem? w.instances i ≡ some (some s)
alive-elem w i s e = ground arith

inner : {s t : State} → some s ≡ some t → s ≡ t
inner e = cc

create-IsSecond :
    (w : World) (j : ℕ) (protocol : Protocol) (port : ℕ) (server : Option ℕ)
    → IsSecond j w
    → IsSecond j (create w protocol port server).0
unfolding create
create-IsSecond w j protocol port server v =
    let known = v.known in
    let longer = length-append w.instances (some (new_state protocol port) ∷ []) in
    elim (Bool-cases (w.reference_count == 0)) [
      | inl first ↦ rw first (record {
        known = omega (arith, longer);
        foreign = λ e. ground arith;
        waits = WaitsIn-snoc w.instances (new_state protocol port) j known v.waits;
      })
      | inr later ↦ rw later (record {
        known = omega (arith, longer);
        foreign = v.foreign;
        waits = WaitsIn-snoc w.instances (new_state protocol port) j known v.waits;
      })
    ]

update-IsSecond :
    (w : World) (i j : ℕ) (q : State × Effects)
    → (i ≡ j → IsIdle q.0)
    → IsSecond j w
    → IsSecond j (update w i q).0
update-IsSecond w i j q idle v = record {
  known = rw (length-set w.instances i (some q.0)) v.known;
  foreign = v.foreign;
  waits = WaitsIn-set w.instances i j (some q.0) (λ s h e. subst IsIdle (inner e) (idle h)) v.waits;
}

made-IsIdle :
    (os : List (Option State)) (t s : State)
    → get_elem? (os ++ some t ∷ []) (length os) ≡ some (some s)
    → IsIdle t
    → IsIdle s
made-IsIdle os t s e idle = subst IsIdle (inner (outer (sym (get_elem?-snoc os (some t)) ∙ e))) idle
  where
    outer : {a b : Option State} → some a ≡ some b → a ≡ b
    outer p = cc

delete-IsSecond : (w : World) (i j : ℕ) (s : State) → IsSecond j w → IsSecond j (delete w i s).0
unfolding delete
delete-IsSecond w i j s v = record {
  known = rw (length-set w.instances i none) v.known;
  foreign = v.foreign;
  waits = WaitsIn-set w.instances i j none (λ s h e. cc) v.waits;
}

pub on_alive-some {ℓ} :
    {A : Type ℓ} (o : Option State) (f : State → A) (r : A)
    → on_alive o f ≡ some r
    → (s : State) × (o ≡ some s) × (f s ≡ r)
on_alive-some none f r e = cc
on_alive-some (some s) f r e = (s, refl, cc)

pub on_owner-some {ℓ} :
    {A : Type ℓ} (o : Option ℕ) (f : ℕ → Option A) (r : A)
    → on_owner o f ≡ some r
    → (i : ℕ) × (o ≡ some i) × (f i ≡ some r)
on_owner-some none f r e = cc
on_owner-some (some i) f r e = (i, refl, e)

-- An object that is alive and waits is idle.
alive-IsIdle :
    (w : World) (i j : ℕ) (s : State) → IsSecond j w → i ≡ j → alive w i ≡ some s → IsIdle s
alive-IsIdle w i j s v same live =
    v.waits s (subst (λ k. get_elem? w.instances k ≡ some (some s)) same (alive-elem w i s live))

pub some_pair : {p q : World × Effects} → some p ≡ some q → p ≡ q
some_pair e = cc

-- No event makes the object ready or registers a service for it.
step-IsSecond :
    (w u : World) (j : ℕ) (e : Event) (effects : Effects)
    → IsSecond j w
    → step w e ≡ some (u, effects)
    → IsSecond j u
unfolding step
step-IsSecond w u j (creates protocol port server) effects v h =
    subst (λ q. IsSecond j q.0) (some_pair h) (create-IsSecond w j protocol port server v)
step-IsSecond w u j (deletes i) effects v h =
    let (s, live, is) = on_alive-some _ _ (u, effects) h in
    subst (λ q. IsSecond j q.0) is (delete-IsSecond w i j s v)
step-IsSecond w u j (server_changes state r) effects v h =
    let (i, owned, called) = on_owner-some _ _ (u, effects) h in
    let (s, live, is) = on_alive-some _ _ (u, effects) called in
    subst (λ q. IsSecond j q.0) is
      (update-IsSecond w i j (server_callback w.server s state r)
        (λ same. absurd (v.foreign (owned ∙ ap some same))) v)
step-IsSecond w u j (publishes i name type domain port interface r) effects v h =
    let (s, live, is) = on_alive-some _ _ (u, effects) h in
    subst (λ q. IsSecond j q.0) is
      (update-IsSecond w i j (start_service_publish w.server s name type domain port interface r)
        (λ same.
          publish-IsIdle w.server s name type domain port interface r
            (alive-IsIdle w i j s v same live))
        v)
step-IsSecond w u j (stops_publish i) effects v h =
    let (s, live, is) = on_alive-some _ _ (u, effects) h in
    subst (λ q. IsSecond j q.0) is
      (update-IsSecond w i j (stop_service_publish s)
        (λ same. stop-IsIdle s (alive-IsIdle w i j s v same live)) v)

Reaches-IsSecond : {w u : World} (j : ℕ) → IsSecond j w → Reaches w u → IsSecond j u
Reaches-IsSecond j v here = v
Reaches-IsSecond j v (next {w = t} r e effects h) =
    step-IsSecond t _ j e effects (Reaches-IsSecond j v r) h

-- An object that is made while there is another is not the one that the server calls.
made-IsSecond :
    (w : World) (i : ℕ) (protocol : Protocol) (port : ℕ) (server : Option ℕ)
    → w.owner ≡ some i
    → i < length w.instances
    → w.reference_count ≢ 0
    → IsSecond (length w.instances) (create w protocol port server).0
unfolding create new_state
made-IsSecond w i protocol port server owned known others =
    elim (Bool-cases (w.reference_count == 0)) [
      | inl none_yet ↦ absurd (ground arith)
      | inr later ↦ rw later (record {
        known = omega (arith, length-append w.instances (some (new_state protocol port) ∷ []));
        foreign = λ e. ground arith;
        waits = λ s e. made-IsIdle w.instances (new_state protocol port) s e (refl, refl);
      })
    ]

-- An object that is made while there is another, on a world whose server calls an object that
-- stands in it, never registers a service, whatever is asked of it and whatever the library
-- answers: after any events a publication by it makes no call and signals nothing, and leaves it
-- without a group.
pub second_never_publishes :
    (w u : World) (i : ℕ) (protocol : Protocol) (start port interface : ℕ) (name type domain : Text)
    (server : Option ℕ) (r : Replies) (s : State)
    → w.owner ≡ some i
    → i < length w.instances
    → w.reference_count ≢ 0
    → Reaches (create w protocol start server).0 u
    → alive u (length w.instances) ≡ some s
    → let q = start_service_publish u.server s name type domain port interface r in
      (q.1 ≡ []) × (q.0.group ≡ none)
unfolding start_service_publish
second_never_publishes w u i protocol start port interface name type domain server r s owned known
      others reach live =
    let j = length w.instances in
    let idle =
      alive-IsIdle u j j s
        (Reaches-IsSecond j (made-IsSecond w i protocol start server owned known others) reach) refl
        live in
    rw (idle.1, idle.0) (refl, refl)
