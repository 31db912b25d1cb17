-- ===== src/Bonjour/References.antt =====
-- bonjour.cpp: the DNSServiceRefs that are made, kept and deallocated, counted.
use mathlib.Core.Option
use qt_zero_conf.Base.{
  ℕ, ◌+◌, ◌≡◌, refl, List, [], ◌∷◌, ◌++◌, Option, none, some, arith, get_elem?, set, zero, suc,
}
use qt_zero_conf.QMap.Count.{count, count-append}
use qt_zero_conf.Service.{Effect, calls}
use qt_zero_conf.Service.Signals.{emit_removed}
use qt_zero_conf.Avahi.Resources.{points_to, held}
use qt_zero_conf.Bonjour.{
  State, Resolver, Effects, Call, join, ◌>>=◌, service_register, service_browse, service_resolve,
  get_addr_info, ref_deallocate,
}

-- The reference that an effect makes, and the one that it deallocates.
abbrev pub makes : Effect Call → Option ℕ
makes (calls (service_register i name type domain port txt p)) = p
makes (calls (service_browse type p)) = p
makes (calls (service_resolve i name type domain p)) = p
makes (calls (get_addr_info i host p)) = p
makes _ = none

abbrev pub frees : Effect Call → Option ℕ
frees (calls (ref_deallocate p)) = p
frees _ = none

abbrev pub made : ℕ → Effects → ℕ
made p = count (λ e. points_to p (makes e))

abbrev pub freed : ℕ → Effects → ℕ
freed p = count (λ e. points_to p (frees e))

-- How often a pointer is kept by the Resolvers that are there, and by an object with them.
abbrev pub held_by : ℕ → Option Resolver → ℕ
held_by p none = 0
held_by p (some r) = held p r.resolver_ref + held p r.address_ref

abbrev pub held_on : ℕ → List (Option Resolver) → ℕ
held_on p [] = 0
held_on p (o ∷ heap) = held_by p o + held_on p heap

abbrev pub kept : ℕ → State → ℕ
kept p s = held p s.dnss_ref + held p s.browser + held_on p s.heap

-- What was kept and what was made are what is kept and what was deallocated.
abbrev pub Conserves : State → State × Effects → Type 0
Conserves s q = (p : ℕ) → kept p s + made p q.1 ≡ kept p q.0 + freed p q.1

-- What holds of a result, if there is one.
abbrev pub Ensures : (State × Effects → Type 0) → Option (State × Effects) → Type 0
Ensures P none = Unit {0}
Ensures P (some q) = P q

pub Conserves-append :
    (s t u : State) (xs ys : Effects)
    → Conserves s (t, xs)
    → Conserves t (u, ys)
    → Conserves s (u, xs ++ ys)
Conserves-append s t u xs ys h k p = omega (
  arith,
  h p,
  k p,
  count-append (λ (e : Effect Call). points_to p (makes e)) xs ys,
  count-append (λ (e : Effect Call). points_to p (frees e)) xs ys,
)

pub Conserves-then :
    (s : State) (q : State × Effects) (f : State → Option (State × Effects))
    → Conserves s q
    → Ensures (Conserves q.0) (f q.0)
    → Ensures (Conserves s) (some q >>= f)
Conserves-then s q f h k = go (f q.0) k
  where
    go :
        (o : Option (State × Effects))
        → Ensures (Conserves q.0) o
        → Ensures (Conserves s) (Option.map (λ r. (r.0, q.1 ++ r.1)) o)
    go none k = tt
    go (some r) k = Conserves-append s q.0 r.0 q.1 r.1 h k

pub Conserves-bind :
    (s : State) (m : Option (State × Effects)) (f : State → Option (State × Effects))
    → Ensures (Conserves s) m
    → ((t : State) → Ensures (Conserves t) (f t))
    → Ensures (Conserves s) (m >>= f)
Conserves-bind s none f h k = tt
Conserves-bind s (some q) f h k = Conserves-then s q f h (k q.0)

-- The Resolvers after a write and after one more.
pub held_on-set :
    (p : ℕ) (heap : List (Option Resolver)) (i : ℕ) (r : Resolver) (o : Option Resolver)
    → join (get_elem? heap i) ≡ some r
    → held_on p (set heap i o) + held_by p (some r) ≡ held_on p heap + held_by p o
held_on-set p [] i r o e = cc
held_on-set p (q ∷ heap) zero r o e = rw e (omega arith)
held_on-set p (q ∷ heap) (suc i) r o e = omega (arith, held_on-set p heap i r o e)

pub held_on-snoc :
    (p : ℕ) (heap : List (Option Resolver)) (o : Option Resolver)
    → held_on p (heap ++ o ∷ []) ≡ held_on p heap + held_by p o
held_on-snoc p [] o = omega arith
held_on-snoc p (q ∷ heap) o = omega (arith, held_on-snoc p heap o)

-- The loop of signals makes and deallocates nothing.
pub signals-quiet :
    (p : ℕ) (hs : List ℕ) → (made p (emit_removed hs) ≡ 0) × (freed p (emit_removed hs) ≡ 0)
unfolding emit_removed count
signals-quiet p [] = (refl, refl)
signals-quiet p (h ∷ hs) = omega (arith, signals-quiet p hs)
