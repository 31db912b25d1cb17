-- ===== src/AndroidNsd/Process/Objects.antt =====
-- androidnsd.cpp: the objects that are there after one is made, written or deleted, and the tasks that
-- use them.
use mathlib.Core.Option.{some-injective}
use qt_zero_conf.AndroidNsd.{State}
use qt_zero_conf.AndroidNsd.Threads.{
  Task, registers, unregisters, stops_discovery, discovers, join, is_instance, remove_all,
}
use qt_zero_conf.AndroidNsd.Slots.{IsValid}
use qt_zero_conf.Base.{
  ℕ, Bool, true, false, if◌then◌else◌, ◌==◌, List, [], ◌∷◌, ◌++◌, Option, none, some, get_elem?,
  set, length, ◌≡◌, ◌≢◌, refl, arith, zero, suc,
}

-- The object of a number after a write to one that is there, and after one more.
pub at-set :
    (heap : List (Option State)) (i j : ℕ) (s : State) (o : Option State)
    → join (get_elem? heap i) ≡ some s
    → join (get_elem? (set heap i o) j) ≡ (if i == j then o else join (get_elem? heap j))
at-set [] i j s o e = cc
at-set (q ∷ heap) zero zero s o e = refl
at-set (q ∷ heap) zero (suc j) s o e = ground arith
at-set (q ∷ heap) (suc i) zero s o e = ground arith
at-set (q ∷ heap) (suc i) (suc j) s o e = ground (arith, at-set heap i j s o e)

pub at-snoc :
    (heap : List (Option State)) (j : ℕ) (o : Option State)
    → join (get_elem? (heap ++ o ∷ []) j)
      ≡ (if length heap == j then o else join (get_elem? heap j))
at-snoc [] zero o = refl
at-snoc [] (suc j) o = ground arith
at-snoc (q ∷ heap) zero o = ground arith
at-snoc (q ∷ heap) (suc j) o = ground (arith, at-snoc heap j o)

pub is_instance-snoc :
    (i k : ℕ) (js : List ℕ)
    → is_instance i (js ++ k ∷ []) ≡ (if k == i then true else is_instance i js)
unfolding is_instance
is_instance-snoc i k [] = ground arith
is_instance-snoc i k (j ∷ js) = ground (arith, is_instance-snoc i k js)

pub is_instance-remove :
    (i k : ℕ) (js : List ℕ)
    → is_instance i (remove_all k js) ≡ (if k == i then false else is_instance i js)
unfolding is_instance remove_all
is_instance-remove i k [] = ground arith
is_instance-remove i k (j ∷ js) = ground (arith, is_instance-remove i k js)

-- The object that a task uses is there.
abbrev pub Usable : List (Option State) → Task → Type 0
Usable heap (registers i port) = join (get_elem? heap i) ≢ none
Usable heap _ = Unit {0}

abbrev pub AllUsable : List (Option State) → List Task → Type 0
AllUsable heap [] = Unit {0}
AllUsable heap (t ∷ ts) = Usable heap t × AllUsable heap ts

-- No registration of the object waits.
abbrev pub Idle : ℕ → List Task → Type 0
Idle i [] = Unit {0}
Idle i (registers j port ∷ ts) = (j ≢ i) × Idle i ts
Idle i (_ ∷ ts) = Idle i ts

pub mono-AllUsable :
    (v w : List (Option State)) (ts : List Task)
    → ((i : ℕ) → join (get_elem? v i) ≢ none → join (get_elem? w i) ≢ none)
    → AllUsable v ts
    → AllUsable w ts
mono-AllUsable v w [] keep u = tt
mono-AllUsable v w (registers i port ∷ ts) keep u = (keep i u.0, mono-AllUsable v w ts keep u.1)
mono-AllUsable v w (unregisters i ∷ ts) keep u = (tt, mono-AllUsable v w ts keep u.1)
mono-AllUsable v w (stops_discovery i ∷ ts) keep u = (tt, mono-AllUsable v w ts keep u.1)
mono-AllUsable v w (discovers i type ∷ ts) keep u = (tt, mono-AllUsable v w ts keep u.1)

pub snoc-AllUsable :
    (heap : List (Option State)) (ts : List Task) (t : Task)
    → AllUsable heap ts
    → Usable heap t
    → AllUsable heap (ts ++ t ∷ [])
snoc-AllUsable heap [] t u h = (h, tt)
snoc-AllUsable heap (s ∷ ts) t u h = (u.0, snoc-AllUsable heap ts t u.1 h)

-- The deletion of an object that no task uses.
pub delete-AllUsable :
    (heap : List (Option State)) (i : ℕ) (s : State) (ts : List Task)
    → join (get_elem? heap i) ≡ some s
    → Idle i ts
    → AllUsable heap ts
    → AllUsable (set heap i none) ts
delete-AllUsable heap i s [] has idle u = tt
delete-AllUsable heap i s (registers j port ∷ ts) has idle u = (
  (λ gone. ground (arith, u.0, idle.0, at-set heap i j s none has)),
  delete-AllUsable heap i s ts has idle.1 u.1,
)
delete-AllUsable heap i s (unregisters j ∷ ts) has idle u =
    (tt, delete-AllUsable heap i s ts has idle u.1)
delete-AllUsable heap i s (stops_discovery j ∷ ts) has idle u =
    (tt, delete-AllUsable heap i s ts has idle u.1)
delete-AllUsable heap i s (discovers j type ∷ ts) has idle u =
    (tt, delete-AllUsable heap i s ts has idle u.1)

-- What one of two objects is, of which each is valid.
pub either-IsValid :
    (b : Bool) (o o' : Option State) (t : State)
    → ((s : State) → o ≡ some s → IsValid s)
    → ((s : State) → o' ≡ some s → IsValid s)
    → (if b then o else o') ≡ some t
    → IsValid t
either-IsValid true o o' t v v' e = v t e
either-IsValid false o o' t v v' e = v' t e

pub some-IsValid : (s t : State) → IsValid s → some s ≡ some t → IsValid t
some-IsValid s t v e = rw (some-injective s t e) at v
