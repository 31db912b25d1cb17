-- ===== src/Bonjour.antt =====
-- bonjour.cpp and bonjour_p.h: QZeroConfPrivate and Resolver over dns_sd. A Resolver is an index
-- into the list of all that were made, with `none` for one that is deleted; a function whose result
-- is `none` has used a deleted Resolver, an iterator that is no longer valid, or bytes behind the
-- end of a record. The slots connected to the signals are taken not to call back into the object
-- while it is in one of these functions.
pub mod Wire
pub mod Callbacks
pub mod Api
pub mod Alive
pub mod CleanUp
pub mod Keeps
pub mod Answers
pub mod References
pub mod Conserves
pub mod Leaks
pub mod Entries
pub mod Safety
pub mod Iterators
pub mod Lifetime
pub mod Kept
pub mod Orphan
pub mod Removal
mod Tests
use mathlib.Core.Option
use qt_zero_conf.Avahi.Resources.{points_to}
use qt_zero_conf.Service.Signals.{emit_removed}
use qt_zero_conf.Base.{
  length, ◌==◌, set, ◌∷◌, if◌then◌else◌, ◌++◌, false, none, get_elem?, some, Option, [], ℕ, Bool,
  List,
}
use qt_zero_conf.QMap.{values, remove, QMap}
use qt_zero_conf.Service.{
  object_or_blank, calls, service_key, blank, Effect, ServiceData, Externals,
}
use qt_zero_conf.Text.{Text}

-- The calls of dns_sd. A call that sets a DNSServiceRef carries what it has set it to.
pub data Call : Type 0 where
  service_register : ℕ → Text → Text → Text → ℕ → Text → Option ℕ → Call
  service_browse : Text → Option ℕ → Call
  service_resolve : ℕ → Text → Text → Text → Option ℕ → Call
  get_addr_info : ℕ → Text → Option ℕ → Call
  ref_deallocate : Option ℕ → Call

abbrev pub Effects : Type 0
Effects = List (Effect Call)

-- The answer to a call that sets a DNSServiceRef: whether it succeeds, what the reference then
-- is, and whether DNSServiceRefSockFD gives a socket for it.
pub record Reply : Type 0 where
  pub ok : Bool
  pub ref : Option ℕ
  pub has_socket : Bool

-- The notifiers are there or not.
pub record Resolver : Type 0 where
  pub zcs : ℕ
  pub resolver_ref : Option ℕ
  pub address_ref : Option ℕ
  pub resolver_notifier : Bool
  pub address_notifier : Bool

pub data DnsProtocol : Type 0 where
  protocol_ipv4 protocol_ipv6 : DnsProtocol

-- The members of QZeroConfPrivate, with the map `services` of QZeroConf, the objects that the
-- shared pointers of it name, and the resolvers.
pub record State : Type 0 where
  pub objects : List ServiceData
  pub services : QMap ℕ
  pub dnss_ref : Option ℕ
  pub browser : Option ℕ
  pub protocol : DnsProtocol
  pub service_notifier : Bool
  pub browser_notifier : Bool
  pub txt : Text
  pub resolvers : QMap ℕ
  pub heap : List (Option Resolver)

-- The members after the constructor; `protocol` is not initialised.
unfoldable pub new_state : DnsProtocol → State
new_state protocol = record {
  objects = [];
  services = [];
  dnss_ref = none;
  browser = none;
  protocol = protocol;
  service_notifier = false;
  browser_notifier = false;
  txt = [];
  resolvers = [];
  heap = [];
}

abbrev pub join {ℓ} : {A : Type ℓ} → Option (Option A) → Option A
join none = none
join (some o) = o

-- A Resolver by its pointer.
abbrev pub resolver_at : State → ℕ → Option Resolver
resolver_at s i = join (get_elem? s.heap i)

-- The members of an object by its handle.
abbrev pub object_at : State → ℕ → ServiceData
object_at s h = object_or_blank (get_elem? s.objects h)

-- What Qt leaves open: the order in which `for (auto resolver : resolvers)` visits the entries of a
-- QHash that its body does not change.
pub record Visits : Type 0 where
  pub visit : QMap ℕ → List ℕ

-- `m ++ later`, for two steps of which the second needs the first.
infixl 5 ◌>>=◌
abbrev pub ◌>>=◌ :
    Option (State × Effects) → (State → Option (State × Effects)) → Option (State × Effects)
none >>= f = none
some (s, effects) >>= f = Option.map (λ q. (q.0, effects ++ q.1)) (f s)

module _ (x : Externals) where
  -- The key of the Resolver's service, `zcs->name() + QString::number(zcs->interfaceIndex())`.
  abbrev pub zcs_key : State → ℕ → Text
  zcs_key s h = let d = object_at s h in service_key x d.name d.interface_index

  -- Resolver::cleanUp on a Resolver that is there.
  abbrev pub delete_resolver : State → ℕ → Resolver → State × Effects
  delete_resolver s i r = (
    record s { resolvers = remove (zcs_key s r.zcs) s.resolvers; heap = set s.heap i none },
    calls (ref_deallocate r.resolver_ref) ∷ calls (ref_deallocate r.address_ref) ∷ [],
  )

  -- Resolver::cleanUp
  unfoldable pub resolver_clean_up : State → ℕ → Option (State × Effects)
  resolver_clean_up s i = Option.map (delete_resolver s i) (resolver_at s i)

  -- `for (auto resolver : resolvers) resolver->cleanUp();` A body that removes an entry of the QHash
  -- leaves the loop an iterator that it may not use again, not even to find that it is at the end.
  unfoldable pub clean_up_all : State → List ℕ → Option (State × Effects)
  clean_up_all s [] = some (s, [])
  clean_up_all s (i ∷ is) = resolver_clean_up s i >>= λ t.
      if length t.resolvers == length s.resolvers then clean_up_all t is else none

  module _ (v : Visits) where
    -- The branch of QZeroConfPrivate::cleanUp for the browser.
    unfoldable pub clean_up_browser : State → ℕ → Option (State × Effects)
    clean_up_browser s b =
        clean_up_all (record s { browser = none; browser_notifier = false }) (v.visit s.resolvers)
        >>= λ t. some (
          record t { resolvers = []; services = [] },
          emit_removed (values t.services) ++ calls (ref_deallocate (some b)) ∷ [],
        )

    -- QZeroConfPrivate::cleanUp
    unfoldable pub clean_up : State → Option ℕ → Option (State × Effects)
    unfolding clean_up_browser
    clean_up s none = some (s, [])
    clean_up s (some to_clean) =
        if points_to to_clean s.browser
        then clean_up_browser s to_clean
        else if points_to to_clean s.dnss_ref
        then some (
          record s { dnss_ref = none; service_notifier = false },
          calls (ref_deallocate (some to_clean)) ∷ [],
        )
        else some (s, calls (ref_deallocate (some to_clean)) ∷ [])
