-- ===== src/Bonjour/Lifetime.antt =====
-- bonjour.cpp: the DNSServiceRefs over the life of a QZeroConf.
use qt_zero_conf.Base.{
  ℕ, ◌+◌, ◌≡◌, refl, true, ◌&&◌, List, [], ◌∷◌, Option, none, some, arith, if◌then◌else◌, inl, inr,
  Bool-cases,
}
use qt_zero_conf.QMap.{is_some}
use qt_zero_conf.QMap.Count.{count}
use qt_zero_conf.Service.{
  Externals, calls, emits, error, browser_failed, service_registration_failed,
}
use qt_zero_conf.Avahi.{LayerProtocol}
use qt_zero_conf.Text.{Text}
use qt_zero_conf.Bonjour.{
  State, Reply, Effects, Visits, DnsProtocol, new_state, ◌>>=◌, clean_up, service_register,
  service_browse,
}
use qt_zero_conf.Bonjour.Callbacks.{
  Browse, browse_callback, register_callback, from_big_endian, on_browse_add, on_browse_remove,
}
use qt_zero_conf.Bonjour.Api.{
  resolver_ready, bs_read, browser_read, start_service_publish, stop_service_publish, stop_browser,
  destroy, browse_protocol, start_browser, add_service_txt_name, add_service_txt_record,
  clear_service_txt_records, Entry, step, run, starts_publish, stops_publish, stops_browser,
  clears_txt, starts_browser, adds_txt_name, adds_txt_record, resolver_reads, service_reads,
  browser_reads, registers, browses, resolves, addresses,
}
use qt_zero_conf.Bonjour.References.{
  made, freed, kept, Conserves, Ensures, Conserves-then, Conserves-bind,
}
use qt_zero_conf.Bonjour.Conserves.{
  clean_up-Conserves, browser-Conserves, publish-Conserves, failed-Conserves, either-Conserves,
}
use qt_zero_conf.Bonjour.Leaks.{
  address_reply-Conserves, resolver_callback-Conserves, browse_add-Conserves,
  browse_remove-Conserves,
}
use qt_zero_conf.Bonjour.CleanUp.{VisitsEach, Returns, Good, After}
use qt_zero_conf.Bonjour.Safety.{AllowedAll, lifetime-IsSafe}

module _ (x : Externals) (v : Visits) where
  -- cleanUp for the publication or for the browser, and the error behind it.
  unpublished :
      (s : State)
      → Ensures (Conserves s) (
          clean_up x v s s.dnss_ref >>= λ t.
          some (t, emits (error service_registration_failed) ∷ []))
  unpublished s =
      failed-Conserves x v s _ service_registration_failed (publish-Conserves x v s s.dnss_ref refl)

  unbrowsed :
      (s : State)
      → Ensures
          (Conserves s)
          (clean_up x v s s.browser >>= λ t. some (t, emits (error browser_failed) ∷ []))
  unbrowsed s = failed-Conserves x v s _ browser_failed (browser-Conserves x v s s.browser refl)

  register-Conserves :
      (s : State) (name type domain : Text) (port interface : ℕ) (reply : Reply)
      → Ensures (Conserves s) (start_service_publish x v s name type domain port interface reply)
  unfolding start_service_publish count
  register-Conserves s name type domain port interface reply =
      elim (Bool-cases (is_some s.dnss_ref)) [
        | inl busy ↦ rw busy (λ p. omega arith)
        | inr idle ↦
            (let t = record s { dnss_ref = reply.ref } in
              rw idle (
                Conserves-then s
                  (
                    t,
                    calls (
                          service_register interface name type domain (from_big_endian port) s.txt
                            reply.ref)
                        ∷ [],
                  )
                  (λ t.
                    if reply.ok && reply.has_socket
                    then some (record t { service_notifier = true }, [])
                    else (clean_up x v t t.dnss_ref >>= λ u.
                        some (u, emits (error service_registration_failed) ∷ [])))
                  (λ p. ground (arith, idle))
                  (either-Conserves x v t (reply.ok && reply.has_socket) _ _ (λ p. omega arith)
                    (unpublished t))))
      ]

  start-Conserves :
      (s : State) (type : Text) (protocol : LayerProtocol) (reply : Reply)
      → Ensures (Conserves s) (start_browser x v s type protocol reply)
  unfolding start_browser count
  start-Conserves s type protocol reply = elim (Bool-cases (is_some s.browser)) [
    | inl busy ↦ rw busy (λ p. omega arith)
    | inr idle ↦
        (let t = record s { protocol = browse_protocol protocol; browser = reply.ref } in
          rw idle (
            Conserves-then s (t, calls (service_browse (x.to_utf8 type) reply.ref) ∷ [])
              (λ t.
                if reply.ok && reply.has_socket
                then some (record t { browser_notifier = true }, [])
                else (clean_up x v t t.browser >>= λ u.
                    some (u, emits (error browser_failed) ∷ [])))
              (λ p. ground (arith, idle))
              (either-Conserves x v t (reply.ok && reply.has_socket) _ _ (λ p. omega arith)
                (unbrowsed t))))
  ]

  callback-Conserves :
      (s : State) (e : Browse) (reply : Reply)
      → Ensures (Conserves s) (browse_callback x v s e reply)
  unfolding browse_callback
  callback-Conserves s e reply =
      either-Conserves x v s e.ok _ _
        (either-Conserves x v s e.add (on_browse_add x s e reply) (on_browse_remove x s e)
          (browse_add-Conserves x s e reply) (browse_remove-Conserves x s e))
        (unbrowsed s)

  step-Conserves : (s : State) (e : Entry) → Ensures (Conserves s) (step x v s e)
  unfolding step resolver_ready bs_read browser_read stop_service_publish stop_browser
      register_callback clear_service_txt_records add_service_txt_name add_service_txt_record count
  step-Conserves s (starts_publish name type domain port interface reply) =
      register-Conserves s name type domain port interface reply
  step-Conserves s stops_publish = publish-Conserves x v s s.dnss_ref refl
  step-Conserves s stops_browser = browser-Conserves x v s s.browser refl
  step-Conserves s clears_txt = λ p. omega arith
  step-Conserves s (starts_browser type protocol reply) = start-Conserves s type protocol reply
  step-Conserves s (adds_txt_name name) = λ p. omega arith
  step-Conserves s (adds_txt_record name value) = λ p. omega arith
  step-Conserves s (resolver_reads i ok) =
      either-Conserves x v s ok _ _ (λ p. omega arith) (clean_up-Conserves x s i)
  step-Conserves s (service_reads ok) =
      either-Conserves x v s ok _ _ (λ p. omega arith) (unpublished s)
  step-Conserves s (browser_reads ok) =
      either-Conserves x v s ok _ _ (λ p. omega arith) (unbrowsed s)
  step-Conserves s (registers ok) = either-Conserves x v s ok _ _ (λ p. omega arith) (unpublished s)
  step-Conserves s (browses e reply) = callback-Conserves s e reply
  step-Conserves s (resolves i e reply) = resolver_callback-Conserves x s i e reply
  step-Conserves s (addresses i e) = address_reply-Conserves x s i e

  run-Conserves : (s : State) (es : List Entry) → Ensures (Conserves s) (run x v s es)
  unfolding run count
  run-Conserves s [] = λ p. omega arith
  run-Conserves s (e ∷ es) =
      Conserves-bind s (step x v s e) (λ t. run x v t es) (step-Conserves s e)
        (λ t. run-Conserves t es)

  destroy-Conserves : (s : State) → Ensures (Conserves s) (destroy x v s)
  unfolding destroy
  destroy-Conserves s =
      Conserves-bind s (clean_up x v s s.dnss_ref) (λ t. clean_up x v t t.browser)
        (publish-Conserves x v s s.dnss_ref refl) (λ t. browser-Conserves x v t t.browser refl)

-- From the constructor through any entries to the destructor: of each DNSServiceRef as many are made
-- as are deallocated and are kept at the end, by a member or by a Resolver that is there. In
-- particular none is deallocated more often than it is made. A library calls back only for a Resolver
-- that is there and hands whole records over, and a loop over a QHash visits each entry once if its
-- body does not change the QHash. The browser is cleaned up, by the application, after a failure, or
-- by the destructor, only while no Resolver stands in the map.
pub lifetime-Conserves :
    (x : Externals) (v : Visits) (protocol : DnsProtocol) (es : List Entry)
    → VisitsEach v
    → AllowedAll x v (new_state protocol) es
    → After (λ t. t.resolvers ≡ []) (run x v (new_state protocol) es)
    → Returns {A = State × Effects}
        (λ q. (p : ℕ) → made p q.1 ≡ freed p q.1 + kept p q.0)
        (run x v (new_state protocol) es >>= destroy x v)
unfolding new_state
lifetime-Conserves x v protocol es each ok empty =
    let s = new_state protocol in
    both (run x v s es >>= destroy x v) (lifetime-IsSafe x v protocol es each ok empty) (
      Conserves-bind s (run x v s es) (destroy x v) (run-Conserves x v s es)
        (destroy-Conserves x v))
  where
    both :
        (o : Option (State × Effects))
        → Returns (Good x (new_state protocol)) o
        → Ensures (Conserves (new_state protocol)) o
        → Returns {A = State × Effects} (λ q. (p : ℕ) → made p q.1 ≡ freed p q.1 + kept p q.0) o
    both none g h = absurd g
    both (some q) g h = λ p. omega (arith, h p)
