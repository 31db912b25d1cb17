-- ===== src/Bonjour/Entries.antt =====
-- bonjour.cpp: every entry that the library may make, from a state in which every Resolver of the map
-- is there.
use qt_zero_conf.Bonjour.{
  Effects, State, Reply, resolver_at, ◌>>=◌, Visits, object_at, service_register, service_browse,
  clean_up,
}
use qt_zero_conf.Bonjour.Wire.{wire, read_wire-wire, read_wire}
use qt_zero_conf.Bonjour.Callbacks.{
  entries_of, Browse, Resolve, AddressReply, resolver_callback, on_browse_add, on_browse_remove,
  address_reply, browse_callback, register_callback, from_big_endian,
}
use qt_zero_conf.Bonjour.Api.{
  resolver_ready, bs_read, browser_read, start_service_publish, stop_service_publish, stop_browser,
  browse_protocol, start_browser, add_service_txt_name, add_service_txt_record,
  clear_service_txt_records, Entry, step, starts_publish, stops_publish, stops_browser, clears_txt,
  starts_browser, adds_txt_name, adds_txt_record, resolver_reads, service_reads, browser_reads,
  registers, browses, resolves, addresses,
}
use qt_zero_conf.Service.{
  Externals, calls, emits, error, browser_failed, service_registration_failed, ErrorT,
}
use qt_zero_conf.Service.Txt.{read_txt}
use qt_zero_conf.Avahi.{LayerProtocol}
use qt_zero_conf.Base.{
  false, true, ◌&&◌, ◌≡◌, none, length, List, some, Option, ℕ, [], ◌∷◌, arith, inl, inr, Bool,
  Bool-cases, Option-cases, if◌then◌else◌, ◌<◌, ◌≢◌, suc, refl, ap,
}
use qt_zero_conf.QMap.{is_some, QMap}
use qt_zero_conf.QMap.Count.{count}
use qt_zero_conf.Text.{Text}
use qt_zero_conf.Bonjour.CleanUp.{
  IsSafe, Good, Returns, Good-then, Good-bind, clean_up-Good, clean_up_ref-Good, VisitsEach, Cleans,
}
use qt_zero_conf.Bonjour.Keeps.{browse_add-Good, browse_remove-Good}
use qt_zero_conf.Bonjour.Answers.{on_resolved-Good, on_address-Good}

-- The bytes of a TXT record are entries behind their lengths, and as long as the library says.
abbrev pub IsRecord : Resolve → Type 0
IsRecord e =
    (ts : List Text) × (e.txt_record ≡ wire ts)
    × (e.txt_len ≡ length (wire ts))
    × (length (wire ts) < 65536)

-- A library calls back only for a Resolver that is there, and hands a whole record over; and an entry
-- that hands a reference to cleanUp, a method of the application or a failure of the library, comes
-- only while that cleans no browser with a Resolver in the map.
abbrev pub Allowed : State → Entry → Type 0
Allowed s (resolver_reads i ok) = resolver_at s i ≢ none
Allowed s (resolves i e reply) = (resolver_at s i ≢ none) × (e.ok ≡ true → IsRecord e)
Allowed s (addresses i e) = resolver_at s i ≢ none
Allowed s (starts_publish name type domain port interface reply) =
    (reply.ok && reply.has_socket) ≡ false → Cleans s reply.ref
Allowed s stops_publish = Cleans s s.dnss_ref
Allowed s (service_reads ok) = ok ≡ false → Cleans s s.dnss_ref
Allowed s (registers ok) = ok ≡ false → Cleans s s.dnss_ref
Allowed s (starts_browser type protocol reply) =
    (reply.ok && reply.has_socket) ≡ false → s.resolvers ≡ []
Allowed s stops_browser = Cleans s s.browser
Allowed s (browser_reads ok) = ok ≡ false → Cleans s s.browser
Allowed s (browses e reply) = e.ok ≡ false → Cleans s s.browser
Allowed s _ = Unit {0}

-- Members aside from the maps, the objects and the Resolvers.
aside-IsSafe :
    (x : Externals) (s t : State)
    → IsSafe x s
    → t.objects ≡ s.objects
    → t.services ≡ s.services
    → t.resolvers ≡ s.resolvers
    → t.heap ≡ s.heap
    → IsSafe x t
aside-IsSafe x s t v a b c d = record {
  keyed = rw (a, c, d) v.keyed;
  services_sorted = rw b v.services_sorted;
  resolvers_sorted = rw c v.resolvers_sorted;
}

read_record :
    (m : QMap Text) (e : Resolve)
    → IsRecord e
    → (n : QMap Text) × (entries_of (read_wire (suc (length e.txt_record)) m e.txt_len e.txt_record)
        ≡ some n)
read_record m e (ts, bytes, len, small) = (
  read_txt m ts,
  rw (bytes, len)
      (ap entries_of (read_wire-wire (suc (length (wire ts))) m ts small (omega arith))),
)

module _ (x : Externals) where
  address_reply-Good :
      (s : State) (i : ℕ) (e : AddressReply)
      → resolver_at s i ≢ none
      → IsSafe x s
      → Returns (Good x s) (address_reply x s i e)
  unfolding address_reply count
  address_reply-Good s i e alive v = elim (Option-cases (resolver_at s i)) [
    | inl gone ↦ absurd (alive gone)
    | inr (r, has) ↦
        rw (has, address_reply)
          (elim (Bool-cases e.ok) [
            | inl ok ↦ elim (Bool-cases e.add) [
              | inl adds ↦ simp (ok, adds) (on_address-Good x s r e v)
              | inr other ↦ rw (ok, other) (v, λ h. omega arith)
            ]
            | inr failed ↦ rw failed (clean_up-Good x s i alive v)
          ])
  ]

  resolver_callback-Good :
      (s : State) (i : ℕ) (e : Resolve) (reply : Reply)
      → resolver_at s i ≢ none
      → (e.ok ≡ true → IsRecord e)
      → IsSafe x s
      → Returns (Good x s) (resolver_callback x s i e reply)
  unfolding resolver_callback
  resolver_callback-Good s i e reply alive whole v = elim (Option-cases (resolver_at s i)) [
    | inl gone ↦ absurd (alive gone)
    | inr (r, has) ↦ elim (Bool-cases e.ok) [
      | inl ok ↦
          (let (m, all) = read_record (object_at s r.zcs).txt e (whole ok) in
            rw (has, ok, all, resolver_callback) (on_resolved-Good x s i r e m reply has v))
      | inr failed ↦ rw (has, failed, resolver_callback) (clean_up-Good x s i alive v)
    ]
  ]

pub emptied : (s : State) (p : Option ℕ) → s.resolvers ≡ [] → Cleans s p
emptied s none e = tt
emptied s (some p) e = λ _. e

moved : (s : State) (p q : Option ℕ) → Cleans s p → Cleans (record s { dnss_ref = q }) p
moved s none q e = tt
moved s (some p) q e = e

module _ (x : Externals) (v : Visits) (each : VisitsEach v) where
  -- cleanUp for a reference, and the error that is signalled behind it.
  failed-Good :
      (s : State) (p : Option ℕ) (code : ErrorT)
      → Cleans s p
      → IsSafe x s
      → Returns (Good x s) (clean_up x v s p >>= λ t. some (t, emits (error code) ∷ []))
  unfolding count
  failed-Good s p code ok safe =
      Good-bind x s (clean_up x v s p) (λ t. some (t, emits (error code) ∷ []))
        (clean_up_ref-Good x v each s p ok safe) (λ t u. (u, λ h. omega arith))

  -- A branch on whether something has gone well, where the other one is cleanUp and an error.
  reads-Good :
      (s : State) (ok : Bool) (p : Option ℕ) (code : ErrorT) (well : Option (State × Effects))
      → (ok ≡ false → Cleans s p)
      → IsSafe x s
      → Returns (Good x s) well
      → Returns
          (Good x s)
          (if ok then well else (clean_up x v s p >>= λ t. some (t, emits (error code) ∷ [])))
  reads-Good s true p code well clean safe good = good
  reads-Good s false p code well clean safe good = failed-Good s p code (clean refl) safe

  callback-Good :
      (s : State) (e : Browse) (reply : Reply)
      → (e.ok ≡ false → Cleans s s.browser)
      → IsSafe x s
      → Returns (Good x s) (browse_callback x v s e reply)
  unfolding browse_callback
  callback-Good s e reply clean safe = reads-Good s e.ok s.browser browser_failed _ clean safe (
      both e.add (on_browse_add x s e reply) (on_browse_remove x s e)
        (browse_add-Good x s e reply safe) (browse_remove-Good x s e safe))
    where
      both :
          (b : Bool) (f g : Option (State × Effects))
          → Returns (Good x s) f
          → Returns (Good x s) g
          → Returns (Good x s) (if b then f else g)
      both true f g p q = p
      both false f g p q = q

  publish-Good :
      (s : State) (name type domain : Text) (port interface : ℕ) (reply : Reply)
      → ((reply.ok && reply.has_socket) ≡ false → Cleans s reply.ref)
      → IsSafe x s
      → Returns (Good x s) (start_service_publish x v s name type domain port interface reply)
  unfolding start_service_publish count
  publish-Good s name type domain port interface reply clean safe =
      elim (Bool-cases (is_some s.dnss_ref)) [
        | inl busy ↦ rw busy (safe, λ h. omega arith)
        | inr idle ↦
            (let t = record s { dnss_ref = reply.ref } in
              let u : IsSafe x t = aside-IsSafe x s t safe refl refl refl refl in
              rw idle (
                Good-then x s
                  (
                    t,
                    calls (
                          service_register interface name type domain (from_big_endian port) s.txt
                            reply.ref)
                        ∷ [],
                  )
                  (λ t.
                    if reply.ok && reply.has_socket
                    then some (record t { service_notifier = true }, [])
                    else (clean_up x v t t.dnss_ref >>= λ u.
                        some (u, emits (error service_registration_failed) ∷ [])))
                  (u, λ h. omega arith)
                  (reads-Good t (reply.ok && reply.has_socket) t.dnss_ref
                    service_registration_failed _ (λ f. moved s reply.ref reply.ref (clean f)) u
                    (
                      aside-IsSafe x t (record t { service_notifier = true }) u refl refl refl refl,
                      λ h. omega arith,
                    ))))
      ]

  browser-Good :
      (s : State) (type : Text) (protocol : LayerProtocol) (reply : Reply)
      → ((reply.ok && reply.has_socket) ≡ false → s.resolvers ≡ [])
      → IsSafe x s
      → Returns (Good x s) (start_browser x v s type protocol reply)
  unfolding start_browser count
  browser-Good s type protocol reply clean safe = elim (Bool-cases (is_some s.browser)) [
    | inl busy ↦ rw busy (safe, λ h. omega arith)
    | inr idle ↦
        (let t = record s { protocol = browse_protocol protocol; browser = reply.ref } in
          let u : IsSafe x t = aside-IsSafe x s t safe refl refl refl refl in
          rw idle (
            Good-then x s (t, calls (service_browse (x.to_utf8 type) reply.ref) ∷ [])
              (λ t.
                if reply.ok && reply.has_socket
                then some (record t { browser_notifier = true }, [])
                else (clean_up x v t t.browser >>= λ u.
                    some (u, emits (error browser_failed) ∷ [])))
              (u, λ h. omega arith)
              (reads-Good t (reply.ok && reply.has_socket) t.browser browser_failed _
                (λ f. emptied t t.browser (clean f)) u
                (
                  aside-IsSafe x t (record t { browser_notifier = true }) u refl refl refl refl,
                  λ h. omega arith,
                ))))
  ]

  -- Every entry that the library may make.
  pub step-Good :
      (s : State) (e : Entry) → Allowed s e → IsSafe x s → Returns (Good x s) (step x v s e)
  unfolding step resolver_ready bs_read browser_read stop_service_publish stop_browser
      register_callback clear_service_txt_records add_service_txt_name add_service_txt_record count
  step-Good s (starts_publish name type domain port interface reply) ok safe =
      publish-Good s name type domain port interface reply ok safe
  step-Good s stops_publish ok safe = clean_up_ref-Good x v each s s.dnss_ref ok safe
  step-Good s stops_browser ok safe = clean_up_ref-Good x v each s s.browser ok safe
  step-Good s clears_txt ok safe =
      (aside-IsSafe x s (record s { txt = [] }) safe refl refl refl refl, λ h. omega arith)
  step-Good s (starts_browser type protocol reply) ok safe =
      browser-Good s type protocol reply ok safe
  step-Good s (adds_txt_name name) ok safe =
      (aside-IsSafe x s (add_service_txt_name x s name) safe refl refl refl refl, λ h. omega arith)
  step-Good s (adds_txt_record name value) ok safe = (
    aside-IsSafe x s (add_service_txt_record x s name value) safe refl refl refl refl,
    λ h. omega arith,
  )
  step-Good s (resolver_reads i true) alive safe = (safe, λ h. omega arith)
  step-Good s (resolver_reads i false) alive safe = clean_up-Good x s i alive safe
  step-Good s (service_reads ok) clean safe =
      reads-Good s ok s.dnss_ref service_registration_failed (some (s, [])) clean safe
        (safe, λ h. omega arith)
  step-Good s (browser_reads ok) clean safe =
      reads-Good s ok s.browser browser_failed (some (s, [])) clean safe (safe, λ h. omega arith)
  step-Good s (registers ok) clean safe =
      reads-Good s ok s.dnss_ref service_registration_failed _ clean safe (safe, λ h. omega arith)
  step-Good s (browses e reply) ok safe = callback-Good s e reply ok safe
  step-Good s (resolves i e reply) ok safe = resolver_callback-Good x s i e reply ok.0 ok.1 safe
  step-Good s (addresses i e) alive safe = address_reply-Good x s i e alive safe
