-- ===== src/Proxy/Clients/Isolation.antt =====
-- internal/proxy/server.go: the authentication of one connection does not touch another one.
use px_go.Prelude.{
  ℕ, ◌≡◌, ◌↔◌, refl, sym, ap, ◌∙◌, inl, inr, Bool, true, false, not, ◌&&◌, ◌||◌, List, [], ◌∷◌,
  Option, none, some, ◌==◌, if◌then◌else◌, arith, Bool-cases,
}
use px_go.Strings.{Bytes, text, equal}
use px_go.ClientAuth.{Handler, Env, Request, new_state, enabled}
use px_go.ClientAuth.Authenticate.{authenticate, authenticate_all}
use px_go.ClientAuth.Connection.{SomeAccepted, authenticate_all-SomeAccepted}
use px_go.Proxy.Clients.{
  ConnState, new_conn, active, idle, hijacked, closed, Call, request, conn_state, ConnAuth, or_new,
  state_for, check_client, serve_request, conn_state_changed, serve_all, no_conns,
}

abbrev pub ends_conn : ConnState → Bool
ends_conn closed = true
ends_conn hijacked = true
ends_conn _ = false

abbrev is_conn : ℕ → Option ℕ → Bool
is_conn conn none = false
is_conn conn (some k) = k == conn

-- A request that no guard of `ServeHTTP` answers in front of the check.
abbrev pub reaches_check : (Bytes → Bool) → Bytes → Request → Bool
reaches_check allowed path q =
    allowed q.remote_addr && not (equal path (text "/health")) && not (equal path (text "/PxQuit"))

and_false : (b : Bool) → (b && false) ≡ false
and_false true = refl
and_false false = refl

module _ {N S : Type 0} where
  -- The connection ends in one of the calls.
  abbrev pub ends_in : ℕ → List (Call N S) → Bool
  ends_in conn [] = false
  ends_in conn (request k path env q ∷ calls) = ends_in conn calls
  ends_in conn (conn_state k st ∷ calls) = (k == conn && ends_conn st) || ends_in conn calls

  -- The requests of a connection since its last end that reach the check of the client.
  abbrev pub own_requests : (Bytes → Bool) → ℕ → List (Call N S) → List (Env N S × Request)
  own_requests allowed conn [] = []
  own_requests allowed conn (request k path env q ∷ calls) =
      if (is_conn conn k && reaches_check allowed path q) && not (ends_in conn calls)
      then (env, q) ∷ own_requests allowed conn calls
      else own_requests allowed conn calls
  own_requests allowed conn (conn_state k st ∷ calls) = own_requests allowed conn calls

  -- What a call leaves of the state of a connection.
  check_client-state :
      (h : Handler) (conn : ℕ) (k : Option ℕ) (env : Env N S) (q : Request) (m : ConnAuth N S)
      → enabled h ≡ true
      → or_new ((check_client h k env q m).0 conn)
        ≡ (if is_conn conn k then (authenticate env h q (or_new (m conn))).0 else or_new (m conn))
  unfolding check_client state_for
  check_client-state h conn none env q m on = rw on refl
  check_client-state h conn (some k) env q m on = ground arith

  serve_request-state :
      (allowed : Bytes → Bool) (h : Handler) (conn : ℕ) (k : Option ℕ) (path : Bytes)
      (env : Env N S) (q : Request) (m : ConnAuth N S)
      → enabled h ≡ true
      → or_new ((serve_request allowed h k path env q m).0 conn) ≡ (
          if is_conn conn k && reaches_check allowed path q
          then (authenticate env h q (or_new (m conn))).0
          else or_new (m conn))
  unfolding serve_request
  serve_request-state allowed h conn k path env q m on =
      ground (arith, check_client-state h conn k env q m on)

  conn_state_changed-state :
      (conn k : ℕ) (st : ConnState) (m : ConnAuth N S)
      → or_new (conn_state_changed k st m conn)
        ≡ (if k == conn && ends_conn st then new_state else or_new (m conn))
  unfolding conn_state_changed
  conn_state_changed-state conn k closed m = ground arith
  conn_state_changed-state conn k hijacked m = ground arith
  conn_state_changed-state conn k new_conn m = ground arith
  conn_state_changed-state conn k active m = ground arith
  conn_state_changed-state conn k idle m = ground arith

  serve_all-state :
      (allowed : Bytes → Bool) (h : Handler) (conn : ℕ) (calls : List (Call N S)) (m : ConnAuth N S)
      → enabled h ≡ true
      → or_new (serve_all allowed h calls m conn)
        ≡ authenticate_all h
            (own_requests allowed conn calls)
            (if ends_in conn calls then new_state else or_new (m conn))
  unfolding serve_all authenticate_all
  serve_all-state allowed h conn [] m on = refl
  serve_all-state allowed h conn (request k path env q ∷ calls) m on =
      let own = is_conn conn k && reaches_check allowed path q in
      let rest = authenticate_all h (own_requests allowed conn calls) in
      let one = serve_request-state allowed h conn k path env q m on in
      serve_all-state allowed h conn calls (serve_request allowed h k path env q m).0 on
      ∙ (elim (Bool-cases (ends_in conn calls)) [
        | inl e ↦ rw (e, and_false own) refl
        | inr e ↦ elim (Bool-cases own) [
          | inl t ↦ rw (e, t, authenticate_all) (ap rest (one ∙ rw t refl))
          | inr t ↦ rw (e, t) (ap rest (one ∙ rw t refl))
        ]
      ])
  serve_all-state allowed h conn (conn_state k st ∷ calls) m on =
      serve_all-state allowed h conn calls (conn_state_changed k st m) on
      ∙ ap (authenticate_all h (own_requests allowed conn calls))
          (ground (arith, conn_state_changed-state conn k st m))

  -- In a server whose clients have to authenticate, whatever calls its connections make in whatever
  -- order, a connection counts as authenticated exactly if one of its own requests since its last
  -- end held an answer that was accepted when it came, and reached the check: a request of another
  -- connection, one before that end, or one that is answered in front of the check, for it is
  -- not allowed or asks for /health or /PxQuit, never authenticates it.
  pub serve_all-SomeAccepted :
      (allowed : Bytes → Bool) (h : Handler) (conn : ℕ) (calls : List (Call N S))
      → enabled h ≡ true
      → ((or_new (serve_all allowed h calls no_conns conn)).authed ≡ true)
        ↔ SomeAccepted h (own_requests allowed conn calls) new_state
  serve_all-SomeAccepted allowed h conn calls on =
      let e : or_new (serve_all allowed h calls no_conns conn)
          ≡ authenticate_all h (own_requests allowed conn calls) new_state =
        serve_all-state allowed h conn calls no_conns on
        ∙ ap (authenticate_all h (own_requests allowed conn calls)) (ground arith) in
      let (sound, complete) =
        authenticate_all-SomeAccepted h (own_requests allowed conn calls) new_state on in
      (
        (λ a. elim (sound (sym (ap (λ s. s.authed) e) ∙ a)) [ inl f ↦ cc f | inr b ↦ b ]),
        λ b. ap (λ s. s.authed) e ∙ complete (inr b),
      )
