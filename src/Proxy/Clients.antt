-- ===== src/Proxy/Clients.antt =====
-- internal/proxy/server.go: the map `connAuth` from a connection to the state of its client's
-- authentication, with `stateFor`, the check of `ServeHTTP` and the callback `ConnState`. Connections
-- are numbers, and the handler of client authentication is that of ClientAuth.antt.
pub mod Isolation
use px_go.Strings.{Bytes, text, equal}
use px_go.Prelude.{
  ℕ, not, Bool, true, false, List, [], ◌∷◌, Option, none, some, ◌==◌, if◌then◌else◌,
}
use px_go.ClientAuth.{State, Handler, Env, Request, new_state, enabled}
use px_go.ClientAuth.Authenticate.{authenticate}

-- `http.ConnState`
pub data ConnState : Type 0 where
  new_conn active idle hijacked closed : ConnState

-- What the HTTP server calls: `ServeHTTP` for a request of a connection, which is `none` if the
-- context of the request does not hold it, with the path of its URL, and `ConnState`.
pub data Call (N S : Type 0) : Type 0 where
  request : Option ℕ → Bytes → Env N S → Request → Call N S
  conn_state : ℕ → ConnState → Call N S

-- `sync.Map`
abbrev pub ConnAuth : Type 0 → Type 0 → Type 0
ConnAuth N S = ℕ → Option (State N S)

module _ {N S : Type 0} where
  abbrev pub or_new : Option (State N S) → State N S
  or_new none = new_state
  or_new (some s) = s

  abbrev pub store : ℕ → State N S → ConnAuth N S → ConnAuth N S
  store conn s m = λ k. if k == conn then some s else m k

  abbrev pub delete_conn : ℕ → ConnAuth N S → ConnAuth N S
  delete_conn conn m = λ k. if k == conn then none else m k

  -- `stateFor`: the map, which keeps a new state, and the state.
  unfoldable pub state_for : Option ℕ → ConnAuth N S → ConnAuth N S × State N S
  state_for none m = (m, new_state)
  state_for (some conn) m = (store conn (or_new (m conn)) m, or_new (m conn))

  -- `Authenticate` changes the state that the map holds for the connection.
  abbrev pub keep_state : Option ℕ → State N S → ConnAuth N S → ConnAuth N S
  keep_state none s m = m
  keep_state (some conn) s m = store conn s m

  -- The check of the client in `ServeHTTP`: the map, and whether the request goes on.
  unfoldable pub check_client :
      Handler → Option ℕ → Env N S → Request → ConnAuth N S → ConnAuth N S × Bool
  unfolding state_for
  check_client h conn env q m =
      let (kept, s) = state_for conn m in
      let (after, r) = authenticate env h q s in
      if enabled h then (keep_state conn after kept, r.ok) else (m, true)

  -- `ServeHTTP` up to that check, where `allowed` is `isClientAllowed`: a client that is not allowed, the
  -- health check and `handleQuit` are answered in front of it.
  unfoldable pub serve_request :
      (Bytes → Bool)
      → Handler
      → Option ℕ
      → Bytes
      → Env N S
      → Request
      → ConnAuth N S
      → ConnAuth N S × Bool
  unfolding check_client equal
  serve_request allowed h conn path env q m =
      if not (allowed q.remote_addr)
      then (m, false)
      else if equal path (text "/health")
      then (m, false)
      else if equal path (text "/PxQuit")
      then (m, false)
      else check_client h conn env q m

  -- The callback `ConnState`
  unfoldable pub conn_state_changed : ℕ → ConnState → ConnAuth N S → ConnAuth N S
  conn_state_changed conn closed m = delete_conn conn m
  conn_state_changed conn hijacked m = delete_conn conn m
  conn_state_changed conn _ m = m

  -- The map after some calls, which the connections may make in any order.
  unfoldable pub serve_all :
      (Bytes → Bool) → Handler → List (Call N S) → ConnAuth N S → ConnAuth N S
  unfolding serve_request conn_state_changed
  serve_all allowed h [] m = m
  serve_all allowed h (request conn path env q ∷ calls) m =
      serve_all allowed h calls (serve_request allowed h conn path env q m).0
  serve_all allowed h (conn_state conn st ∷ calls) m =
      serve_all allowed h calls (conn_state_changed conn st m)

  -- A server that has just started.
  abbrev pub no_conns : ConnAuth N S
  no_conns conn = none
