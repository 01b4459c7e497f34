-- ===== src/Proxy/Server.antt =====
-- internal/proxy/server.go: `ServeHTTP`, `isClientAllowed` and `handleQuit`, with `handleConnect`
-- of internal/proxy/handler.go, as lists of what a request does. The semaphore `sem` is a count
-- of the slots taken, and what the network and the client authentication answer is part of the
-- request.
pub mod Slots
pub mod Load
use px_go.Prelude.{
  ℕ, Bool, true, false, not, ◌&&◌, List, [], ◌∷◌, ◌++◌, Option, none, some, leb, ◌==◌,
  if◌then◌else◌,
}
use px_go.Strings.{Bytes, text, equal}
use px_go.Network.{Addr, v4, v6, Outcome, value, Matcher, match_ip, ◌>>=◌}
use px_go.Proxy.Route.{Route, Routing, resolve_route, handle_http}

-- `locals` says whether an address is in the set of the host's own. `threads` is the capacity of
-- the semaphore, and `sem` the number of its slots that are taken.
pub record Server : Type 0 where
  pub host_only : Bool
  pub gateway : Bool
  pub allow : Option Matcher
  pub locals : Addr → Bool
  pub routing : Routing
  pub pac : Option Bytes
  pub threads : ℕ
  pub sem : ℕ

-- The end of `connectViaProxy` or of a dial, and what `Hijack` answers.
pub data Hijack : Type 0 where
  unsupported hijack_failed hijacked : Hijack

pub record Request : Type 0 where
  -- What `parseRemoteIP` answers; `none` is the address that is not valid.
  pub remote : Option Addr
  pub path : Bytes
  pub is_connect : Bool
  -- `clientAuth.Enabled()` and the Boolean of `Authenticate`.
  pub auth_enabled : Bool
  pub authenticated : Bool
  pub url : Bytes
  pub host : Bytes
  -- For a CONNECT request: the direct dial, `connectViaProxy`, and the hijacking.
  pub dials : Bool
  pub connects : Bytes → Bool
  pub hijack : Hijack
  -- For the others: the body's length, the direct round trip, and `roundTripProxy`.
  pub body : Option ℕ
  pub direct : Option ℕ
  pub round_trip : Bytes → Option ℕ

pub data Event : Type 0 where
  acquire release close_upstream established relay shut_down nil_pointer : Event
  reply : ℕ → Event

unfoldable pub allowed_by : Server → Addr → Option Matcher → Outcome Bool
allowed_by s ip none = value true
allowed_by s ip (some m) = do
  hit ← match_ip m ip
  value (if hit then true else if s.gateway then false else s.locals ip)

unfoldable pub is_client_allowed : Server → Option Addr → Outcome Bool
unfolding allowed_by
is_client_allowed s none = value false
is_client_allowed s (some ip) =
    if s.host_only && not s.gateway then value (s.locals ip) else allowed_by s ip s.allow

-- `netip.Addr.IsLoopback`
abbrev is_loopback : Addr → Bool
is_loopback (v4 a _ _ _) = a == 127
is_loopback (v6 n) = n == 1

unfoldable pub handle_quit : Server → Option Addr → List Event
handle_quit s none = reply 403 ∷ []
handle_quit s (some ip) =
    if not (is_loopback ip) && not (s.locals ip) then reply 403 ∷ [] else reply 200 ∷ shut_down ∷ []

-- The variables `upstream` and `err` of `handleConnect`; `nothing` is `nil` in both.
pub data Upstream : Type 0 where
  opened failed nothing : Upstream

abbrev pub dialled : Bool → Upstream
dialled ok = if ok then opened else failed

-- `for _, proxyAddr := range route.Proxies`, with the outcome of the proxies before.
unfoldable pub connect_first : (Bytes → Bool) → Upstream → List Bytes → Upstream
connect_first connects u [] = u
connect_first connects u (p ∷ ps) =
    let rest = connect_first connects failed ps in if connects p then opened else rest

-- `releaseSem`; the flag is `semReleased`.
unfoldable pub release_sem : Bool → List Event
release_sem released = if released then [] else release ∷ []

-- A method of the `upstream` that is `nil` does not return.
abbrev use_upstream : Upstream → Event → List Event → List Event
use_upstream opened e rest = e ∷ rest
use_upstream _ e rest = nil_pointer ∷ []

-- The part of `handleConnect` behind the hijacking.
unfoldable pub hijack_upstream : Upstream → Hijack → List Event
unfolding release_sem
hijack_upstream u unsupported = use_upstream u close_upstream (reply 500 ∷ []) ++ release_sem false
hijack_upstream u hijack_failed = use_upstream u close_upstream [] ++ release_sem false
hijack_upstream u hijacked =
    (established ∷ release_sem false) ++ (use_upstream u relay [] ++ release_sem true)

unfoldable pub connect_upstream : Upstream → Hijack → List Event
unfolding hijack_upstream
connect_upstream failed h = reply 502 ∷ release_sem false
connect_upstream u h = hijack_upstream u h

unfoldable pub handle_connect : Route → Request → List Event
unfolding connect_upstream connect_first
handle_connect r q =
    connect_upstream
      (if r.direct then dialled q.dials else connect_first q.connects nothing r.proxies) q.hijack

-- `ServeHTTP` behind the checks of the client.
unfoldable pub serve_route : Server → Request → List Event
serve_route s q =
    let route = (resolve_route s.routing s.pac q.url q.host).1 in
    let status = (handle_http q.body route q.direct q.round_trip).status in
    if leb s.threads s.sem
    then reply 503 ∷ []
    else if q.is_connect
    then acquire ∷ handle_connect route q
    else acquire ∷ reply status ∷ release ∷ []

unfoldable pub serve_allowed : Server → Request → Bool → List Event
serve_allowed s q allowed =
    if not allowed
    then reply 403 ∷ []
    else if equal q.path (text "/health")
    then reply 200 ∷ []
    else if equal q.path (text "/PxQuit")
    then handle_quit s q.remote
    else if q.auth_enabled && not q.authenticated
    then reply 407 ∷ []
    else serve_route s q

unfoldable pub serve_http : Server → Request → Outcome (List Event)
unfolding is_client_allowed
serve_http s q = do allowed ← is_client_allowed s q.remote; value (serve_allowed s q allowed)
