-- ===== src/Proxy/Server/Slots.antt =====
-- The slots of the semaphore of internal/proxy/server.go.
use px_go.Prelude.{
  ◌≡◌, ◌≢◌, inl, inr, refl, Bool, true, false, List, [], ◌∷◌, Option, none, some, arith,
}
use px_go.Strings.{Bytes}
use px_go.Network.{Outcome, value, error, panic, ◌>>=◌}
use px_go.Proxy.Route.{Route, resolve_route}
use px_go.Proxy.Route.Choice.{HasTarget, resolve_route-HasTarget}
use px_go.Proxy.Server.{
  Server, Request, Hijack, unsupported, hijack_failed, hijacked, Event, acquire, release, relay,
  nil_pointer, Upstream, opened, failed, nothing, dialled, connect_first, release_sem,
  connect_upstream, handle_connect, handle_quit, serve_route, serve_allowed, is_client_allowed,
  serve_http,
}

-- Whether a request holds a slot after an event; `none` where it takes a second slot, gives one
-- back that it has not, relays while it holds one, or uses a connection that is `nil`.
unfoldable pub slot_after : Bool → Event → Option Bool
slot_after false acquire = some true
slot_after true acquire = none
slot_after true release = some false
slot_after false release = none
slot_after true relay = none
slot_after _ nil_pointer = none
slot_after held _ = some held

unfoldable pub slot_at_end : Bool → List Event → Option Bool
unfolding slot_after
slot_at_end held [] = some held
slot_at_end held (e ∷ es) = elim (slot_after held e) [
  | none ↦ none
  | some next ↦ slot_at_end next es
]

connect_upstream-slot :
    (u : Upstream) (h : Hijack) → u ≢ nothing → slot_at_end true (connect_upstream u h) ≡ some false
unfolding slot_at_end connect_upstream release_sem
connect_upstream-slot nothing h ne = absurd (ne refl)
connect_upstream-slot failed h ne = refl
connect_upstream-slot opened unsupported ne = refl
connect_upstream-slot opened hijack_failed ne = refl
connect_upstream-slot opened hijacked ne = refl

connect_first_failed :
    (connects : Bytes → Bool) (ps : List Bytes) → connect_first connects failed ps ≢ nothing
unfolding connect_first
connect_first_failed connects [] = λ e. cc e
connect_first_failed connects (p ∷ ps) = ground (arith, connect_first_failed connects ps)

connect_first-cons :
    (connects : Bytes → Bool) (ps : List Bytes)
    → ps ≢ []
    → connect_first connects nothing ps ≢ nothing
unfolding connect_first
connect_first-cons connects [] ne = absurd (ne refl)
connect_first-cons connects (p ∷ ps) ne = ground (arith, connect_first_failed connects ps)

dialled-ne : (ok : Bool) → dialled ok ≢ nothing
dialled-ne true = λ e. cc e
dialled-ne false = λ e. cc e

handle_connect-slot :
    (r : Route) (q : Request) → HasTarget r → slot_at_end true (handle_connect r q) ≡ some false
unfolding handle_connect
handle_connect-slot r q (inl (d, _)) = rw d (connect_upstream-slot _ q.hijack (dialled-ne q.dials))
handle_connect-slot r q (inr (d, ne)) =
    rw d (connect_upstream-slot _ q.hijack (connect_first-cons q.connects r.proxies ne))

serve_route-slot : (s : Server) (q : Request) → slot_at_end false (serve_route s q) ≡ some false
unfolding serve_route slot_at_end
serve_route-slot s q =
    let route = (resolve_route s.routing s.pac q.url q.host).1 in
    ground
      (arith, handle_connect-slot route q (resolve_route-HasTarget s.routing s.pac q.url q.host))

serve_allowed-slot :
    (s : Server) (q : Request) (allowed : Bool)
    → slot_at_end false (serve_allowed s q allowed) ≡ some false
unfolding serve_allowed handle_quit slot_at_end
serve_allowed-slot s q allowed = ground (arith, serve_route-slot s q)

finished-slot :
    (s : Server) (q : Request) (allowed : Outcome Bool) (events : List Event)
    → (allowed >>= λ a. value (serve_allowed s q a)) ≡ value events
    → slot_at_end false events ≡ some false
finished-slot s q (value a) events h = ground (arith, serve_allowed-slot s q a)
finished-slot s q error events h = absurd (cc h)
finished-slot s q panic events h = absurd (cc h)

-- A request that `ServeHTTP` finishes gives back every slot that it takes, holds no slot while it
-- relays a tunnel, and never relays or closes a connection that is `nil`.
pub serve_http-slot :
    (s : Server) (q : Request) (events : List Event)
    → serve_http s q ≡ value events
    → slot_at_end false events ≡ some false
unfolding serve_http
serve_http-slot s q events h = finished-slot s q (is_client_allowed s q.remote) events h
