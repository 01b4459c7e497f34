-- ===== src/Tests/ProxyRuns.antt =====
-- Exchanges with an upstream proxy and routes, for internal/proxy/handler.go.
use px_go.Network.{v4, value}
use px_go.Proxy.Server.{Server, Request, hijacked, acquire, release, established, relay, serve_http}
use px_go.Proxy.Server.Slots.{slot_at_end, serve_http-slot}
use px_go.Proxy.Server.Load.{Serving, with_sem, take_slot, Reaches, idle, step}
use px_go.Proxy.Server.Load.Counted.{IsCounted, Reaches-IsCounted}
use px_go.Prelude.{ℕ, ◌+◌, ◌≤◌, ◌≡◌, refl, true, false, [], ◌∷◌, ◌++◌, none, some}
use px_go.Strings.{Bytes, text}
use px_go.Auth.Session.{failed}
use px_go.Proxy.Upstream.{Attempt, response, Exchange, connect_via_proxy, round_trip_proxy}
use px_go.Proxy.Upstream.Connections.{left_open, connect_via_proxy-conns, round_trip_proxy-conns}
use px_go.Proxy.Route.{parse_pac_result, Routing, resolve_route}
use px_go.Proxy.Route.Choice.{
  HasTarget, resolve_route-HasTarget, parse_pac_result-append, parse_pac_result_direct,
}

-- The proxy asks for a scheme that the program does not know.
abbrev unknown_scheme : ℕ → Bytes → Attempt
unknown_scheme n header = response 407 (text "Hawk" ∷ []) false

abbrev exchange : Exchange
exchange = record {
  auth = text "ANY";
  creds = record { username = text "u"; password = text "p" };
  codec = record {
    base64 = λ s. s;
    unbase64 = λ s. some s;
    md5_hex = λ s. s;
    ntlm_negotiate = none;
    ntlm_authenticate = λ s c. none;
    negotiate = λ n s. failed;
  };
  request = record { method = text "CONNECT"; uri = text "h:443" };
  nonces = λ n. text "c";
  dials = λ n. true;
  attempts = unknown_scheme;
}

connect_via_proxy-conns_example :
    let (after, r) = connect_via_proxy exchange in
    (after.opened ≤ 1) × (after.opened ≡ after.closed + left_open r)
connect_via_proxy-conns_example = connect_via_proxy-conns exchange

round_trip_proxy-conns_example :
    let (after, r) = round_trip_proxy exchange in (after.opened ≤ 4) × (after.closed ≡ after.opened)
round_trip_proxy-conns_example = round_trip_proxy-conns exchange

abbrev routing : Routing
routing = record {
  noproxy = λ host. false;
  servers = [];
  platform = λ url. none;
  find_proxy = λ source url host. text "PROXY p:1; DIRECT";
}

resolve_route-HasTarget_example :
    HasTarget (resolve_route routing (some (text "f")) (text "u") (text "h")).1
resolve_route-HasTarget_example =
    resolve_route-HasTarget routing (some (text "f")) (text "u") (text "h")

two_answers :
    parse_pac_result (text "PROXY p:1" ++ (b';' ∷ text "PROXY q:2"))
    ≡ parse_pac_result (text "PROXY p:1") ++ parse_pac_result (text "PROXY q:2")
two_answers = parse_pac_result-append (text "PROXY p:1") (text "PROXY q:2") b';' refl

direct_dropped :
    parse_pac_result (text "DIRECT;" ++ text "PROXY p:1") ≡ parse_pac_result (text "PROXY p:1")
direct_dropped = parse_pac_result_direct (text "PROXY p:1")

abbrev server : Server
server = record {
  host_only = false;
  gateway = false;
  allow = none;
  locals = λ ip. false;
  routing = routing;
  pac = some (text "f");
  threads = 2;
  sem = 1;
}

abbrev tunnel_request : Request
tunnel_request = record {
  remote = some (v4 10 0 0 1);
  path = [];
  is_connect = true;
  auth_enabled = false;
  authenticated = false;
  url = text "http://h:443";
  host = text "h";
  dials = false;
  connects = λ proxy. true;
  hijack = hijacked;
  body = some 0;
  direct = none;
  round_trip = λ proxy. none;
}

tunnel_served :
    serve_http server tunnel_request ≡ value (acquire ∷ established ∷ release ∷ relay ∷ [])
unfolding serve_http px_go.Proxy.Server.serve_allowed px_go.Strings.equal
    px_go.Proxy.Server.serve_route px_go.Proxy.Server.handle_connect resolve_route
    px_go.Strings.split_func px_go.Strings.trim_space px_go.Strings.equal_fold px_go.Strings.cut
tunnel_served = refl

serve_http-slot_example :
    slot_at_end false (acquire ∷ established ∷ release ∷ relay ∷ []) ≡ some false
serve_http-slot_example =
    serve_http-slot server tunnel_request (acquire ∷ established ∷ release ∷ relay ∷ [])
      tunnel_served

abbrev first_served : Serving
first_served = record {
  server = with_sem 1 (with_sem 0 server);
  threads = record { holds = true; todo = established ∷ release ∷ relay ∷ [] } ∷ [];
}

served_once :
    serve_http (with_sem 0 server) tunnel_request
    ≡ value (acquire ∷ established ∷ release ∷ relay ∷ [])
unfolding serve_http px_go.Proxy.Server.serve_allowed px_go.Strings.equal
    px_go.Proxy.Server.serve_route px_go.Proxy.Server.handle_connect resolve_route
    px_go.Strings.split_func px_go.Strings.trim_space px_go.Strings.equal_fold px_go.Strings.cut
served_once = refl

reaches_first : Reaches (with_sem 0 server) first_served
reaches_first =
    step _ first_served (idle refl) (take_slot (with_sem 0 server) [] tunnel_request _ served_once)

Reaches-IsCounted_example : IsCounted first_served
Reaches-IsCounted_example = Reaches-IsCounted (with_sem 0 server) first_served reaches_first
