-- ===== src/Proxy/Route.antt =====
-- internal/proxy/handler.go: where a request goes, `parsePACResult` and `resolveRoute`, and how
-- `handleHTTP` and `handleConnect` use the route.
pub mod Choice
use px_go.Prelude.{
  ℕ, ◌+◌, Bool, true, false, ◌||◌, List, [], ◌∷◌, ◌++◌, Option, none, some, ltb, ◌==◌,
  if◌then◌else◌,
}
use px_go.Strings.{Bytes, text, is_empty, trim_space, equal_fold, cut, split_func}

-- What is left of a part once its first word is stripped: `PROXY host:port`.
abbrev behind_space : Bytes → Option Bytes → Bytes
behind_space part none = part
behind_space part (some rest) = trim_space rest

-- The proxy that one part of a PAC result names.
unfoldable pub pac_part : Bytes → Option Bytes
pac_part part =
    let trimmed = trim_space part in
    if is_empty trimmed || equal_fold trimmed (text "DIRECT")
    then none
    else let (word, rest) = cut b' ' trimmed in
      let proxy = behind_space trimmed rest in if is_empty proxy then none else some proxy

abbrev add_proxy : Option Bytes → List Bytes → List Bytes
add_proxy none out = out
add_proxy (some proxy) out = proxy ∷ out

-- The loop of `parsePACResult`
unfoldable pub pac_parts : List Bytes → List Bytes
unfolding pac_part
pac_parts [] = []
pac_parts (part ∷ parts) = add_proxy (pac_part part) (pac_parts parts)

abbrev pub is_separator : ℕ → Bool
is_separator c = c == b';' || c == b','

-- `FieldsFunc` also leaves out empty fields, which the loop skips.
unfoldable pub parse_pac_result : Bytes → List Bytes
unfolding pac_parts
parse_pac_result raw = pac_parts (split_func is_separator raw)

pub record Route : Type 0 where
  pub direct : Bool
  pub proxies : List Bytes

-- `platform.ProxyInfo`; the program does not read its third field.
pub record ProxyInfo : Type 0 where
  pub pac : Bytes
  pub servers : List Bytes

-- What `resolveRoute` reads: whether `noproxy` matches a host, the configured servers, what the
-- platform says for a URL (`none` is an error), and what the evaluator of a PAC source answers to
-- a URL and a host.
pub record Routing : Type 0 where
  pub noproxy : Bytes → Bool
  pub servers : List Bytes
  pub platform : Bytes → Option ProxyInfo
  pub find_proxy : Bytes → Bytes → Bytes → Bytes

abbrev pub direct_route : Route
direct_route = record { direct = true; proxies = [] }

abbrev pub via : List Bytes → Route
via proxies = record { direct = false; proxies = proxies }

-- `if len(parsed) == 0 { direct }`
abbrev pub via_or_direct : List Bytes → Route
via_or_direct [] = direct_route
via_or_direct (p ∷ ps) = via (p ∷ ps)

-- `ensurePlatformPAC`: the source already in use wins.
unfoldable pub ensure_platform_pac : Option Bytes → Bytes → Bytes
ensure_platform_pac none source = source
ensure_platform_pac (some source) _ = source

-- The part of `resolveRoute` behind the platform's answer.
unfoldable pub platform_route :
    Routing → Option Bytes → Bytes → Bytes → Option ProxyInfo → Option Bytes × Route
unfolding parse_pac_result ensure_platform_pac
platform_route s pac url host none = (pac, direct_route)
platform_route s pac url host (some info) =
    if is_empty info.pac
    then (pac, via_or_direct info.servers)
    else let source = ensure_platform_pac pac info.pac in
      (some source, via_or_direct (parse_pac_result (s.find_proxy source url host)))

-- `resolveRoute` behind the `noproxy` test: the PAC file in use, the configured servers, or the
-- platform.
unfoldable pub route_from :
    Routing → List Bytes → Option Bytes → Bytes → Bytes → Option Bytes × Route
unfolding platform_route
route_from s servers (some source) url host =
    (some source, via_or_direct (parse_pac_result (s.find_proxy source url host)))
route_from s (p ∷ ps) none url host = (none, via (p ∷ ps))
route_from s [] none url host = platform_route s none url host (s.platform url)

-- `resolveRoute`, for the URL and the host of a request; the source of the evaluator in use,
-- which may become that of the platform, is passed along. It never returns an error.
unfoldable pub resolve_route : Routing → Option Bytes → Bytes → Bytes → Option Bytes × Route
unfolding route_from
resolve_route s pac url host =
    if s.noproxy host then (pac, direct_route) else route_from s s.servers pac url host

-- The status that the client gets, and the proxies that were tried, in order.
pub record Handled : Type 0 where
  pub status : ℕ
  pub tried : List Bytes

abbrev add_tried : Bytes → Handled → Handled
add_tried p h = record h { tried = p ∷ h.tried }

-- `for _, upstream := range route.Proxies`; `round_trip` gives the status of a response.
unfoldable pub try_proxies : (Bytes → Option ℕ) → List Bytes → Handled
try_proxies round_trip [] = record { status = 502; tried = [] }
try_proxies round_trip (p ∷ ps) = elim (round_trip p) [
  | some status ↦ record { status = status; tried = p ∷ [] }
  | none ↦ add_tried p (try_proxies round_trip ps)
]

abbrev pub max_request_body : ℕ
max_request_body = 67_108_864

-- The reading of the request's body: its length, or an error.
unfoldable pub handle_http : Option ℕ → Route → Option ℕ → (Bytes → Option ℕ) → Handled
unfolding try_proxies
handle_http none r direct round_trip = record { status = 400; tried = [] }
handle_http (some length) r direct round_trip =
    if ltb max_request_body length
    then record { status = 413; tried = [] }
    else if r.direct
    then elim direct [
      | some status ↦ record { status = status; tried = [] }
      | none ↦ record { status = 502; tried = [] }
    ]
    else try_proxies round_trip r.proxies
