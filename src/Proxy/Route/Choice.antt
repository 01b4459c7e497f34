-- ===== src/Proxy/Route/Choice.antt =====
-- The routes of internal/proxy/handler.go.
use px_go.Prelude.{
  ℕ, ◌≡◌, ◌≢◌, ◌⊎◌, inl, inr, refl, true, false, List, [], ◌∷◌, ◌++◌, Option, none, some, arith,
  Bool-cases,
}
use px_go.Strings.{Bytes, text, split_func, is_empty, trim_space, equal_fold}
use px_go.Strings.Split.{split_func-append}
use px_go.Proxy.Route.{
  pac_part, pac_parts, is_separator, parse_pac_result, Route, ProxyInfo, Routing, via_or_direct,
  platform_route, route_from, resolve_route,
}

-- A route is direct, or it has a proxy to try.
abbrev pub HasTarget : Route → Type 0
HasTarget r = ((r.direct ≡ true) × (r.proxies ≡ [])) ⊎ ((r.direct ≡ false) × (r.proxies ≢ []))

via_or_direct-HasTarget : (ps : List Bytes) → HasTarget (via_or_direct ps)
via_or_direct-HasTarget [] = inl (refl, refl)
via_or_direct-HasTarget (p ∷ ps) = inr (refl, λ e. cc e)

platform_route-HasTarget :
    (s : Routing) (pac : Option Bytes) (url host : Bytes) (info : Option ProxyInfo)
    → HasTarget (platform_route s pac url host info).1
unfolding platform_route
platform_route-HasTarget s pac url host none = inl (refl, refl)
platform_route-HasTarget s pac url host (some info) = elim (Bool-cases (is_empty info.pac)) [
  | inl t ↦ rw t (via_or_direct-HasTarget info.servers)
  | inr t ↦ rw t (via_or_direct-HasTarget _)
]

route_from-HasTarget :
    (s : Routing) (servers : List Bytes) (pac : Option Bytes) (url host : Bytes)
    → HasTarget (route_from s servers pac url host).1
unfolding route_from
route_from-HasTarget s servers (some source) url host = via_or_direct-HasTarget _
route_from-HasTarget s (p ∷ ps) none url host = inr (refl, λ e. cc e)
route_from-HasTarget s [] none url host = platform_route-HasTarget s none url host (s.platform url)

-- Whatever PAC files, servers and platform answer, the route of a request is direct and names no
-- proxy, or it is not direct and names at least one.
pub resolve_route-HasTarget :
    (s : Routing) (pac : Option Bytes) (url host : Bytes)
    → HasTarget (resolve_route s pac url host).1
unfolding resolve_route
resolve_route-HasTarget s pac url host = elim (Bool-cases (s.noproxy host)) [
  | inl t ↦ rw t (inl (refl, refl))
  | inr t ↦ rw t (route_from-HasTarget s s.servers pac url host)
]

pac_parts-append : (xs ys : List Bytes) → pac_parts (xs ++ ys) ≡ pac_parts xs ++ pac_parts ys
unfolding pac_parts
pac_parts-append [] ys = refl
pac_parts-append (x ∷ xs) ys = ground (arith, pac_parts-append xs ys)

-- The parts of a PAC answer are read one by one: the proxies of `a; b` are those of `a`, then those
-- of `b`, whatever the parts say.
pub parse_pac_result-append :
    (a b : Bytes) (c : ℕ)
    → is_separator c ≡ true
    → parse_pac_result (a ++ (c ∷ b)) ≡ parse_pac_result a ++ parse_pac_result b
unfolding parse_pac_result
parse_pac_result-append a b c h =
    rw (split_func-append is_separator a b c h)
      (pac_parts-append (split_func is_separator a) (split_func is_separator b))

-- `DIRECT` in front of further parts has no effect on the parsed proxies.
pub parse_pac_result_direct :
    (b : Bytes) → parse_pac_result (text "DIRECT;" ++ b) ≡ parse_pac_result b
unfolding parse_pac_result split_func trim_space equal_fold pac_parts pac_part
parse_pac_result_direct b = parse_pac_result-append (text "DIRECT") b b';' refl
