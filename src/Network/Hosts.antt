-- ===== src/Network/Hosts.antt =====
-- internal/network/network.go: `MatchHost`. The splitting of a host and a port of Go's net package,
-- which is `none` for an error, and the resolver are arguments.
pub mod Names
use px_go.Prelude.{
  Bool, true, false, ◌||◌, List, [], ◌∷◌, ◌++◌, Option, none, some, ◌==◌, if◌then◌else◌,
}
use px_go.Strings.{
  Bytes, text, equal, is_empty, is_member, trim_both, trim_space, to_lower, contains, has_suffix,
}
use px_go.Network.{Addr, Outcome, value, error, panic, Matcher, match_ip, parse_addr}

-- `strings.Trim(s, "[]")`
unfoldable pub trim_brackets : Bytes → Bytes
unfolding trim_both
trim_brackets s = trim_both (λ c. c == b'[' || c == b']') s

abbrev host_part : Bytes → Option Bytes → Bytes
host_part host none = host
host_part host (some h) = h

unfoldable pub normalize_host : (Bytes → Option Bytes) → Bytes → Bytes
unfolding trim_brackets trim_space to_lower contains
normalize_host split_host_port raw =
    let host = trim_space (to_lower raw) in
    trim_brackets (if contains host (text ":") then host_part host (split_host_port host) else host)

-- The loop over `m.domains`
unfoldable pub any_domain : Bytes → List Bytes → Bool
unfolding equal has_suffix
any_domain host [] = false
any_domain host (domain ∷ domains) =
    equal host domain || has_suffix host (b'.' ∷ domain) || any_domain host domains

-- `slices.ContainsFunc` with `MatchIP`
abbrev pub or_else : Outcome Bool → Outcome Bool → Outcome Bool
or_else (value true) rest = value true
or_else (value false) rest = rest
or_else error rest = error
or_else panic rest = panic

unfoldable pub any_ip : Matcher → List Addr → Outcome Bool
unfolding match_ip
any_ip m [] = value false
any_ip m (ip ∷ ips) = or_else (match_ip m ip) (any_ip m ips)

-- The end of `MatchHost`, for what the resolver answers; `none` is an error.
unfoldable pub resolved_match : Matcher → Option (List Addr) → Outcome Bool
unfolding any_ip
resolved_match m none = value false
resolved_match m (some ips) = any_ip m ips

-- `MatchHost` behind the parsing of the host as an address.
unfoldable pub match_name :
    Matcher → (Bytes → Option (List Addr)) → Bytes → Option Addr → Outcome Bool
unfolding match_ip any_domain resolved_match
match_name m resolver host (some ip) = match_ip m ip
match_name m resolver host none =
    if is_member host m.hosts
    then value true
    else if any_domain host m.domains
    then value true
    else resolved_match m (resolver host)

unfoldable pub match_host_of :
    (Bytes → Option Addr) → Matcher → (Bytes → Option (List Addr)) → Bytes → Outcome Bool
unfolding match_name parse_addr
match_host_of parse_v6 m resolver host =
    if is_empty host then value false else match_name m resolver host (parse_addr parse_v6 host)

-- `MatchHost`; `none` is the matcher `nil`.
unfoldable pub match_host :
    (Bytes → Option Bytes)
    → (Bytes → Option Addr)
    → Option Matcher
    → (Bytes → Option (List Addr))
    → Bytes
    → Outcome Bool
unfolding match_host_of normalize_host
match_host split_host_port parse_v6 none resolver host = value false
match_host split_host_port parse_v6 (some m) resolver host =
    match_host_of parse_v6 m resolver (normalize_host split_host_port host)
