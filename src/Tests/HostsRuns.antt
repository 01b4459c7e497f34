-- ===== src/Tests/HostsRuns.antt =====
-- Host names, for internal/network/network.go.
use px_go.Prelude.{◌≡◌, ◌≢◌, ◌↔◌, ◌⊎◌, refl, true, false, List, [], ◌∷◌, Option, none, some}
use px_go.Strings.{Bytes, text, is_member}
use px_go.Network.{Addr, Matcher, value, parse_addr}
use px_go.Network.Hosts.{normalize_host, match_host}
use px_go.Network.Hosts.Names.{IsBelowSome, match_host-IsBelowSome}

abbrev no_port : Bytes → Option Bytes
no_port s = none

abbrev no_v6 : Bytes → Option Addr
no_v6 s = none

abbrev offline : Bytes → Option (List Addr)
offline host = none

-- The list `*, example.org`
abbrev everything : Matcher
everything = record {
  all = true;
  ranges = [];
  prefixes = [];
  domains = text "example.org" ∷ [];
  hosts = text "example.org" ∷ [];
}

not_blank : normalize_host no_port (text "Www.example.org") ≢ []
unfolding normalize_host
not_blank e = cc e

is_name : parse_addr no_v6 (normalize_host no_port (text "Www.example.org")) ≡ none
unfolding parse_addr normalize_host px_go.Strings.split
is_name = refl

match_host-IsBelowSome_example :
    (match_host no_port no_v6 (some everything) offline (text "Www.example.org") ≡ value true) ↔ (
      (is_member (normalize_host no_port (text "Www.example.org")) everything.hosts ≡ true)
      ⊎ IsBelowSome (normalize_host no_port (text "Www.example.org")) everything.domains)
match_host-IsBelowSome_example =
    match_host-IsBelowSome no_port no_v6 everything offline (text "Www.example.org") not_blank
      is_name refl

below : match_host no_port no_v6 (some everything) offline (text "Www.example.org") ≡ value true
unfolding match_host px_go.Strings.split
below = refl

-- A name that is not listed and cannot be resolved is not matched by `*`.
unresolved : match_host no_port no_v6 (some everything) offline (text "intranet") ≡ value false
unfolding match_host
unresolved = refl
