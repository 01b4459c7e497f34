-- ===== src/Tests/NetworkRuns.antt =====
-- Lists of addresses, for internal/network/network.go.
use px_go.Prelude.{ℕ, ◌<◌, ◌≡◌, inl, refl, true, ◌&&◌, ◌||◌, [], ◌∷◌, none, some, arith, ◌==◌, All}
use px_go.Strings.{text, split}
use px_go.Network.{
  Addr, v4, v6, value, panic, unmap, IpRange, Matcher, no_rules, in_range, any_range, compare_addr,
  any_prefix, match_ip, wildcard_range, parse_octet, is_int,
}
use px_go.Network.Ranges.{
  IsV4, IsV4Range, any_encloses, match_ip_v4, wildcard_trailing, wildcard_middle, wildcard_panic,
}

abbrev office : IpRange
office = record { start = v4 10 0 0 5; end = v4 10 0 1 9 }

abbrev rules : Matcher
rules = record no_rules { ranges = office ∷ [] }

abbrev desk : Addr
desk = v4 10 0 0 200

desk-IsV4 : IsV4 desk
desk-IsV4 = ground arith

rules-IsV4Range : All IsV4Range rules.ranges
rules-IsV4Range = ground arith

match_ip_v4_example :
    match_ip rules desk
    ≡ value (rules.all || any_prefix desk rules.prefixes || any_encloses rules.ranges desk)
match_ip_v4_example = match_ip_v4 rules desk desk-IsV4 rules-IsV4Range

ipv6_panics_at_a_range : match_ip rules (v6 1) ≡ panic
unfolding match_ip unmap any_range in_range compare_addr any_prefix
ipv6_panics_at_a_range = refl

trailing_fields : split b'.' (text "10.20.*.*") ≡ text "10" ∷ text "20" ∷ text "*" ∷ text "*" ∷ []
unfolding split
trailing_fields = refl

octet_ten : parse_octet (text "10") ≡ some 10
unfolding parse_octet
octet_ten = refl

octet_twenty : parse_octet (text "20") ≡ some 20
unfolding parse_octet
octet_twenty = refl

ten_and_twenty :
    (r : IpRange) × (wildcard_range (text "10.20.*.*") ≡ value r)
    × ((a b c d : ℕ) → IsV4 (v4 a b c d) → in_range (v4 a b c d) r ≡ value (a == 10 && b == 20))
ten_and_twenty =
    wildcard_trailing (text "10.20.*.*") (text "10") (text "20") 10 20 trailing_fields octet_ten
      octet_twenty

middle_fields : split b'.' (text "10.*.20.*") ≡ text "10" ∷ text "*" ∷ text "20" ∷ text "*" ∷ []
unfolding split
middle_fields = refl

middle_too_wide :
    (r : IpRange) × (wildcard_range (text "10.*.20.*") ≡ value r)
    × ((b c d : ℕ) → IsV4 (v4 10 b c d) → 0 < b → b < 255 → in_range (v4 10 b c d) r ≡ value true)
middle_too_wide =
    wildcard_middle (text "10.*.20.*") (text "10") (text "20") 10 20 middle_fields octet_ten
      octet_twenty

large_fields : split b'.' (text "300.10.20.*") ≡ text "300" ∷ text "10" ∷ text "20" ∷ text "*" ∷ []
unfolding split
large_fields = refl

ten-is_int : is_int (text "10") ≡ true
unfolding is_int
ten-is_int = refl

twenty-is_int : is_int (text "20") ≡ true
unfolding is_int
twenty-is_int = refl

large-is_int : is_int (text "300") ≡ true
unfolding is_int
large-is_int = refl

octet_large : parse_octet (text "300") ≡ none
unfolding parse_octet
octet_large = refl

panic_on_large : wildcard_range (text "300.10.20.*") ≡ panic
panic_on_large =
    wildcard_panic (text "300.10.20.*") (text "300") (text "10") (text "20") large_fields
      large-is_int ten-is_int twenty-is_int (inl octet_large)
