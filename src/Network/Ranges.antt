-- ===== src/Network/Ranges.antt =====
-- What the ranges of internal/network/network.go match: addresses as numbers, and wildcards.
use px_go.Prelude.{
  ℕ, ◌<◌, ◌≡◌, ◌⊎◌, refl, ap, ◌∙◌, Bool, true, false, ◌&&◌, ◌||◌, List, [], ◌∷◌, none, some, arith,
  ltb, leb, ◌==◌, if◌then◌else◌, All,
}
use px_go.Strings.{Bytes, text, equal, split}
use px_go.Network.{
  Addr, v4, v6, value, panic, number, unmap, IpRange, Matcher, Sign, less, same, more,
  compare_bytes, compare_addr, in_range, any_prefix, any_range, match_ip, wildcard_range,
  wildcard_parts, parse_octet, decimal_from, parse_v4_fields, is_int, is_below,
}

abbrev pub IsByte : ℕ → Type 0
IsByte n = n < 256

abbrev pub IsV4 : Addr → Type 0
IsV4 (v4 a b c d) = IsByte a × IsByte b × IsByte c × IsByte d
IsV4 (v6 n) = ⊥

abbrev sign_of : ℕ → ℕ → Sign
sign_of m n = if ltb m n then less else if ltb n m then more else same

compare_bytes-sign :
    (a b c d e f g h : ℕ)
    → IsByte b
    → IsByte c
    → IsByte d
    → IsByte f
    → IsByte g
    → IsByte h
    → compare_bytes (a ∷ b ∷ c ∷ d ∷ []) (e ∷ f ∷ g ∷ h ∷ [])
      ≡ sign_of (number (v4 a b c d)) (number (v4 e f g h))
unfolding compare_bytes number
compare_bytes-sign a b c d e f g h pb pc pd pf pg ph = ground arith

-- The numbers of the range's ends enclose the address's.
abbrev pub encloses : IpRange → Addr → Bool
encloses r ip = leb (number r.start) (number ip) && leb (number ip) (number r.end)

abbrev pub any_encloses : List IpRange → Addr → Bool
any_encloses [] ip = false
any_encloses (r ∷ rs) ip = encloses r ip || any_encloses rs ip

abbrev pub IsV4Range : IpRange → Type 0
IsV4Range r = IsV4 r.start × IsV4 r.end

compare_addr-sign :
    (x y : Addr) → IsV4 x → IsV4 y → compare_addr x y ≡ value (sign_of (number x) (number y))
unfolding compare_addr
compare_addr-sign (v4 a b c d) (v4 e f g h) p q =
    ap value (compare_bytes-sign a b c d e f g h p.1 p.2 p.3 q.1 q.2 q.3)
compare_addr-sign (v6 n) y p q = absurd p
compare_addr-sign (v4 a b c d) (v6 n) p q = absurd q

in_range-encloses :
    (ip : Addr) (r : IpRange) → IsV4 ip → IsV4Range r → in_range ip r ≡ value (encloses r ip)
unfolding in_range
in_range-encloses ip r p q =
    rw (compare_addr-sign ip r.start p q.0, compare_addr-sign ip r.end p q.1) (ground arith)

any_range-encloses :
    (ip : Addr) (rs : List IpRange)
    → IsV4 ip
    → All IsV4Range rs
    → any_range ip rs ≡ value (any_encloses rs ip)
unfolding any_range
any_range-encloses ip [] p a = refl
any_range-encloses ip (r ∷ rs) p a =
    rw (in_range-encloses ip r p a.0, any_range-encloses ip rs p a.1) (ground arith)

-- For an IPv4 client and ranges between IPv4 addresses, `MatchIP` says whether the list holds
-- `*`, a prefix that contains the address, or a range whose ends, read as 32-bit numbers, enclose
-- it: the comparison byte by byte is that of the numbers.
pub match_ip_v4 :
    (m : Matcher) (ip : Addr)
    → IsV4 ip
    → All IsV4Range m.ranges
    → match_ip m ip ≡ value (m.all || any_prefix ip m.prefixes || any_encloses m.ranges ip)
unfolding match_ip unmap
match_ip_v4 m (v4 a b c d) p q = rw (any_range-encloses (v4 a b c d) m.ranges p q) (ground arith)
match_ip_v4 m (v6 n) p q = absurd p

octet-is_int :
    (p : Bytes) (n : ℕ) → parse_octet p ≡ some n → (is_int p ≡ true) × (equal p (text "*") ≡ false)
unfolding parse_octet is_int is_below equal decimal_from
octet-is_int [] n h = absurd (cc h)
octet-is_int (c ∷ []) n h = (ground arith, ground arith)
octet-is_int (c ∷ d ∷ s) n h = (ground arith, ground arith)

int_ne_star : (p : Bytes) → is_int p ≡ true → equal p (text "*") ≡ false
unfolding is_int is_below equal decimal_from
int_ne_star [] h = refl
int_ne_star (c ∷ []) h = ground arith
int_ne_star (c ∷ d ∷ s) h = ground arith

octet-IsByte : (p : Bytes) (n : ℕ) → parse_octet p ≡ some n → IsByte n
unfolding parse_octet decimal_from
octet-IsByte [] n h = absurd (cc h)
octet-IsByte (c ∷ []) n h = ground arith
octet-IsByte (c ∷ d ∷ s) n h = ground arith

star : parse_octet (text "0") ≡ some 0
unfolding parse_octet decimal_from
star = refl

star_end : parse_octet (text "255") ≡ some 255
unfolding parse_octet decimal_from
star_end = refl

-- A pattern whose last two fields are `*` stands for the addresses that begin with its first two.
pub wildcard_trailing :
    (pattern p q : Bytes) (x y : ℕ)
    → split b'.' pattern ≡ p ∷ q ∷ text "*" ∷ text "*" ∷ []
    → parse_octet p ≡ some x
    → parse_octet q ≡ some y
    → (r : IpRange) × (wildcard_range pattern ≡ value r)
      × ((a b c d : ℕ) → IsV4 (v4 a b c d) → in_range (v4 a b c d) r ≡ value (a == x && b == y))
unfolding wildcard_range wildcard_parts parse_v4_fields number equal
wildcard_trailing pattern p q x y fields px py =
    let (ip, np) = octet-is_int p x px in
    let (iq, nq) = octet-is_int q y py in
    let bx = octet-IsByte p x px in
    let by = octet-IsByte q y py in
    (
      record { start = v4 x y 0 0; end = v4 x y 255 255 },
      ground (arith, star, star_end),
      λ a b c d bytes.
          in_range-encloses (v4 a b c d) (record { start = v4 x y 0 0; end = v4 x y 255 255 }) bytes
            (omega arith, omega arith)
          ∙ ground arith,
    )

-- A field behind a `*` is not looked at for most addresses: the range of `p.*.q.*` holds every
-- address that begins with `p` and has a second byte between 1 and 254, whatever its third byte is.
pub wildcard_middle :
    (pattern p q : Bytes) (x y : ℕ)
    → split b'.' pattern ≡ p ∷ text "*" ∷ q ∷ text "*" ∷ []
    → parse_octet p ≡ some x
    → parse_octet q ≡ some y
    → (r : IpRange) × (wildcard_range pattern ≡ value r)
      × ((b c d : ℕ) → IsV4 (v4 x b c d) → 0 < b → b < 255 → in_range (v4 x b c d) r ≡ value true)
unfolding wildcard_range wildcard_parts parse_v4_fields number equal
wildcard_middle pattern p q x y fields px py =
    let (ip, np) = octet-is_int p x px in
    let (iq, nq) = octet-is_int q y py in
    let bx = octet-IsByte p x px in
    let by = octet-IsByte q y py in
    (
      record { start = v4 x 0 y 0; end = v4 x 255 y 255 },
      ground (arith, star, star_end),
      λ b c d bytes low high.
          in_range-encloses (v4 x b c d) (record { start = v4 x 0 y 0; end = v4 x 255 y 255 }) bytes
            (omega arith, omega arith)
          ∙ ground arith,
    )

wildcard_parts_three :
    (p q r : Bytes)
    → is_int p ≡ true
    → is_int q ≡ true
    → is_int r ≡ true
    → wildcard_parts (p ∷ q ∷ r ∷ text "*" ∷ [])
      ≡ value ((p, p) ∷ (q, q) ∷ (r, r) ∷ (text "0", text "255") ∷ [])
unfolding wildcard_parts equal
wildcard_parts_three p q r ip iq ir =
    rw (int_ne_star p ip, int_ne_star q iq, int_ne_star r ir, ip, iq, ir)

-- A pattern with a number that is no byte makes the parser panic instead of reporting an error.
pub wildcard_panic :
    (pattern p q r : Bytes)
    → split b'.' pattern ≡ p ∷ q ∷ r ∷ text "*" ∷ []
    → is_int p ≡ true
    → is_int q ≡ true
    → is_int r ≡ true
    → (parse_octet p ≡ none) ⊎ (parse_octet q ≡ none) ⊎ (parse_octet r ≡ none)
    → wildcard_range pattern ≡ panic
unfolding wildcard_range parse_v4_fields
wildcard_panic pattern p q r fields ip iq ir bad =
    rw (fields, wildcard_range) (rw (wildcard_parts_three p q r ip iq ir) (ground arith))
