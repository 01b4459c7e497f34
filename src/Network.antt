-- ===== src/Network.antt =====
-- internal/network/network.go: the lists of addresses, ranges and domains behind `allow` and
-- `noproxy`. Of Go's net/netip the parts that the program uses are modelled, but for the text of
-- an IPv6 address, whose parser is the argument `parse_v6`.
pub mod Ranges
pub mod Hosts
use px_go.Prelude.{
  ℕ, zero, suc, ◌+◌, ◌-◌, ◌*◌, ◌/◌, ◌%◌, ◌^◌, Bool, true, false, not, ◌&&◌, ◌||◌, List, [], ◌∷◌,
  ◌++◌, Option, none, some, ltb, leb, ◌==◌, if◌then◌else◌, length,
}
use px_go.Strings.{
  Bytes, text, equal, equal_fold, is_empty, trim_space, trim_prefix, to_lower, contains, count_byte,
  cut, split, has_suffix,
}

-- The four bytes of an IPv4 address, or the value of an IPv6 address.
pub data Addr : Type 0 where
  v4 : ℕ → ℕ → ℕ → ℕ → Addr
  v6 : ℕ → Addr

-- A value, an error, or a panic.
pub data Outcome {ℓ} (A : Type ℓ) : Type ℓ where
  value : A → Outcome A
  error : Outcome A
  panic : Outcome A

infixl 5 ◌>>=◌
abbrev pub ◌>>=◌ {ℓ κ} : {A : Type ℓ} {B : Type κ} → Outcome A → (A → Outcome B) → Outcome B
value a >>= f = f a
error >>= f = error
panic >>= f = panic

abbrev pub of_option {ℓ} : {A : Type ℓ} → Option A → Outcome A
of_option none = error
of_option (some a) = value a

-- `netip.MustParseAddr` of a text that was parsed.
abbrev pub must {ℓ} : {A : Type ℓ} → Option A → Outcome A
must none = panic
must (some a) = value a

unfoldable pub bit_len : Addr → ℕ
bit_len (v4 a b c d) = 32
bit_len (v6 n) = 128

unfoldable pub number : Addr → ℕ
number (v4 a b c d) = a * 2 ^ 24 + b * 2 ^ 16 + c * 2 ^ 8 + d
number (v6 n) = n

abbrev v4_of : ℕ → Addr
v4_of n = v4 (n / 2 ^ 24 % 256) (n / 2 ^ 16 % 256) (n / 2 ^ 8 % 256) (n % 256)

-- `Addr.Unmap`
unfoldable pub unmap : Addr → Addr
unmap (v4 a b c d) = v4 a b c d
unmap (v6 n) = if n / 2 ^ 32 == 65535 then v4_of (n % 2 ^ 32) else v6 n

abbrev is_digit : ℕ → Bool
is_digit c = leb b'0' c && leb c b'9'

-- A decimal number; `none` if some byte is no digit.
unfoldable pub decimal_from : ℕ → Bytes → Option ℕ
decimal_from n [] = some n
decimal_from n (c ∷ s) =
    let rest = decimal_from (n * 10 + (c - b'0')) s in if is_digit c then rest else none

-- One field of a dotted address: one to three digits, no leading zero, at most 255.
unfoldable pub parse_octet : Bytes → Option ℕ
unfolding decimal_from
parse_octet [] = none
parse_octet (c ∷ []) = decimal_from 0 (c ∷ [])
parse_octet (c ∷ d ∷ s) = if c == b'0' then none else elim (decimal_from 0 (c ∷ d ∷ s)) [
  | none ↦ none
  | some n ↦ if leb n 255 then some n else none
]

abbrev four_octets : Option ℕ → Option ℕ → Option ℕ → Option ℕ → Option Addr
four_octets (some a) (some b) (some c) (some d) = some (v4 a b c d)
four_octets _ _ _ _ = none

pub parse_v4_fields : List Bytes → Option Addr
unfolding parse_octet
parse_v4_fields (a ∷ b ∷ c ∷ d ∷ []) =
    four_octets (parse_octet a) (parse_octet b) (parse_octet c) (parse_octet d)
parse_v4_fields _ = none

-- The first of the bytes `.`, `:` and `%` tells the form of an address.
first_mark : Bytes → ℕ
first_mark [] = 0
first_mark (c ∷ s) =
    let rest = first_mark s in if c == b'.' || c == b':' || c == b'%' then c else rest

-- `netip.ParseAddr`
unfoldable pub parse_addr : (Bytes → Option Addr) → Bytes → Option Addr
unfolding first_mark parse_v4_fields
parse_addr parse_v6 s =
    if first_mark s == b'.'
    then parse_v4_fields (split b'.' s)
    else if first_mark s == b':'
    then parse_v6 s
    else none

-- `netip.Prefix`; `bits` larger than the address's length make it invalid.
pub record Prefix : Type 0 where
  pub addr : Addr
  pub bits : ℕ

abbrev is_v4 : Addr → Bool
is_v4 (v4 a b c d) = true
is_v4 (v6 n) = false

abbrev same_family : Addr → Addr → Bool
same_family a b = if is_v4 a then is_v4 b else not (is_v4 b)

-- `Prefix.Contains`
unfoldable pub prefix_contains : Prefix → Addr → Bool
unfolding bit_len number
prefix_contains p ip =
    let len = bit_len p.addr in
    leb p.bits len
    && same_family p.addr ip
    && number p.addr / 2 ^ (len - p.bits) == number ip / 2 ^ (len - p.bits)

-- The bits of a prefix: digits with no leading zero.
parse_bits : Bytes → Option ℕ
unfolding decimal_from
parse_bits [] = none
parse_bits (c ∷ []) = decimal_from 0 (c ∷ [])
parse_bits (c ∷ d ∷ s) = if c == b'0' then none else decimal_from 0 (c ∷ d ∷ s)

abbrev checked_prefix : Addr → ℕ → Option Prefix
checked_prefix a n = if leb n (bit_len a) then some (record { addr = a; bits = n }) else none

abbrev prefix_of : Option Addr → Option ℕ → Option Prefix
prefix_of (some a) (some n) = checked_prefix a n
prefix_of _ _ = none

-- `netip.ParsePrefix`: `cut` finds the only slash, as a second one refuses the bits. `Masked`,
-- which the source applies to the result, leaves `prefix_contains` as it is.
unfoldable pub parse_prefix : (Bytes → Option Addr) → Bytes → Option Prefix
unfolding parse_addr parse_bits bit_len
parse_prefix parse_v6 s =
    let (a, bits) = cut b'/' s in
    elim bits [ none ↦ none | some b ↦ prefix_of (parse_addr parse_v6 a) (parse_bits b) ]

pub record IpRange : Type 0 where
  pub start : Addr
  pub end : Addr

-- `hosts` is the set of the names in `domains` that come from the text.
pub record Matcher : Type 0 where
  pub all : Bool
  pub ranges : List IpRange
  pub prefixes : List Prefix
  pub domains : List Bytes
  pub hosts : List Bytes

-- The result of `compareAddr`: -1, 0 or 1.
pub data Sign : Type 0 where
  less same more : Sign

-- The loop of `compareAddr` over the bytes that are left.
pub compare_bytes : List ℕ → List ℕ → Sign
compare_bytes (x ∷ a) (y ∷ b) =
    let rest = compare_bytes a b in if ltb x y then less else if ltb y x then more else rest
compare_bytes _ _ = same

-- `As4`, which panics on an IPv6 address.
abbrev as4 : Addr → Outcome (List ℕ)
as4 (v4 a b c d) = value (a ∷ b ∷ c ∷ d ∷ [])
as4 (v6 n) = panic

unfoldable pub compare_addr : Addr → Addr → Outcome Sign
unfolding compare_bytes
compare_addr a b = do ab ← as4 a; bb ← as4 b; value (compare_bytes ab bb)

abbrev at_least : Sign → Bool
at_least less = false
at_least _ = true

abbrev at_most : Sign → Bool
at_most more = false
at_most _ = true

-- `compareAddr(ip, start) >= 0 && compareAddr(ip, end) <= 0`
unfoldable pub in_range : Addr → IpRange → Outcome Bool
unfolding compare_addr
in_range ip rng = do
  low ← compare_addr ip rng.start
  if at_least low then (do high ← compare_addr ip rng.end; value (at_most high)) else value false

unfoldable pub any_prefix : Addr → List Prefix → Bool
unfolding prefix_contains
any_prefix ip [] = false
any_prefix ip (p ∷ ps) = prefix_contains p ip || any_prefix ip ps

unfoldable pub any_range : Addr → List IpRange → Outcome Bool
unfolding in_range
any_range ip [] = value false
any_range ip (r ∷ rs) =
    let rest = any_range ip rs in do hit ← in_range ip r; if hit then value true else rest

unfoldable pub match_ip : Matcher → Addr → Outcome Bool
unfolding unmap any_prefix any_range
match_ip m ip =
    if m.all
    then value true
    else if any_prefix (unmap ip) m.prefixes
    then value true
    else any_range (unmap ip) m.ranges

unfoldable pub is_below : ℕ → Bytes → Bool
unfolding decimal_from
is_below limit [] = false
is_below limit (c ∷ s) = elim (decimal_from 0 (c ∷ s)) [ none ↦ false | some n ↦ ltb n limit ]

-- `strconv.Atoi` accepts: an optional sign and digits, within 64 bits.
unfoldable pub is_int : Bytes → Bool
unfolding is_below
is_int [] = false
is_int (c ∷ s) =
    if c == b'-'
    then is_below (2 ^ 63 + 1) s
    else if c == b'+'
    then is_below (2 ^ 63) s
    else is_below (2 ^ 63) (c ∷ s)

-- The loop of `wildcardRange`: the parts of the first and of the last address.
pub wildcard_parts : List Bytes → Outcome (List (Bytes × Bytes))
unfolding is_int
wildcard_parts [] = value []
wildcard_parts (part ∷ parts) =
    let rest = wildcard_parts parts in
    if equal part (text "*")
    then (do ps ← rest; value ((text "0", text "255") ∷ ps))
    else if is_int part
    then (do ps ← rest; value ((part, part) ∷ ps))
    else error

abbrev firsts : List (Bytes × Bytes) → List Bytes
firsts [] = []
firsts ((a, b) ∷ ps) = a ∷ firsts ps

abbrev seconds : List (Bytes × Bytes) → List Bytes
seconds [] = []
seconds ((a, b) ∷ ps) = b ∷ seconds ps

-- The texts are joined and parsed again in the source; the fields are the same.
unfoldable pub wildcard_range : Bytes → Outcome IpRange
unfolding wildcard_parts parse_v4_fields
wildcard_range pattern =
    let parts = split b'.' pattern in
    if not (length parts == 4) then error else (do
      ps ← wildcard_parts parts
      start ← must (parse_v4_fields (firsts ps))
      end ← must (parse_v4_fields (seconds ps))
      value (record { start = start; end = end }))

-- The non-empty parts of a comma-separated text, trimmed; the loop of `splitCSV`, which stands in
-- internal/config too.
csv_parts : List Bytes → List Bytes
csv_parts [] = []
csv_parts (part ∷ parts) =
    let rest = csv_parts parts in
    if is_empty (trim_space part) then rest else trim_space part ∷ rest

unfoldable pub split_csv : Bytes → List Bytes
unfolding csv_parts
split_csv s = if is_empty (trim_space s) then [] else csv_parts (split b',' s)

abbrev add_range : Matcher → IpRange → Matcher
add_range m r = record m { ranges = m.ranges ++ (r ∷ []) }

abbrev add_prefix : Matcher → Prefix → Matcher
add_prefix m p = record m { prefixes = m.prefixes ++ (p ∷ []) }

-- The case of an item with one `-`: both ends are parsed, and unmapped.
parse_range : (Bytes → Option Addr) → Matcher → Bytes → Outcome Matcher
unfolding parse_addr unmap
parse_range parse_v6 m item =
    let (a, b) = cut b'-' item in
    do
      start ← of_option (parse_addr parse_v6 (trim_space a))
      end ← of_option (parse_addr parse_v6 (trim_space (elim b [ none ↦ [] | some rest ↦ rest ])))
      value (add_range m (record { start = unmap start; end = unmap end }))

-- The last two cases of the `switch`: an address, or a name.
parse_name : (Bytes → Option Addr) → Matcher → Bytes → Matcher
unfolding parse_addr unmap bit_len
parse_name parse_v6 m item = elim (parse_addr parse_v6 item) [
  | some a ↦ add_prefix m (record { addr = unmap a; bits = bit_len a })
  | none ↦
      let name = to_lower (trim_prefix (trim_space item) (text ".")) in
      record m { domains = m.domains ++ (name ∷ []); hosts = m.hosts ++ (name ∷ []) }
]

-- The `switch` of `Parse` on one item.
parse_item : (Bytes → Option Addr) → Matcher → Bytes → Outcome Matcher
unfolding parse_prefix parse_range wildcard_range parse_name
parse_item parse_v6 m item =
    if equal item (text "*") || equal item (text "*.*.*.*")
    then value (record m { all = true })
    else if equal_fold item (text "<local>")
    then value (record m {
      domains = m.domains ++ (text "localhost" ∷ []);
      prefixes = m.prefixes ++ (record { addr = v4 127 0 0 0; bits = 8 } ∷ []);
    })
    else if contains item (text "/")
    then (do p ← of_option (parse_prefix parse_v6 item); value (add_prefix m p))
    else if count_byte b'-' item == 1
    then parse_range parse_v6 m item
    else if contains item (text "*")
    then (do r ← wildcard_range item; value (add_range m r))
    else value (parse_name parse_v6 m item)

parse_items : (Bytes → Option Addr) → Matcher → List Bytes → Outcome Matcher
unfolding parse_item
parse_items parse_v6 m [] = value m
parse_items parse_v6 m (item ∷ items) = do
  next ← parse_item parse_v6 m item
  parse_items parse_v6 next items

abbrev pub no_rules : Matcher
no_rules = record { all = false; ranges = []; prefixes = []; domains = []; hosts = [] }

unfoldable pub parse : (Bytes → Option Addr) → Bytes → Outcome Matcher
unfolding parse_items split_csv
parse parse_v6 s = parse_items parse_v6 no_rules (split_csv s)
