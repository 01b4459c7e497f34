-- ===== src/Config/Machine.antt =====
-- internal/config/config.go: the addresses of the machine, the path of a file URL and the health
-- check, with the functions `dnsResolve` and `myIPAddress` of internal/pac/pac.go, which a PAC script
-- calls. What the network interfaces, the resolver, the URL parser and the HTTP client answer are
-- arguments.
pub mod Addresses
use px_go.Prelude.{
  ℕ, ◌%◌, ◌/◌, ◌^◌, Bool, true, false, not, ◌&&◌, ◌||◌, List, [], ◌∷◌, ◌++◌, Option, none, some,
  ◌==◌, ltb, length, if◌then◌else◌,
}
use px_go.Strings.{Bytes, text, is_empty, has_prefix}
use px_go.Network.{Addr, v4, v6, number, unmap}
use px_go.Config.{pos}
use px_go.Config.Numbers.{itoa}
use px_go.Config.Load.{Goos, windows}

-- A network interface: whether it is up, and the addresses of its prefixes, `none` where one does
-- not parse. The list is `none` for an error.
pub record Interface : Type 0 where
  pub up : Bool
  pub addrs : Option (List (Option Addr))

-- Whether two addresses have the same text.
abbrev pub same_addr : Addr → Addr → Bool
same_addr (v4 a b c d) (v4 x y z w) = a == x && b == y && c == z && d == w
same_addr (v6 n) (v6 m) = n == m
same_addr _ _ = false

abbrev pub is_seen : Addr → List Addr → Bool
is_seen ip [] = false
is_seen ip (a ∷ seen) = same_addr ip a || is_seen ip seen

-- An address that is not new to the list or not of IPv4 is skipped.
abbrev pub append_new : List Addr → Addr → List Addr
append_new out (v6 n) = out
append_new out (v4 a b c d) = if is_seen (v4 a b c d) out then out else out ++ (v4 a b c d ∷ [])

-- The loop over the addresses of an interface
unfoldable pub append_addrs : List Addr → List (Option Addr) → List Addr
unfolding unmap
append_addrs out [] = out
append_addrs out (none ∷ addrs) = append_addrs out addrs
append_addrs out (some ip ∷ addrs) = append_addrs (append_new out (unmap ip)) addrs

unfoldable pub append_interface : List Addr → Interface → List Addr
unfolding append_addrs
append_interface out iface =
    if iface.up then elim iface.addrs [ none ↦ out | some addrs ↦ append_addrs out addrs ] else out

-- The loop over the interfaces
unfoldable pub append_interfaces : List Addr → List Interface → List Addr
unfolding append_interface
append_interfaces out [] = out
append_interfaces out (iface ∷ ifaces) = append_interfaces (append_interface out iface) ifaces

-- `GetHostIPs`, for the interfaces or an error; the set `seen` is that of the texts of `out`.
unfoldable pub get_host_ips : Option (List Interface) → List Addr
unfolding append_interfaces
get_host_ips none = v4 127 0 0 1 ∷ []
get_host_ips (some ifaces) = append_interfaces (v4 127 0 0 1 ∷ []) ifaces

-- `Addr.IsLoopback`
abbrev pub is_loopback : Addr → Bool
is_loopback (v4 a _ _ _) = a == 127
is_loopback (v6 n) = n == 1

-- The address that `myIPAddress` prints; `none` is its last line.
unfoldable pub first_outside : List Addr → Option Addr
first_outside [] = none
first_outside (ip ∷ ips) = if not (is_loopback ip) then some ip else first_outside ips

abbrev pub or_first : Option Addr → List Addr → Addr
or_first (some ip) ips = ip
or_first none (ip ∷ ips) = ip
or_first none [] = v4 127 0 0 1

unfoldable pub my_ip_address : Option (List Interface) → Addr
unfolding first_outside get_host_ips
my_ip_address ifaces = or_first (first_outside (get_host_ips ifaces)) (get_host_ips ifaces)

-- `dnsResolve`; `none` is the empty text. `To4` reads the mapped addresses of IPv6, too.
unfoldable pub first_v4 : List Addr → Option Addr
unfolding unmap
first_v4 [] = none
first_v4 (ip ∷ ips) = elim (unmap ip) [ v4 a b c d ↦ some (v4 a b c d) | v6 n ↦ first_v4 ips ]

unfoldable pub dns_resolve : (Bytes → Option (List Addr)) → Bytes → Option Addr
unfolding first_v4
dns_resolve lookup host = elim (lookup host) [ none ↦ none | some ips ↦ first_v4 ips ]

-- `FileURLToLocalPath`, for the host and the path of the URL, or an error.
abbrev third_is_colon : Bytes → Bool
third_is_colon (a ∷ b ∷ c ∷ s) = c == b':'
third_is_colon _ = false

abbrev is_drive : Bytes → Bool
is_drive (a ∷ b ∷ []) = b == b':'
is_drive _ = false

abbrev tail : Bytes → Bytes
tail [] = []
tail (c ∷ s) = s

unfoldable pub file_url_to_local_path : Bool → Bytes → Option (Bytes × Bytes) → Bytes
unfolding has_prefix
file_url_to_local_path on_windows url none = url
file_url_to_local_path on_windows url (some (host, path)) =
    if not on_windows
    then path
    else if is_drive host
    then host ++ path
    else if has_prefix path (text "/") && third_is_colon path
    then tail path
    else path

-- `HealthCheck`: the URL that is requested, and whether there is no error.
unfoldable pub health_check : (Bytes → Option ℕ) → ℕ → Bool
unfolding itoa
health_check get port =
    elim (get (text "http://127.0.0.1:" ++ (itoa (pos port) ++ text "/health"))) [
      | none ↦ false
      | some status ↦ status == 200
    ]
