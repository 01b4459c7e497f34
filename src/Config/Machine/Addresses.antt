-- ===== src/Config/Machine/Addresses.antt =====
-- The addresses that `GetHostIPs` of internal/config/config.go lists, and what `myIPAddress` and
-- `dnsResolve` of internal/pac/pac.go make of such lists.
use px_go.Prelude.{
  ℕ, ◌≡◌, ◌≢◌, ◌⊎◌, refl, sym, inl, inr, true, false, List, [], ◌∷◌, ◌++◌, Option, none, some,
  Bool-cases, All, All-append, arith, or-eq_false, Option-cases, ap,
}
use px_go.Network.{Addr, v4, v6, unmap}
use px_go.Config.Machine.{
  Interface, same_addr, is_seen, append_new, append_addrs, append_interface, append_interfaces,
  get_host_ips, is_loopback, first_outside, or_first, my_ip_address,
}

abbrev pub IsV4 : Addr → Type 0
IsV4 ip = (a b c d : ℕ) × (ip ≡ v4 a b c d)

-- No address stands twice in the list.
abbrev pub HasNoTwins : List Addr → Type 0
HasNoTwins [] = Unit
HasNoTwins (ip ∷ ips) = All (λ a. a ≢ ip) ips × HasNoTwins ips

-- The list begins with 127.0.0.1, has addresses of IPv4 only, and none of them twice.
abbrev pub AreHosts : List Addr → Type 0
AreHosts ips = ((rest : List Addr) × (ips ≡ v4 127 0 0 1 ∷ rest)) × (All IsV4 ips × HasNoTwins ips)

same_addr_refl : (ip : Addr) → same_addr ip ip ≡ true
same_addr_refl (v4 a b c d) = ground arith
same_addr_refl (v6 n) = ground arith

is_seen-eq_false : (ip : Addr) (ips : List Addr) → is_seen ip ips ≡ false → All (λ a. a ≢ ip) ips
is_seen-eq_false ip [] h = tt
is_seen-eq_false ip (a ∷ ips) h =
    let (this, others) = or-eq_false (same_addr ip a) (is_seen ip ips) h in
    (
      λ e. absurd (cc (sym (same_addr_refl ip), ap (same_addr ip) (sym e), this)),
      is_seen-eq_false ip ips others,
    )

HasNoTwins-append :
    (ips : List Addr) (ip : Addr)
    → HasNoTwins ips
    → All (λ a. a ≢ ip) ips
    → HasNoTwins (ips ++ (ip ∷ []))
HasNoTwins-append [] ip h new = (tt, tt)
HasNoTwins-append (a ∷ ips) ip (h, g) (n, new) =
    (All-append (λ x. x ≢ a) ips (ip ∷ []) h (λ e. n (sym e), tt), HasNoTwins-append ips ip g new)

append_new-AreHosts : (out : List Addr) (ip : Addr) → AreHosts out → AreHosts (append_new out ip)
append_new-AreHosts out (v6 n) h = h
append_new-AreHosts out (v4 a b c d) ((rest, e), (ones, h)) =
    elim (Bool-cases (is_seen (v4 a b c d) out)) [
      | inl t ↦ rw t ((rest, e), (ones, h))
      | inr t ↦ rw t (
        (rest ++ (v4 a b c d ∷ []), ap (λ l. l ++ (v4 a b c d ∷ [])) e),
        (
          All-append IsV4 out (v4 a b c d ∷ []) ones ((a, b, c, d, refl), tt),
          HasNoTwins-append out (v4 a b c d) h (is_seen-eq_false (v4 a b c d) out t),
        ),
      )
    ]

append_addrs-AreHosts :
    (addrs : List (Option Addr)) (out : List Addr)
    → AreHosts out
    → AreHosts (append_addrs out addrs)
unfolding append_addrs
append_addrs-AreHosts [] out h = h
append_addrs-AreHosts (none ∷ addrs) out h = append_addrs-AreHosts addrs out h
append_addrs-AreHosts (some ip ∷ addrs) out h =
    append_addrs-AreHosts addrs (append_new out (unmap ip)) (append_new-AreHosts out (unmap ip) h)

append_interface-AreHosts :
    (out : List Addr) (iface : Interface) → AreHosts out → AreHosts (append_interface out iface)
unfolding append_interface
append_interface-AreHosts out iface h = elim (Bool-cases iface.up) [
  | inr t ↦ rw t h
  | inl t ↦ elim (Option-cases iface.addrs) [
    | inl e ↦ rw (t, e) h
    | inr (addrs, e) ↦ rw (t, e) (append_addrs-AreHosts addrs out h)
  ]
]

append_interfaces-AreHosts :
    (ifaces : List Interface) (out : List Addr)
    → AreHosts out
    → AreHosts (append_interfaces out ifaces)
unfolding append_interfaces
append_interfaces-AreHosts [] out h = h
append_interfaces-AreHosts (iface ∷ ifaces) out h =
    append_interfaces-AreHosts ifaces (append_interface out iface)
      (append_interface-AreHosts out iface h)

alone-AreHosts : AreHosts (v4 127 0 0 1 ∷ [])
alone-AreHosts = (([], refl), (((127, 0, 0, 1, refl), tt), (tt, tt)))

-- Whatever the interfaces are, GetHostIPs lists 127.0.0.1 first, addresses of IPv4 only, and none
-- twice.
pub get_host_ips-AreHosts : (ifaces : Option (List Interface)) → AreHosts (get_host_ips ifaces)
unfolding get_host_ips
get_host_ips-AreHosts none = alone-AreHosts
get_host_ips-AreHosts (some ifaces) = append_interfaces-AreHosts ifaces _ alone-AreHosts

-- Every loopback address of the list, or the first that is none with loopback ones before it.
abbrev pub Chosen : List Addr → Option Addr → Type 0
Chosen ips none = All (λ a. is_loopback a ≡ true) ips
Chosen ips (some ip) =
    (before after : List Addr) × (ips ≡ before ++ (ip ∷ after))
    × (All (λ a. is_loopback a ≡ true) before)
    × (is_loopback ip ≡ false)

Chosen-cons :
    (a : Addr) (ips : List Addr) (o : Option Addr)
    → is_loopback a ≡ true
    → Chosen ips o
    → Chosen (a ∷ ips) o
Chosen-cons a ips none t h = (t, h)
Chosen-cons a ips (some ip) t (before, after, e, loops, out) =
    (a ∷ before, after, ap (◌∷◌ a) e, (t, loops), out)

first_outside-Chosen : (ips : List Addr) → Chosen ips (first_outside ips)
unfolding first_outside
first_outside-Chosen [] = tt
first_outside-Chosen (a ∷ ips) = elim (Bool-cases (is_loopback a)) [
  | inl t ↦ rw t (Chosen-cons a ips _ t (first_outside-Chosen ips))
  | inr t ↦ rw t ([], ips, refl, tt, t)
]

or_first-Chosen :
    (ips : List Addr) (o : Option Addr)
    → AreHosts ips
    → Chosen ips o
    → Chosen ips (some (or_first o ips))
      ⊎ (All (λ a. is_loopback a ≡ true) ips × (or_first o ips ≡ v4 127 0 0 1))
or_first-Chosen ips (some ip) h g = inl g
or_first-Chosen ips none ((rest, e), _) g = inr (g, rw e refl)

-- myIPAddress is the first address of GetHostIPs that is no loopback address, or 127.0.0.1 where all
-- of them are.
pub my_ip_address-Chosen :
    (ifaces : Option (List Interface))
    → Chosen (get_host_ips ifaces) (some (my_ip_address ifaces))
      ⊎ (All (λ a. is_loopback a ≡ true) (get_host_ips ifaces)
          × (my_ip_address ifaces ≡ v4 127 0 0 1))
unfolding my_ip_address
my_ip_address-Chosen ifaces =
    or_first-Chosen (get_host_ips ifaces) _ (get_host_ips-AreHosts ifaces)
      (first_outside-Chosen (get_host_ips ifaces))
