-- ===== src/Network/Hosts/Names.antt =====
-- Which host names internal/network/network.go matches.
use px_go.Prelude.{
  ◌≡◌, ◌≢◌, ◌↔◌, ◌⊎◌, inl, inr, refl, sym, ap, ◌∙◌, Bool, true, false, ◌||◌, List, [], ◌∷◌, ◌++◌,
  reverse, Option, none, some, arith, Bool-cases, Option-cases,
}
use mathlib.Core.List.{reverse-append, reverse-reverse}
use px_go.Strings.{Bytes, equal, is_empty, is_member, strip_prefix, has_prefix, has_suffix}
use px_go.Strings.Laws.{is_empty_of_ne, equal_iff, strip_prefix_sound, strip_prefix-append}
use px_go.Network.{Addr, value, Matcher, parse_addr}
use px_go.Network.Hosts.{
  normalize_host, any_domain, resolved_match, match_name, match_host_of, match_host,
}

has_prefix_sound : (s p : Bytes) → has_prefix s p ≡ true → (r : Bytes) × (s ≡ p ++ r)
unfolding has_prefix
has_prefix_sound s p h = elim (Option-cases (strip_prefix p s)) [
  | inl e ↦ absurd (ground arith)
  | inr (r, e) ↦ (r, strip_prefix_sound p s r e)
]

has_prefix_of_strip : (s p r : Bytes) → strip_prefix p s ≡ some r → has_prefix s p ≡ true
unfolding has_prefix
has_prefix_of_strip s p r e = ground arith

-- A text ends in a suffix exactly if it is some text and that suffix.
has_suffix_iff : (s p : Bytes) → (has_suffix s p ≡ true) ↔ ((r : Bytes) × (s ≡ r ++ p))
unfolding has_suffix
has_suffix_iff s p = (sound, complete)
  where
    sound : has_suffix s p ≡ true → (r : Bytes) × (s ≡ r ++ p)
    sound h =
        let (r, e) = has_prefix_sound (reverse s) (reverse p) h in
        (
          reverse r,
          sym (reverse-reverse s)
              ∙ ap reverse e
              ∙ reverse-append (reverse p) r
              ∙ ap (λ q. reverse r ++ q) (reverse-reverse p),
        )

    complete : (r : Bytes) × (s ≡ r ++ p) → has_suffix s p ≡ true
    complete (r, e) = has_prefix_of_strip (reverse s) (reverse p) (reverse r) (
        ap (strip_prefix (reverse p)) (ap reverse e ∙ reverse-append r p)
        ∙ strip_prefix-append (reverse p) (reverse r))

-- The host is the domain, or a name below it.
abbrev pub IsBelow : Bytes → Bytes → Type 0
IsBelow host domain = (host ≡ domain) ⊎ ((r : Bytes) × (host ≡ r ++ (b'.' ∷ domain)))

abbrev pub IsBelowSome : Bytes → List Bytes → Type 0
IsBelowSome host [] = ⊥
IsBelowSome host (domain ∷ domains) = IsBelow host domain ⊎ IsBelowSome host domains

any_domain_sound :
    (host : Bytes) (domains : List Bytes)
    → any_domain host domains ≡ true
    → IsBelowSome host domains
unfolding any_domain
any_domain_sound host [] h = cc h
any_domain_sound host (domain ∷ domains) h = elim (Bool-cases (equal host domain)) [
  | inl t ↦ inl (inl ((equal_iff host domain).0 t))
  | inr f ↦ elim (Bool-cases (has_suffix host (b'.' ∷ domain))) [
    | inl t ↦ inl (inr ((has_suffix_iff host (b'.' ∷ domain)).0 t))
    | inr g ↦ inr (any_domain_sound host domains (ground arith))
  ]
]

any_domain_complete :
    (host : Bytes) (domains : List Bytes)
    → IsBelowSome host domains
    → any_domain host domains ≡ true
unfolding any_domain
any_domain_complete host [] h = absurd h
any_domain_complete host (domain ∷ domains) (inl (inl e)) =
    let t = (equal_iff host domain).1 e in ground arith
any_domain_complete host (domain ∷ domains) (inl (inr e)) =
    let t = (has_suffix_iff host (b'.' ∷ domain)).1 e in ground arith
any_domain_complete host (domain ∷ domains) (inr h) =
    let t = any_domain_complete host domains h in ground arith

match_host_unknown :
    (split_host_port : Bytes → Option Bytes) (parse_v6 : Bytes → Option Addr) (m : Matcher)
    (resolver : Bytes → Option (List Addr)) (raw : Bytes)
    → is_empty (normalize_host split_host_port raw) ≡ false
    → parse_addr parse_v6 (normalize_host split_host_port raw) ≡ none
    → resolver (normalize_host split_host_port raw) ≡ none
    → match_host split_host_port parse_v6 (some m) resolver raw
      ≡ value (
          is_member (normalize_host split_host_port raw) m.hosts
          || any_domain (normalize_host split_host_port raw) m.domains)
unfolding match_host match_host_of match_name resolved_match
match_host_unknown split_host_port parse_v6 m resolver raw ne name unknown = ground arith

value_iff : (a b : Bool) → (value (a || b) ≡ value true) ↔ ((a ≡ true) ⊎ (b ≡ true))
value_iff true b = ((λ h. inl refl), λ h. refl)
value_iff false b = ((λ h. inr (cc h)), λ c. elim c [ inl e ↦ cc e | inr e ↦ ap value e ])

-- A host that is neither empty nor an address, and that the resolver does not know, is matched exactly
-- if it is a listed host, or a listed domain or a name below one, whatever addresses the list holds,
-- also if it holds `*`.
pub match_host-IsBelowSome :
    (split_host_port : Bytes → Option Bytes) (parse_v6 : Bytes → Option Addr) (m : Matcher)
    (resolver : Bytes → Option (List Addr)) (raw : Bytes)
    → normalize_host split_host_port raw ≢ []
    → parse_addr parse_v6 (normalize_host split_host_port raw) ≡ none
    → resolver (normalize_host split_host_port raw) ≡ none
    → (match_host split_host_port parse_v6 (some m) resolver raw ≡ value true) ↔ (
        (is_member (normalize_host split_host_port raw) m.hosts ≡ true)
        ⊎ IsBelowSome (normalize_host split_host_port raw) m.domains)
match_host-IsBelowSome split_host_port parse_v6 m resolver raw ne name unknown =
    let host = normalize_host split_host_port raw in
    let e =
      match_host_unknown split_host_port parse_v6 m resolver raw (is_empty_of_ne host ne) name
        unknown in
    let (sound, complete) = value_iff (is_member host m.hosts) (any_domain host m.domains) in
    (
      (λ h. elim (sound (sym e ∙ h)) [
        | inl a ↦ inl a
        | inr b ↦ inr (any_domain_sound host m.domains b)
      ]),
      λ c.
          e
          ∙ complete
              (elim c [ inl a ↦ inl a | inr b ↦ inr (any_domain_complete host m.domains b) ]),
    )
