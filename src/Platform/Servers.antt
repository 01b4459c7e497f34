-- ===== src/Platform/Servers.antt =====
-- The list of servers that `parseProxyString` of internal/platform/windows.go reads.
use px_go.Prelude.{
  ℕ, ◌≡◌, ◌≢◌, refl, Bool, false, List, [], ◌∷◌, ◌++◌, map, Option, none, some, ◌==◌, ◌||◌, All,
  All-append, or-eq_false,
}
use px_go.Strings.{Bytes, is_empty, is_space, join}
use px_go.Strings.Laws.{is_empty_of_ne}
use px_go.Strings.Split.{
  Avoids, split_func-join, trim_space-Avoids, cut-Avoids, contains-Avoids, contains-append,
}
use px_go.Platform.{server_of, servers_of, filled, is_separator, parse_proxy_string}

-- A server, with the scheme that it is for if it is written as `scheme=server`.
abbrev pub Entry : Type 0
Entry = Option Bytes × Bytes

abbrev pub print : Entry → Bytes
print (none, server) = server
print (some scheme, server) = scheme ++ (b'=' ∷ server)

-- The bytes that have a meaning in the list.
abbrev pub is_special : ℕ → Bool
is_special c = is_separator c || is_space c || c == b'='

abbrev pub IsWord : Bytes → Type 0
IsWord s = (s ≢ []) × Avoids is_special s

abbrev pub IsEntry : Entry → Type 0
IsEntry (none, server) = IsWord server
IsEntry (some scheme, server) = IsWord scheme × IsWord server

-- A byte that is not special is none of the three kinds.
is_special-eq_false :
    (c : ℕ)
    → is_special c ≡ false
    → (is_separator c ≡ false) × ((is_space c ≡ false) × ((c == b'=') ≡ false))
is_special-eq_false c h =
    let (left, equals) = or-eq_false (is_separator c || is_space c) (c == b'=') h in
    let (separator, space) = or-eq_false (is_separator c) (is_space c) left in
    (separator, (space, equals))

Avoids-separator : (s : Bytes) → Avoids is_special s → Avoids is_separator s
Avoids-separator [] h = tt
Avoids-separator (c ∷ s) h = ((is_special-eq_false c h.0).0, Avoids-separator s h.1)

Avoids-space : (s : Bytes) → Avoids is_special s → Avoids is_space s
Avoids-space [] h = tt
Avoids-space (c ∷ s) h = ((is_special-eq_false c h.0).1.0, Avoids-space s h.1)

Avoids-equals : (s : Bytes) → Avoids is_special s → Avoids (λ c. c == b'=') s
Avoids-equals [] h = tt
Avoids-equals (c ∷ s) h = ((is_special-eq_false c h.0).1.1, Avoids-equals s h.1)

print-Avoids : (e : Entry) → IsEntry e → Avoids is_separator (print e)
print-Avoids (none, server) h = Avoids-separator server h.1
print-Avoids (some scheme, server) (h, g) =
    All-append (λ c. is_separator c ≡ false) scheme (b'=' ∷ server) (Avoids-separator scheme h.1)
      (refl, Avoids-separator server g.1)

server_of-print : (e : Entry) → IsEntry e → server_of (print e) ≡ e.1
unfolding server_of
server_of-print (none, server) h =
    rw (contains-Avoids b'=' server (Avoids-equals server h.1))
      (trim_space-Avoids server (Avoids-space server h.1))
server_of-print (some scheme, server) (h, g) =
    rw
      (contains-append b'=' scheme server, cut-Avoids b'=' scheme server (Avoids-equals scheme h.1))
      (trim_space-Avoids server (Avoids-space server g.1))

print-cons : (e : Entry) → IsEntry e → is_empty (print e) ≡ false
print-cons (none, server) h = is_empty_of_ne server h.0
print-cons (some [], server) h = refl
print-cons (some (c ∷ scheme), server) h = refl

server-cons : (e : Entry) → IsEntry e → is_empty e.1 ≡ false
server-cons (none, server) h = is_empty_of_ne server h.0
server-cons (some scheme, server) (h, g) = is_empty_of_ne server g.0

servers_of-filled :
    (es : List Entry) → All IsEntry es → servers_of (filled (map print es)) ≡ map (λ e. e.1) es
unfolding servers_of filled
servers_of-filled [] h = refl
servers_of-filled (e ∷ es) h =
    rw (print-cons e h.0, server_of-print e h.0, server-cons e h.0, servers_of-filled es h.1) refl

All-print : (es : List Entry) → All IsEntry es → All (Avoids is_separator) (map print es)
All-print [] h = tt
All-print (e ∷ es) h = (print-Avoids e h.0, All-print es h.1)

-- A list of servers, each with a scheme or without one, that is written with `;` between them is
-- read back as the servers without the schemes, if no scheme and no server is empty or holds a
-- space, a semicolon or an equals sign.
pub parse_proxy_string-join :
    (es : List Entry)
    → All IsEntry es
    → parse_proxy_string (join b';' (map print es)) ≡ map (λ e. e.1) es
unfolding parse_proxy_string join
parse_proxy_string-join [] h = refl
parse_proxy_string-join (e ∷ es) h =
    rw
      (split_func-join is_separator b';' (print e) (map print es) refl (print-Avoids e h.0)
        (All-print es h.1))
      (servers_of-filled (e ∷ es) h)
