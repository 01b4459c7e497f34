-- ===== src/Pac/Result.antt =====
-- internal/pac/pac.go: `normalizeProxyResult`, which rewrites the text that FindProxyForURL
-- returns, and `decodeText`, which reads the bytes of the PAC file.
use px_go.Prelude.{ℕ, ◌+◌, ◌/◌, ◌%◌, ◌||◌, List, [], ◌∷◌, ◌++◌, ltb, if◌then◌else◌}
use px_go.Strings.{Bytes, text, is_empty, equal, trim_space, to_lower, replace_all, split, join}

-- The loop that both files run over the parts of a comma-separated text: trimmed, empty ones
-- left out.
unfoldable pub trimmed_parts : List Bytes → List Bytes
trimmed_parts [] = []
trimmed_parts (part ∷ parts) =
    let rest = trimmed_parts parts in
    if is_empty (trim_space part) then rest else trim_space part ∷ rest

-- `for _, scheme := range …: prefix := strings.ToLower(strings.TrimSpace(scheme)) + "://"`
abbrev as_url : Bytes → Bytes → Bytes
as_url result scheme = replace_all result scheme (to_lower (trim_space scheme) ++ text "://")

-- The replacements, in the order of the source.
unfoldable pub replace_schemes : Bytes → Bytes
replace_schemes raw =
    let plain = replace_all (replace_all raw (text "PROXY ") []) (text "HTTP ") [] in
    let urls = as_url (as_url (as_url plain (text "HTTPS ")) (text "SOCKS4 ")) (text "SOCKS5 ") in
    replace_all (replace_all urls (text "SOCKS ") (text "socks5://")) (text ";") (text ",")

abbrev direct_or_joined : List Bytes → Bytes
direct_or_joined [] = text "DIRECT"
direct_or_joined (w ∷ ws) = join b',' (w ∷ ws)

unfoldable pub normalize_proxy_result : Bytes → Bytes
unfolding replace_schemes trimmed_parts
normalize_proxy_result raw =
    if is_empty (trim_space raw)
    then text "DIRECT"
    else direct_or_joined (trimmed_parts (split b',' (replace_schemes (trim_space raw))))

-- `string(runes)`: the UTF-8 of a code point below 256.
abbrev utf8_of_byte : ℕ → Bytes
utf8_of_byte b = if ltb b 128 then b ∷ [] else (192 + b / 64) ∷ (128 + b % 64) ∷ []

utf8_of_bytes : Bytes → Bytes
utf8_of_bytes [] = []
utf8_of_bytes (b ∷ bs) = utf8_of_byte b ++ utf8_of_bytes bs

unfoldable pub decode_text : Bytes → Bytes → Bytes
unfolding utf8_of_bytes
decode_text bytes encoding =
    let name = to_lower (trim_space encoding) in
    if is_empty name || equal name (text "utf-8") || equal name (text "utf8")
    then bytes
    else if equal name (text "latin-1")
        || equal name (text "latin1")
        || equal name (text "iso-8859-1")
    then utf8_of_bytes bytes
    else bytes
