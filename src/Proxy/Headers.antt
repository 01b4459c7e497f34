-- ===== src/Proxy/Headers.antt =====
-- internal/proxy/handler.go: what is sent on of a request and of a response. `http.Header` is a map
-- from a key to its values; its keys have the canonical form. `body` is the body that was read.
pub mod Laws
use px_go.Prelude.{
  ℕ, Bool, true, false, not, ◌&&◌, ◌||◌, List, [], ◌∷◌, ◌++◌, Option, none, some, length,
  if◌then◌else◌,
}
use px_go.Strings.{
  Bytes, text, equal, equal_fold, is_empty, is_member, to_lower, to_upper, trim_space, contains,
  cut,
}
use px_go.Dict.{lookup, insert, delete}

abbrev pub Header : Type 0
Header = List (Bytes × List Bytes)

-- `url.URL`, as far as the program reads and writes it.
pub record Url : Type 0 where
  pub scheme : Bytes
  pub host : Bytes
  pub path : Bytes
  pub raw_query : Bytes

-- `http.Request`; `is_tls` is `TLS != nil`.
pub record HttpRequest : Type 0 where
  pub url : Option Url
  pub host : Bytes
  pub headers : Header
  pub close : Bool
  pub is_tls : Bool
  pub body : Bytes
  pub content_length : ℕ
  pub request_uri : Bytes

abbrev pub or_nothing : Option (List Bytes) → List Bytes
or_nothing none = []
or_nothing (some values) = values

abbrev pub first_value : List Bytes → Bytes
first_value [] = []
first_value (value ∷ _) = value

-- `Header.Get` and `Header.Set`
unfoldable pub header_get : Header → Bytes → Bytes
header_get h key = first_value (or_nothing (lookup key h))

unfoldable pub header_set : Bytes → Bytes → Header → Header
header_set key value h = insert key (value ∷ []) h

abbrev pub request_hop_keys : List Bytes
request_hop_keys =
    text "Connection"
    ∷ text "Proxy-Connection"
    ∷ text "Keep-Alive"
    ∷ text "Proxy-Authenticate"
    ∷ text "Proxy-Authorization"
    ∷ text "Te"
    ∷ text "Trailers"
    ∷ text "Transfer-Encoding"
    ∷ text "Upgrade"
    ∷ []

abbrev pub response_hop_keys : List Bytes
response_hop_keys =
    text "Connection"
    ∷ text "Proxy-Connection"
    ∷ text "Keep-Alive"
    ∷ text "Proxy-Authorization"
    ∷ text "Te"
    ∷ text "Trailers"
    ∷ text "Transfer-Encoding"
    ∷ text "Upgrade"
    ∷ []

-- The loop of both functions below
unfoldable pub remove_keys : List Bytes → Header → Header
unfolding delete
remove_keys [] h = h
remove_keys (key ∷ keys) h = remove_keys keys (delete key h)

unfoldable pub remove_hop_request_headers : Header → Header
remove_hop_request_headers h = remove_keys request_hop_keys h

unfoldable pub remove_hop_response_headers : Header → Header
remove_hop_response_headers h = remove_keys response_hop_keys h

abbrev pub hop_names : List Bytes
hop_names =
    text "connection"
    ∷ text "proxy-connection"
    ∷ text "keep-alive"
    ∷ text "proxy-authenticate"
    ∷ text "proxy-authorization"
    ∷ text "te"
    ∷ text "trailers"
    ∷ text "transfer-encoding"
    ∷ text "upgrade"
    ∷ []

unfoldable pub hop_header : Bytes → Bool
unfolding to_lower equal
hop_header key = is_member (to_lower key) hop_names

-- The part behind a PAC-style prefix
abbrev behind_prefix : Bytes → Bytes → Option Bytes → Bytes
behind_prefix raw before none = raw
behind_prefix raw before (some rest) =
    if is_member (to_upper before)
      (text "PROXY" ∷ text "HTTP" ∷ text "HTTPS" ∷ text "SOCKS" ∷ text "SOCKS5" ∷ [])
    then trim_space rest
    else raw

abbrev host_or : Bytes → Option Bytes → Bytes
host_or raw none = raw
host_or raw (some host) = host

-- The address to dial for a proxy; `parse_host` is the host of `url.Parse`, and is `none` for an
-- error and for an empty host.
unfoldable pub normalize_proxy_addr : (Bytes → Option Bytes) → Bytes → Bytes
unfolding to_upper trim_space cut contains equal
normalize_proxy_addr parse_host raw =
    let (before, behind) = cut b' ' raw in
    let stripped = behind_prefix raw before behind in
    if contains stripped (text "://") then host_or stripped (parse_host stripped) else stripped

abbrev scheme_for : Bool → Bytes
scheme_for tls = if tls then text "https" else text "http"

abbrev absolute : Bytes → HttpRequest → Url → Url
absolute scheme r u = record {
  scheme = scheme;
  host = r.host;
  path = u.path;
  raw_query = u.raw_query;
}

-- `clone.URL` of both functions below: a URL with no scheme gets one. (`IsAbs` tests the scheme.)
abbrev pub absolute_url : Bytes → HttpRequest → Option Url → Option Url
absolute_url scheme r none = none
absolute_url scheme r (some u) = some (if is_empty u.scheme then absolute scheme r u else u)

unfoldable pub clone_for_transport : HttpRequest → Bytes → HttpRequest
unfolding remove_hop_request_headers
clone_for_transport r body = record r {
  request_uri = [];
  close = false;
  body = body;
  content_length = length body;
  headers = remove_hop_request_headers r.headers;
  url = absolute_url (scheme_for r.is_tls) r r.url;
}

-- `Proxy-Authorization` of the clone
unfoldable pub set_authorization : HttpRequest → Bytes → Bool → Header → Header
unfolding header_set header_get
set_authorization r auth_header preserve h =
    let own = header_get r.headers (text "Proxy-Authorization") in
    let kept =
      if preserve && not (is_empty own) && is_empty auth_header
      then header_set (text "Proxy-Authorization") own h
      else h in
    if not (is_empty auth_header)
    then header_set (text "Proxy-Authorization") auth_header kept
    else kept

unfoldable pub clone_for_write : HttpRequest → Bytes → Bytes → Bool → HttpRequest
unfolding remove_hop_request_headers set_authorization
clone_for_write r body auth_header preserve = record r {
  close = false;
  body = body;
  content_length = length body;
  headers = set_authorization r auth_header preserve (remove_hop_request_headers r.headers);
  url = absolute_url (text "http") r r.url;
}

abbrev line : Bytes
line = 13 ∷ 10 ∷ []

-- The lines of one key
abbrev value_lines : Bytes → List Bytes → Bytes
value_lines key [] = []
value_lines key (value ∷ values) = key ++ (text ": " ++ (value ++ (line ++ value_lines key values)))

-- The lines of the headers, in the order in which the map is gone through.
unfoldable pub header_lines : Bytes → Bool → Header → Bytes
unfolding equal_fold
header_lines auth_header preserve [] = []
header_lines auth_header preserve ((key, values) ∷ h) =
    let rest = header_lines auth_header preserve h in
    let authorization =
      equal_fold key (text "Proxy-Authorization") && (not preserve || not (is_empty auth_header)) in
    if hop_header key then rest else if authorization then rest else value_lines key values ++ rest

unfoldable pub target_host_port : HttpRequest → Bytes
target_host_port r =
    if not (is_empty r.host) then r.host else (elim r.url [ none ↦ [] | some u ↦ u.host ])

-- The text that `writeConnectRequest` writes.
unfoldable pub connect_request : HttpRequest → Bytes → Bool → Bytes
unfolding target_host_port
connect_request r auth_header preserve =
    let target = target_host_port r in
    text "CONNECT "
    ++ (target
        ++ (text " HTTP/1.1"
            ++ (line
                ++ (text "Host: "
                    ++ (target
                        ++ (line
                            ++ (header_lines auth_header preserve r.headers
                                ++ ((if is_empty auth_header
                                      then []
                                      else text "Proxy-Authorization: " ++ (auth_header ++ line))
                                    ++ line))))))))

-- What `copyResponse` adds to the header of the reply: each key with its values.
unfoldable pub response_header : Header → Header
unfolding remove_hop_response_headers
response_header h = remove_hop_response_headers h
