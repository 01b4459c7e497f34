-- ===== src/Proxy/Headers/Laws.antt =====
-- Which headers internal/proxy/handler.go sends on.
use px_go.Prelude.{
  ◌≡◌, refl, ap, ◌∙◌, Bool, false, not, ◌&&◌, List, [], ◌∷◌, Option, none, some, arith,
  if◌then◌else◌,
}
use px_go.Strings.{Bytes, text, equal, equal_fold, is_empty, is_member, to_lower}
use px_go.Strings.Laws.{equal_iff, equal_comm}
use px_go.Dict.{lookup, insert, delete, lookup-insert, lookup-delete}
use px_go.Proxy.Headers.{
  Header, HttpRequest, header_get, request_hop_keys, remove_keys, remove_hop_request_headers,
  hop_header, clone_for_transport, set_authorization, clone_for_write, header_lines,
  connect_request,
}

lookup-remove_keys :
    (keys : List Bytes) (h : Header) (k : Bytes)
    → lookup k (remove_keys keys h) ≡ (if is_member k keys then none else lookup k h)
unfolding remove_keys
lookup-remove_keys [] h k = refl
lookup-remove_keys (key ∷ keys) h k =
    ground
      (arith, lookup-remove_keys keys (delete key h) k, lookup-delete key k h, equal_comm k key)

-- The header Proxy-Authorization that goes to an upstream proxy: px's own if it has one, else the
-- client's, if that is to be kept and is not empty.
abbrev pub sent_authorization : Bytes → Bool → Bytes → Option (List Bytes)
sent_authorization auth_header preserve own =
    if not (is_empty auth_header)
    then some (auth_header ∷ [])
    else if preserve && not (is_empty own)
    then some (own ∷ [])
    else none

lookup-set_authorization :
    (r : HttpRequest) (auth_header k : Bytes) (preserve : Bool) (h : Header)
    → lookup (text "Proxy-Authorization") h ≡ none
    → lookup k (set_authorization r auth_header preserve h) ≡ (
        if equal k (text "Proxy-Authorization")
        then sent_authorization auth_header preserve
            (header_get r.headers (text "Proxy-Authorization"))
        else lookup k h)
unfolding set_authorization
lookup-set_authorization r auth_header k preserve h absent =
    let own = header_get r.headers (text "Proxy-Authorization") in
    ground (
      arith,
      equal_comm k (text "Proxy-Authorization"),
      equal_iff k (text "Proxy-Authorization"),
      lookup-insert (text "Proxy-Authorization") k (own ∷ []) h,
      lookup-insert (text "Proxy-Authorization") k (auth_header ∷ []) h,
      lookup-insert (text "Proxy-Authorization") k (auth_header ∷ [])
          (insert (text "Proxy-Authorization") (own ∷ []) h),
    )

removed_authorization :
    (h : Header) → lookup (text "Proxy-Authorization") (remove_hop_request_headers h) ≡ none
unfolding remove_hop_request_headers equal
removed_authorization h = lookup-remove_keys request_hop_keys h (text "Proxy-Authorization")

-- What `cloneForWrite` sends to an upstream proxy, key by key: Proxy-Authorization as above, none of
-- the other hop-by-hop keys, and every other key as the client sent it.
pub lookup-clone_for_write :
    (r : HttpRequest) (body auth_header k : Bytes) (preserve : Bool)
    → lookup k (clone_for_write r body auth_header preserve).headers ≡ (
        if equal k (text "Proxy-Authorization")
        then sent_authorization auth_header preserve
            (header_get r.headers (text "Proxy-Authorization"))
        else if is_member k request_hop_keys
        then none
        else lookup k r.headers)
unfolding clone_for_write remove_hop_request_headers
lookup-clone_for_write r body auth_header k preserve =
    lookup-set_authorization r auth_header k preserve (remove_hop_request_headers r.headers)
      (removed_authorization r.headers)
    ∙ ap
        (if◌then◌else◌ (equal k (text "Proxy-Authorization")) (
          sent_authorization auth_header preserve
            (header_get r.headers (text "Proxy-Authorization"))))
        (lookup-remove_keys request_hop_keys r.headers k)

-- What `roundTripDirect` sends to a server, key by key: no hop-by-hop key, and every other key as
-- the client sent it.
pub lookup-clone_for_transport :
    (r : HttpRequest) (body k : Bytes)
    → lookup k (clone_for_transport r body).headers
      ≡ (if is_member k request_hop_keys then none else lookup k r.headers)
unfolding clone_for_transport
lookup-clone_for_transport r body k = lookup-remove_keys request_hop_keys r.headers k

hop_header-authorization :
    (key : Bytes) → hop_header key ≡ false → equal_fold key (text "Proxy-Authorization") ≡ false
unfolding hop_header equal_fold to_lower
hop_header-authorization key h = ground arith

-- A header without the client's Proxy-Authorization, however the key is written.
abbrev pub without_authorization : Header → Header
without_authorization [] = []
without_authorization ((key, values) ∷ h) =
    let rest = without_authorization h in
    if equal_fold key (text "Proxy-Authorization") then rest else (key, values) ∷ rest

header_lines-without_authorization :
    (auth_header : Bytes) (preserve : Bool) (h : Header)
    → header_lines auth_header preserve h ≡ header_lines auth_header false (without_authorization h)
unfolding header_lines
header_lines-without_authorization auth_header preserve [] = refl
header_lines-without_authorization auth_header preserve ((key, values) ∷ h) =
    ground (
      arith,
      hop_header-authorization key,
      header_lines-without_authorization auth_header preserve h,
    )

-- The CONNECT request for an upstream proxy is, also where the client's Proxy-Authorization is to be
-- preserved, the one for a client that sent no such header and where nothing is preserved: the test for
-- hop-by-hop keys, which comes first, leaves the header out, however its key is written.
pub connect_request_preserve :
    (r : HttpRequest) (auth_header : Bytes) (preserve : Bool)
    → connect_request r auth_header preserve
      ≡ connect_request (record r { headers = without_authorization r.headers }) auth_header false
unfolding connect_request
connect_request_preserve r auth_header preserve =
    rw (header_lines-without_authorization auth_header preserve r.headers) refl
