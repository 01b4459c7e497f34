-- ===== src/Tests/HeadersRuns.antt =====
-- Headers that are sent on, for internal/proxy/handler.go.
use px_go.Prelude.{◌≡◌, refl, true, false, [], ◌∷◌, none, some, if◌then◌else◌}
use px_go.Strings.{text, equal, is_member}
use px_go.Dict.{lookup}
use px_go.Proxy.Headers.{
  HttpRequest, header_get, request_hop_keys, clone_for_transport, clone_for_write, connect_request,
}
use px_go.Proxy.Headers.Laws.{
  sent_authorization, lookup-clone_for_write, lookup-clone_for_transport, connect_request_preserve,
  without_authorization,
}

abbrev client_request : HttpRequest
client_request = record {
  url = some (record { scheme = []; host = text "h:443"; path = text "/"; raw_query = [] });
  host = text "h:443";
  headers =
      (text "Accept", text "a" ∷ text "b" ∷ [])
      ∷ (text "Proxy-Authorization", text "Basic x" ∷ [])
      ∷ (text "Te", text "gzip" ∷ [])
      ∷ [];
  close = true;
  is_tls = false;
  body = text "data";
  content_length = 4;
  request_uri = text "/";
}

preserved :
    lookup (text "Proxy-Authorization") (clone_for_write client_request [] [] true).headers
    ≡ some (text "Basic x" ∷ [])
unfolding lookup clone_for_write equal px_go.Dict.insert px_go.Proxy.Headers.remove_keys
preserved = refl

dropped :
    lookup (text "Proxy-Authorization") (clone_for_write client_request [] [] false).headers ≡ none
unfolding lookup clone_for_write px_go.Proxy.Headers.remove_keys equal
dropped = refl

lookup-clone_for_write_example :
    lookup (text "Te") (clone_for_write client_request (text "data") (text "NTLM t") true).headers
    ≡ (if equal (text "Te") (text "Proxy-Authorization")
        then sent_authorization
            (text "NTLM t")
            true
            (header_get client_request.headers (text "Proxy-Authorization"))
        else if is_member (text "Te") request_hop_keys
        then none
        else lookup (text "Te") client_request.headers)
lookup-clone_for_write_example =
    lookup-clone_for_write client_request (text "data") (text "NTLM t") (text "Te") true

accepted_header_is_sent :
    lookup (text "Accept") (clone_for_transport client_request (text "data")).headers ≡ (
      if is_member (text "Accept") request_hop_keys
      then none
      else lookup (text "Accept") client_request.headers)
accepted_header_is_sent = lookup-clone_for_transport client_request (text "data") (text "Accept")

connect_request_preserve_example :
    connect_request client_request [] true
    ≡ connect_request
        (record client_request { headers = without_authorization client_request.headers })
        []
        false
connect_request_preserve_example = connect_request_preserve client_request [] true
