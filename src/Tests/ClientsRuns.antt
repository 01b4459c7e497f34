-- ===== src/Tests/ClientsRuns.antt =====
-- Connections of clients that have to authenticate, for internal/proxy/server.go.
use px_go.Prelude.{Bool, ◌≡◌, ◌↔◌, refl, true, false, List, [], ◌∷◌, none, some, if◌then◌else◌}
use px_go.Strings.{Bytes, text}
use px_go.Auth.Session.{Codec, failed}
use px_go.ClientAuth.{Handler, Env, Request, new_state}
use px_go.ClientAuth.Connection.{SomeAccepted}
use px_go.Proxy.Clients.{Call, request, conn_state, closed, or_new, serve_all, no_conns}
use px_go.Proxy.Clients.Isolation.{own_requests, serve_all-SomeAccepted}

abbrev plain_codec : Codec
plain_codec = record {
  base64 = λ s. s;
  unbase64 = λ s. some s;
  md5_hex = λ s. s;
  ntlm_negotiate = none;
  ntlm_authenticate = λ challenge creds. none;
  negotiate = λ round challenge. failed;
}

abbrev around : Env Bytes Bytes
around = record {
  codec = plain_codec;
  sha256_hex = λ s. s;
  keyring = λ user. if px_go.Strings.equal user (text "bob") then some (text "s3") else none;
  ntlm_start = λ user password domain message. none;
  ntlm_finish = λ session message. (session, false);
  sspi_new = none;
  sspi_accept = λ server message. (server, none);
  now = 0;
  timestamp = [];
  unix_time = [];
  cnonce = [];
}

abbrev any_user : Handler
any_user = record { username = []; password = []; methods = text "BASIC" ∷ []; no_sspi = true }

abbrev asks : Bytes → Request
asks value = record {
  authorization = value;
  remote_addr = [];
  digest = record { method = text "GET"; uri = text "/" };
}

abbrev anyone : Bytes → Bool
anyone addr = true

abbrev nobody : Bytes → Bool
nobody addr = false

-- Connection 1 authenticates, and connection 2 does not.
abbrev calls : List (Call Bytes Bytes)
calls =
    request (some 1) (text "/") around (asks (text "Basic bob:s3"))
    ∷ request (some 2) (text "/") around (asks (text "Basic bob:s4"))
    ∷ []

first_passes : (or_new (serve_all anyone any_user calls no_conns 1)).authed ≡ true
unfolding serve_all px_go.ClientAuth.Authenticate.authenticate
    px_go.ClientAuth.Authenticate.authenticate_with px_go.ClientAuth.Authenticate.scheme_of
    px_go.ClientAuth.Authenticate.conclude px_go.ClientAuth.Verify.verify_basic
    px_go.ClientAuth.Authenticate.payload_of
first_passes = refl

second_does_not : (or_new (serve_all anyone any_user calls no_conns 2)).authed ≡ false
unfolding serve_all px_go.ClientAuth.Authenticate.authenticate
    px_go.ClientAuth.Authenticate.authenticate_with px_go.ClientAuth.Authenticate.scheme_of
    px_go.ClientAuth.Authenticate.conclude px_go.ClientAuth.Verify.verify_basic
    px_go.ClientAuth.Authenticate.payload_of px_go.ClientAuth.Authenticate.refuse
second_does_not = refl

-- A right answer does not count where the client is not allowed, or asks for the health of the server.
refused_in_front : (or_new (serve_all nobody any_user calls no_conns 1)).authed ≡ false
unfolding serve_all
refused_in_front = refl

health_in_front :
    (or_new (
      serve_all anyone any_user
        (request (some 1) (text "/health") around (asks (text "Basic bob:s3")) ∷ [])
        no_conns
        1)).authed
    ≡ false
unfolding serve_all px_go.Strings.equal
health_in_front = refl

closed_forgets :
    (or_new (
      serve_all anyone any_user
        (request (some 1) (text "/") around (asks (text "Basic bob:s3")) ∷ conn_state 1 closed ∷ [])
        no_conns
        1)).authed
    ≡ false
unfolding serve_all
closed_forgets = refl

serve_all-SomeAccepted_example :
    ((or_new (serve_all anyone any_user calls no_conns 2)).authed ≡ true)
    ↔ SomeAccepted any_user (own_requests anyone 2 calls) new_state
serve_all-SomeAccepted_example = serve_all-SomeAccepted anyone any_user 2 calls refl
