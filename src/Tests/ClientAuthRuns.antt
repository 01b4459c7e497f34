-- ===== src/Tests/ClientAuthRuns.antt =====
-- Clients that authenticate, for internal/clientauth.
use px_go.Prelude.{◌≡◌, ◌↔◌, ◌⊎◌, refl, true, false, List, [], ◌∷◌, none, some}
use px_go.Strings.{Bytes, text}
use px_go.Auth.Session.{Codec, failed}
use px_go.ClientAuth.{State, Handler, Env, Request, new_state, expand_methods}
use px_go.ClientAuth.Authenticate.{authenticate, authenticate_all}
use px_go.ClientAuth.Connection.{SomeAccepted, authenticate-authed, authenticate_all-SomeAccepted}

-- An encoding that leaves texts as they are, and an NTLM server that wants the same message twice.
abbrev codec : Codec
codec = record {
  base64 = λ s. s;
  unbase64 = λ s. some s;
  md5_hex = λ s. s;
  ntlm_negotiate = none;
  ntlm_authenticate = λ challenge creds. none;
  negotiate = λ round challenge. failed;
}

abbrev env : Env Bytes Bytes
env = record {
  codec = codec;
  sha256_hex = λ s. s;
  keyring = λ user. none;
  ntlm_start = λ user password domain message. some (message, text "challenge");
  ntlm_finish = λ session message. (session, px_go.Strings.equal session message);
  sspi_new = none;
  sspi_accept = λ server message. (server, none);
  now = 7;
  timestamp = text "noon";
  unix_time = text "7";
  cnonce = text "c";
}

abbrev handler : Handler
handler = record {
  username = text "ann";
  password = text "pw";
  methods = text "NTLM" ∷ text "DIGEST" ∷ [];
  no_sspi = true;
}

abbrev sends : Bytes → Request
sends value = record {
  authorization = value;
  remote_addr = text "10.0.0.1:9";
  digest = record { method = text "GET"; uri = text "/" };
}

abbrev fresh : State Bytes Bytes
fresh = new_state

abbrev handshake : List (Env Bytes Bytes × Request)
handshake = (env, sends (text "NTLM m")) ∷ (env, sends (text "NTLM m")) ∷ []

basic_passes : (authenticate env handler (sends (text "Basic ann:pw")) fresh).1.ok ≡ true
unfolding authenticate px_go.ClientAuth.Authenticate.authenticate_with
    px_go.ClientAuth.Authenticate.scheme_of px_go.ClientAuth.Authenticate.conclude
    px_go.ClientAuth.Verify.verify_basic px_go.ClientAuth.Authenticate.payload_of
    px_go.Strings.equal_fold
basic_passes = refl

wrong_password_fails : (authenticate env handler (sends (text "Basic ann:pv")) fresh).1.ok ≡ false
unfolding authenticate px_go.ClientAuth.Authenticate.authenticate_with
    px_go.ClientAuth.Authenticate.scheme_of px_go.ClientAuth.Authenticate.conclude
    px_go.ClientAuth.Verify.verify_basic px_go.ClientAuth.Authenticate.payload_of
    px_go.Strings.equal_fold px_go.ClientAuth.Authenticate.refuse
wrong_password_fails = refl

handshake_passes : (authenticate_all handler handshake fresh).authed ≡ true
unfolding authenticate_all authenticate px_go.ClientAuth.Authenticate.authenticate_with
    px_go.ClientAuth.Authenticate.scheme_of px_go.ClientAuth.Authenticate.conclude_pair
    px_go.ClientAuth.Verify.verify_ntlm px_go.ClientAuth.Authenticate.payload_of
handshake_passes = refl

first_message_fails : (authenticate env handler (sends (text "NTLM m")) fresh).1.ok ≡ false
unfolding authenticate px_go.ClientAuth.Authenticate.authenticate_with
    px_go.ClientAuth.Authenticate.scheme_of px_go.ClientAuth.Authenticate.conclude_pair
    px_go.ClientAuth.Verify.verify_ntlm
first_message_fails = refl

authenticate-authed_example :
    ((authenticate env handler (sends (text "NTLM m")) fresh).0.authed
      ≡ (authenticate env handler (sends (text "NTLM m")) fresh).1.ok)
    × ((authenticate env handler (sends (text "NTLM m")) fresh).1.err ≡ false)
authenticate-authed_example =
    authenticate-authed env handler (sends (text "NTLM m")) fresh (refl, refl)

authenticate_all-SomeAccepted_example :
    ((authenticate_all handler handshake fresh).authed ≡ true)
    ↔ ((fresh.authed ≡ true) ⊎ SomeAccepted handler handshake fresh)
authenticate_all-SomeAccepted_example = authenticate_all-SomeAccepted handler handshake fresh refl

listed : expand_methods (text "ntlm, negotiate,,none") true ≡ text "NTLM" ∷ []
unfolding expand_methods px_go.Strings.to_upper px_go.Strings.trim_space px_go.Strings.split
listed = refl
