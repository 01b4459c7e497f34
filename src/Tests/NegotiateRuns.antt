-- ===== src/Tests/NegotiateRuns.antt =====
-- A session NEGOTIATE on a system without SSPI, for internal/auth/auth.go.
use px_go.Prelude.{◌≡◌, refl, true, false, [], ◌∷◌, ◌++◌, none, some}
use px_go.Strings.{Bytes, text}
use px_go.Auth.Session.{Codec, token, failed}
use px_go.Auth.Negotiate.{NegotiateSession, Negotiators, negotiate_token}

abbrev bare_codec : Codec
bare_codec = record {
  base64 = λ s. s;
  unbase64 = λ s. some s;
  md5_hex = λ s. s;
  ntlm_negotiate = none;
  ntlm_authenticate = λ challenge creds. none;
  negotiate = λ round challenge. failed;
}

-- Kerberos answers for every user and realm.
abbrev willing : Negotiators Bytes
willing = record {
  new_client = λ creds target. none;
  next = λ client input. (client, none);
  spnego = λ user realm password. some (text "Negotiate " ++ (user ++ (b'/' ∷ realm)));
}

abbrev session_of : Bytes → NegotiateSession Bytes
session_of username = record {
  creds = record { username = username; password = text "pw" };
  sspi = none;
  done = false;
}

-- The realm of user@REALM is not read.
no_token_for_realm :
    (negotiate_token bare_codec willing (session_of (text "svc@CORP.EXAMPLE.COM")) []).1 ≡ failed
unfolding negotiate_token
no_token_for_realm = refl

-- With a domain in front, the same user gets a token.
with_domain :
    (negotiate_token bare_codec willing (session_of (text "corp\\svc")) []).1
    ≡ token (text "Negotiate svc/CORP") true
unfolding negotiate_token
with_domain = refl
