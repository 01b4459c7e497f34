-- ===== src/Tests/DigestRuns.antt =====
-- The digest check on an answer of the program's own digest session.
use px_go.Prelude.{if◌then◌else◌, inl, inr, Bool-cases, ◌≡◌, refl, true, false, [], ◌∷◌, none, some}
use px_go.Strings.{Bytes, text, equal, contains}
use px_go.Strings.Split.{Avoids}
use px_go.Auth.Params.{is_mark}
use px_go.Auth.Session.{Credentials, Codec, DigestRequest, digest, failed, take_token}
use px_go.ClientAuth.{State, Handler, Env, new_state}
use px_go.ClientAuth.Verify.{header_of, verify_digest}
use px_go.ClientAuth.Digest.{challenge_for, response_to, verify_digest-take_token}

abbrev codec : Codec
codec = record {
  base64 = λ s. s;
  unbase64 = λ s. some s;
  md5_hex = λ s. if contains s (text "c1") then text "d41d" else text "8cd9";
  ntlm_negotiate = none;
  ntlm_authenticate = λ challenge creds. none;
  negotiate = λ n challenge. failed;
}

abbrev env : Env Bytes Bytes
env = record {
  codec = codec;
  sha256_hex = λ s. s;
  keyring = λ user. none;
  ntlm_start = λ user password domain message. none;
  ntlm_finish = λ session message. (session, false);
  sspi_new = none;
  sspi_accept = λ server message. (server, none);
  now = 9;
  timestamp = text "noon";
  unix_time = text "7";
  cnonce = text "c0";
}

abbrev handler : Handler
handler = record {
  username = text "ann";
  password = text "pw";
  methods = text "DIGEST" ∷ [];
  no_sspi = true;
}

abbrev request : DigestRequest
request = record { method = text "GET"; uri = text "/a?b=c" }

abbrev challenged : State Bytes Bytes
challenged = record new_state { digest_nonce = text "n1"; digest_issued_at = 7 }

md5_hash-Avoids : (message : Bytes) → Avoids is_mark (codec.md5_hex message)
md5_hash-Avoids message = elim (Bool-cases (contains message (text "c1"))) [
  | inl t ↦ rw t (refl, (refl, (refl, (refl, tt))))
  | inr t ↦ rw t (refl, (refl, (refl, (refl, tt))))
]

abbrev ann : Credentials
ann = record { username = text "ann"; password = text "pw" }

-- The answer of a client that draws another nonce than verifyDigest.
answer :
    (header : Bytes) × (header_of
        (take_token codec (digest ann 0) request (challenge_for (text "n1")) (text "c1")).1
      ≡ some header)
unfolding take_token
answer = (_, refl)

verify_digest-take_token_example :
    verify_digest env handler request challenged answer.0
    ≡ equal
        (response_to codec ann request (text "n1") (text "c0"))
        (response_to codec ann request (text "n1") (text "c1"))
unfolding px_go.Strings.equal_fold
verify_digest-take_token_example =
    verify_digest-take_token env handler request challenged (text "ann") answer.0 (text "c1")
      md5_hash-Avoids (refl, (refl, (refl, tt))) (refl, (refl, tt))
      (refl, (refl, (refl, (refl, (refl, (refl, tt)))))) (refl, (refl, tt)) (refl, (refl, tt)) refl
      refl refl refl answer.1

-- The right hand side is false: that answer is refused, though it is right.
responses_differ :
    equal
      (response_to codec ann request (text "n1") (text "c0"))
      (response_to codec ann request (text "n1") (text "c1"))
    ≡ false
unfolding px_go.Auth.Session.digest_response equal contains px_go.Dict.lookup
responses_differ = refl
