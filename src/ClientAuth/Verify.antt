-- ===== src/ClientAuth/Verify.antt =====
-- internal/clientauth: the checks of basic.go, digest.go and negotiate.go.
use px_go.Prelude.{
  ℕ, ◌*◌, ◌-◌, Bool, true, false, not, ◌||◌, List, [], ◌++◌, Option, none, some, ltb, if◌then◌else◌,
}
use px_go.Strings.{
  Bytes, text, equal, equal_fold, is_empty, trim_space, trim_prefix, has_prefix, cut,
}
use px_go.Auth.Session.{
  Credentials, Token, token, failed, digest, DigestRequest, parse_params, param, take_token,
}
use px_go.ClientAuth.{State, Handler, Env, split_user}

-- The check of the user name that `verifyBasic` and `verifyDigest` share: any name will do if none
-- is configured.
abbrev pub is_user : Handler → Bytes → Bool
is_user h user = is_empty h.username || equal_fold user h.username

-- The result of `verifyNTLM` and `verifyNegotiate`: `ok`, `header`, and whether there is an error.
pub record Verdict : Type 0 where
  pub ok : Bool
  pub header : Bytes
  pub err : Bool

abbrev pub accepted : Verdict
accepted = record { ok = true; header = []; err = false }

abbrev pub refused : Verdict
refused = record { ok = false; header = []; err = true }

abbrev pub continues : Bytes → Verdict
continues header = record { ok = false; header = header; err = false }

abbrev pub five_minutes : ℕ
five_minutes = 5 * 60 * 1000000000

-- The password of a user name that is not configured, in the keyring.
abbrev pub in_keyring : Option Bytes → Bytes → Bool
in_keyring none pass = false
in_keyring (some secret) pass = equal pass secret

-- The header of an answer, without its scheme.
unfoldable pub digest_params : Bytes → List (Bytes × Bytes)
unfolding parse_params
digest_params header = parse_params (trim_space (trim_prefix header (text "Digest")))

abbrev pub header_of : Token → Option Bytes
header_of (token header _) = some header
header_of failed = none

unfoldable pub same_response : Option Bytes → List (Bytes × Bytes) → Bool
same_response none params = false
same_response (some expected) params =
    equal (param (text "response") (digest_params expected)) (param (text "response") params)

module _ {N S : Type 0} where
  -- `usernameFromBasic`: `none` stands for a result that is not `ok`.
  unfoldable pub username_from_basic : Env N S → Bytes → Option (Bytes × Bytes)
  unfolding cut
  username_from_basic env raw = elim (env.codec.unbase64 raw) [
    | none ↦ none
    | some decoded ↦
        let (user, pass) = cut b':' decoded in elim pass [ none ↦ none | some p ↦ some (user, p) ]
  ]

  unfoldable pub basic_user : Env N S → Handler → Bytes → Bytes → Bool
  basic_user env h user pass =
      if is_empty user || not (is_user h user)
      then false
      else if not (is_empty h.username)
      then equal pass h.password
      else in_keyring (env.keyring user) pass

  unfoldable pub verify_basic : Env N S → Handler → Bytes → Bool
  unfolding username_from_basic basic_user
  verify_basic env h raw = elim (username_from_basic env raw) [
    | none ↦ false
    | some (user, pass) ↦ basic_user env h user pass
  ]

  -- What a session of the server's own answers to the challenge of the state; `none` is an error.
  unfoldable pub expected_answer : Env N S → Handler → Bytes → Bytes → DigestRequest → Option Bytes
  unfolding take_token
  expected_answer env h user nonce req =
      let creds : Credentials = record { username = user; password = h.password } in
      let challenge =
        text "realm=\"PxClient\", nonce=\"" ++ (nonce ++ text "\", algorithm=MD5, qop=\"auth\"") in
      header_of (take_token env.codec (digest creds 0) req challenge env.cnonce).1

  unfoldable pub verify_digest : Env N S → Handler → DigestRequest → State N S → Bytes → Bool
  unfolding same_response
  verify_digest env h req s header =
      let params = digest_params header in
      let user = param (text "username") params in
      if is_empty s.digest_nonce || ltb five_minutes (env.now - s.digest_issued_at)
      then false
      else if not (equal (param (text "nonce") params) s.digest_nonce)
      then false
      else if not (is_user h user)
      then false
      else if is_empty h.password
      then false
      else same_response (expected_answer env h user s.digest_nonce req) params

  -- The second message of the client.
  unfoldable pub ntlm_finished : Env N S → State N S → N → Bytes → State N S × Verdict
  ntlm_finished env s session message =
      let (after, ok) = env.ntlm_finish session message in
      (record s { ntlm_session = some after }, if ok then accepted else refused)

  -- The first message of the client.
  unfoldable pub ntlm_started : Env N S → State N S → Option (N × Bytes) → State N S × Verdict
  ntlm_started env s none = (s, refused)
  ntlm_started env s (some (session, message)) = (
    record s { ntlm_session = some session },
    continues (text "NTLM " ++ env.codec.base64 message),
  )

  unfoldable pub ntlm_message :
      Env N S → Handler → State N S → Option N → Option Bytes → State N S × Verdict
  unfolding ntlm_started ntlm_finished split_user
  ntlm_message env h s session none = (s, refused)
  ntlm_message env h s none (some message) =
      let (domain, user) = split_user h.username in
      ntlm_started env s (env.ntlm_start user h.password domain message)
  ntlm_message env h s (some session) (some message) = ntlm_finished env s session message

  unfoldable pub verify_ntlm : Env N S → Handler → Bytes → State N S → State N S × Verdict
  unfolding ntlm_message
  verify_ntlm env h payload s =
      if is_empty h.username || is_empty h.password
      then (s, refused)
      else ntlm_message env h s s.ntlm_session (env.codec.unbase64 payload)

  unfoldable pub sspi_answered :
      Env N S → State N S → S → Option (Bytes × Bool) → State N S × Verdict
  sspi_answered env s server none = (record s { sspi_server = some server }, refused)
  sspi_answered env s server (some (out, true)) = (record s { sspi_server = some server }, accepted)
  sspi_answered env s server (some (out, false)) = (
    record s { sspi_server = some server },
    continues (text "Negotiate " ++ env.codec.base64 out),
  )

  -- What the SSPI server makes of a message; `none` is a payload that is no base64.
  unfoldable pub sspi_message : Env N S → State N S → S → Option Bytes → State N S × Verdict
  unfolding sspi_answered
  sspi_message env s server none = (record s { sspi_server = some server }, refused)
  sspi_message env s server (some message) =
      let (after, answer) = env.sspi_accept server message in sspi_answered env s after answer

  -- The server of the state, or else a new one.
  abbrev pub sspi_of : Env N S → Option S → Option S
  sspi_of env none = env.sspi_new
  sspi_of env (some server) = some server

  unfoldable pub verify_negotiate : Env N S → Handler → Bytes → State N S → State N S × Verdict
  unfolding verify_ntlm sspi_message
  verify_negotiate env h payload s =
      if has_prefix payload (text "TlRMTVNTUA")
      then verify_ntlm env h payload s
      else if h.no_sspi
      then (s, refused)
      else (elim (sspi_of env s.sspi_server) [
        | none ↦ (s, refused)
        | some server ↦ sspi_message env s server (env.codec.unbase64 payload)
      ])
