-- ===== src/Auth/Session.antt =====
-- The sessions of internal/auth that answer a proxy's challenges: BasicSession (basic.go),
-- NTLMSession (ntlm.go) and DigestSession (digest.go), with `NewSession` and `decodeChallenge`
-- of auth.go. Base64, MD5 and the NTLM messages are code of other packages: they are the fields of
-- `Codec`, and so is the session of the scheme NEGOTIATE, which runs SSPI or Kerberos.
use px_go.Prelude.{
  ℕ, zero, suc, ◌+◌, ◌/◌, ◌%◌, ltb, Bool, true, false, List, [], ◌∷◌, ◌++◌, Option, none, some,
  ◌==◌, if◌then◌else◌,
}
use px_go.Strings.{
  Bytes, text, equal, is_empty, trim_space, trim_both, to_upper, to_lower, trim_prefix, split, cut,
}
use px_go.Dict.{lookup, insert}

pub record Credentials : Type 0 where
  pub username : Bytes
  pub password : Bytes

-- A header with the flag `done`, or an error; the session's new state stands beside it.
pub data Token : Type 0 where
  token : Bytes → Bool → Token
  failed : Token

-- What the sessions call in other packages. `authenticate` takes the server's message.
pub record Codec : Type 0 where
  pub base64 : Bytes → Bytes
  pub unbase64 : Bytes → Option Bytes
  pub md5_hex : Bytes → Bytes
  pub ntlm_negotiate : Option Bytes
  pub ntlm_authenticate : Bytes → Credentials → Option Bytes
  pub negotiate : ℕ → Bytes → Token

pub data Session : Type 0 where
  basic : Credentials → Session
  -- The counter is `nc`.
  digest : Credentials → ℕ → Session
  -- The number is `stage`.
  ntlm : Credentials → ℕ → Session
  -- The number of challenges answered so far.
  negotiate : ℕ → Session

unfoldable pub scheme_of : Session → Bytes
scheme_of (basic _) = text "BASIC"
scheme_of (digest _ _) = text "DIGEST"
scheme_of (ntlm _ _) = text "NTLM"
scheme_of (negotiate _) = text "NEGOTIATE"

unfoldable pub new_session : Credentials → Bytes → Option Session
new_session creds scheme =
    let name = to_upper (trim_space scheme) in
    if equal name (text "BASIC")
    then some (basic creds)
    else if equal name (text "DIGEST")
    then some (digest creds 0)
    else if equal name (text "NTLM")
    then some (ntlm creds 0)
    else if equal name (text "NEGOTIATE")
    then some (negotiate 0)
    else none

-- `decodeChallenge`: `none` is its error.
unfoldable pub decode_challenge : Codec → Bytes → Option Bytes
decode_challenge codec challenge =
    if is_empty (trim_space challenge) then none else codec.unbase64 (trim_space challenge)

abbrev pub prefixed : Codec → Bytes → Option Bytes → Bool → Token
prefixed codec name none finished = failed
prefixed codec name (some msg) finished = token (name ++ codec.base64 msg) finished

basic_token : Codec → Credentials → Token
basic_token codec creds =
    if is_empty creds.username
    then failed
    else token (text "Basic " ++ codec.base64 (creds.username ++ (b':' ∷ creds.password))) true

-- The stage after a message: it changes only when the message was built.
abbrev stage_after : ℕ → ℕ → Option Bytes → ℕ
stage_after before after none = before
stage_after before after (some _) = after

abbrev authenticate : Codec → Credentials → Option Bytes → Option Bytes
authenticate codec creds none = none
authenticate codec creds (some msg) = codec.ntlm_authenticate msg creds

ntlm_token : Codec → Credentials → ℕ → Bytes → Session × Token
unfolding decode_challenge
ntlm_token codec creds zero challenge =
    let msg = codec.ntlm_negotiate in
    (ntlm creds (stage_after 0 1 msg), prefixed codec (text "NTLM ") msg false)
ntlm_token codec creds (suc zero) challenge =
    let msg = authenticate codec creds (decode_challenge codec challenge) in
    (ntlm creds (stage_after 1 2 msg), prefixed codec (text "NTLM ") msg true)
ntlm_token codec creds stage challenge = (ntlm creds stage, token [] true)

-- `parseDigestChallenge` without its first line, and `parseAuthHeader` of internal/clientauth:
-- the map of the parameters; a part with no `=` is left out.
abbrev pub with_param : List (Bytes × Bytes) → Bytes × Option Bytes → List (Bytes × Bytes)
with_param out (k, none) = out
with_param out (k, some v) =
    insert (to_lower (trim_space k)) (trim_both (λ c. c == b'"') (trim_space v)) out

unfoldable pub parse_params_from : List (Bytes × Bytes) → List Bytes → List (Bytes × Bytes)
parse_params_from out [] = out
parse_params_from out (part ∷ parts) =
    parse_params_from (with_param out (cut b'=' (trim_space part))) parts

unfoldable pub parse_params : Bytes → List (Bytes × Bytes)
unfolding parse_params_from
parse_params header = parse_params_from [] (split b',' header)

unfoldable pub parse_digest_challenge : Bytes → List (Bytes × Bytes)
unfolding parse_params
parse_digest_challenge challenge = parse_params (trim_space (trim_prefix challenge (text "Digest")))

-- `params[key]`, which is empty for a missing key.
unfoldable pub param : Bytes → List (Bytes × Bytes) → Bytes
param key params = elim (lookup key params) [ none ↦ [] | some v ↦ v ]

-- The request as the digest sees it: its method and `RequestURI`.
pub record DigestRequest : Type 0 where
  pub method : Bytes
  pub uri : Bytes

abbrev colon : Bytes → Bytes → Bytes
colon a b = a ++ (b':' ∷ b)

unfoldable pub digest_ha1 : Codec → Credentials → Bytes → Bytes
digest_ha1 codec creds realm = codec.md5_hex (colon creds.username (colon realm creds.password))

unfoldable pub digest_ha2 : Codec → DigestRequest → Bytes
digest_ha2 codec req = codec.md5_hex (colon req.method req.uri)

-- The value of `response`, for the counter and the nonces as texts.
unfoldable pub digest_response :
    Codec → Credentials → DigestRequest → List (Bytes × Bytes) → Bytes → Bytes → Bytes
unfolding digest_ha1 digest_ha2 param
digest_response codec creds req params nc cnonce =
    let ha1 = digest_ha1 codec creds (param (text "realm") params) in
    let ha2 = digest_ha2 codec req in
    let nonce = param (text "nonce") params in
    if is_empty (param (text "qop") params)
    then codec.md5_hex (colon ha1 (colon nonce ha2))
    else codec.md5_hex (colon ha1 (colon nonce (colon nc (colon cnonce (colon (text "auth") ha2)))))

abbrev quoted : Bytes → Bytes → Bytes
quoted key value = key ++ (text "=\"" ++ (value ++ text "\""))

-- `strings.Join(parts, ", ")`
unfoldable pub join_params : List Bytes → Bytes
join_params [] = []
join_params (w ∷ []) = w
join_params (w ∷ v ∷ ws) = w ++ (text ", " ++ join_params (v ∷ ws))

abbrev or_md5 : Bytes → Bytes
or_md5 [] = text "MD5"
or_md5 (c ∷ s) = c ∷ s

abbrev first_part : List Bytes → Bytes
first_part [] = []
first_part (w ∷ ws) = trim_space w

unfoldable pub digest_header :
    Codec → Credentials → DigestRequest → List (Bytes × Bytes) → Bytes → Bytes → Bytes
unfolding digest_response join_params param
digest_header codec creds req params nc cnonce =
    let opaque = param (text "opaque") params in
    let qop = param (text "qop") params in
    text "Digest "
    ++ join_params (
        quoted (text "username") creds.username
        ∷ quoted (text "realm") (param (text "realm") params)
        ∷ quoted (text "nonce") (param (text "nonce") params)
        ∷ quoted (text "uri") req.uri
        ∷ quoted (text "response") (digest_response codec creds req params nc cnonce)
        ∷ (text "algorithm=" ++ or_md5 (param (text "algorithm") params))
        ∷ ((if is_empty opaque then [] else quoted (text "opaque") opaque ∷ [])
            ++ (if is_empty qop
                then []
                else (text "qop=" ++ first_part (split b',' qop))
                  ∷ (text "nc=" ++ nc)
                  ∷ quoted (text "cnonce") cnonce
                  ∷ [])))

abbrev hex_digit : ℕ → ℕ
hex_digit d = if ltb d 10 then 48 + d else 87 + d

-- The last `k` hexadecimal digits of a number: `%08x` for a number below 2^32.
hex_digits : ℕ → ℕ → Bytes
hex_digits zero n = []
hex_digits (suc k) n = hex_digits k (n / 16) ++ (hex_digit (n % 16) ∷ [])

unfoldable pub format_nc : ℕ → Bytes
unfolding hex_digits
format_nc n = hex_digits 8 n

-- `Session.Token`. The last argument is the client nonce that `randomHex` draws.
unfoldable pub take_token : Codec → Session → DigestRequest → Bytes → Bytes → Session × Token
unfolding basic_token ntlm_token digest_header parse_digest_challenge format_nc
take_token codec (basic creds) req challenge cnonce = (basic creds, basic_token codec creds)
take_token codec (digest creds nc) req challenge cnonce = (
  digest creds (nc + 1),
  token
      (digest_header codec creds req (parse_digest_challenge challenge) (format_nc (nc + 1)) cnonce)
      true,
)
take_token codec (ntlm creds stage) req challenge cnonce = ntlm_token codec creds stage challenge
take_token codec (negotiate n) req challenge cnonce =
    (negotiate (n + 1), codec.negotiate n challenge)
