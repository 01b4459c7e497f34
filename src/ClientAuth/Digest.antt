-- ===== src/ClientAuth/Digest.antt =====
-- The digest check of internal/clientauth/digest.go against the answers of the digest session of
-- internal/auth/digest.go.
use mathlib.Core.List.{append_assoc}
use mathlib.Core.Option.{some-injective}
use px_go.Prelude.{◌-◌, ◌≡◌, refl, sym, ◌∙◌, ap, true, false, List, [], ◌∷◌, ◌++◌, some, ltb, All}
use px_go.Strings.{
  Bytes, text, is_empty, is_space, trim_space, trim_prefix, strip_prefix, equal, to_lower, split,
}
use px_go.Strings.Laws.{equal_refl}
use px_go.Strings.Split.{Avoids}
use px_go.Dict.{lookup, insert}
use px_go.Auth.Session.{
  Credentials, Codec, digest, DigestRequest, parse_params, parse_digest_challenge, param,
  join_params, digest_header, digest_response, format_nc, take_token,
}
use px_go.Auth.Params.{
  Param, IsParam, is_mark, insert_all, prints, make_IsKey, is_key, parse_params-join_params,
  trim_space-join_params, trim_space-spaced,
}
use px_go.ClientAuth.{State, Handler, Env}
use px_go.ClientAuth.Verify.{
  is_user, five_minutes, digest_params, header_of, same_response, expected_answer, verify_digest,
}

-- The challenge that `verifyDigest` answers itself.
abbrev pub challenge_for : Bytes → Bytes
challenge_for nonce =
    text "realm=\"PxClient\", nonce=\"" ++ (nonce ++ text "\", algorithm=MD5, qop=\"auth\"")

abbrev quoted : Bytes → Bytes → Param
quoted key value = record { key = key; value = value; is_quoted = true }

abbrev bare : Bytes → Bytes → Param
bare key value = record { key = key; value = value; is_quoted = false }

abbrev challenge_params : Bytes → List Param
challenge_params nonce =
    quoted (text "nonce") nonce
    ∷ bare (text "algorithm") (text "MD5")
    ∷ quoted (text "qop") (text "auth")
    ∷ []

challenge_for-join_params :
    (nonce : Bytes)
    → challenge_for nonce
      ≡ join_params (prints (quoted (text "realm") (text "PxClient") ∷ challenge_params nonce))
unfolding join_params
challenge_for-join_params nonce =
    ap (λ t. text "realm=\"PxClient\", nonce=\"" ++ t)
      (sym (append_assoc nonce (text "\"") (text ", algorithm=MD5, qop=\"auth\"")))

quoted-IsParam :
    (key value : Bytes)
    → is_key key ≡ true
    → to_lower key ≡ key
    → Avoids is_mark value
    → IsParam (quoted key value)
quoted-IsParam key value h small v = (make_IsKey key h small, (v, λ e. cc e))

bare-IsParam :
    (key value : Bytes)
    → is_key key ≡ true
    → to_lower key ≡ key
    → Avoids is_mark value
    → Avoids is_space value
    → IsParam (bare key value)
bare-IsParam key value h small v spaces = (make_IsKey key h small, (v, λ e. spaces))

-- The parameters with a fixed value.
realm-IsParam : IsParam (quoted (text "realm") (text "PxClient"))
unfolding is_space to_lower
realm-IsParam =
    quoted-IsParam (text "realm") (text "PxClient") refl refl
      (refl, (refl, (refl, (refl, (refl, (refl, (refl, (refl, tt))))))))

algorithm-IsParam : IsParam (bare (text "algorithm") (text "MD5"))
unfolding is_space to_lower
algorithm-IsParam =
    bare-IsParam (text "algorithm") (text "MD5") refl refl (refl, (refl, (refl, tt)))
      (refl, (refl, (refl, tt)))

nonce-IsParam : (nonce : Bytes) → Avoids is_mark nonce → IsParam (quoted (text "nonce") nonce)
unfolding is_space to_lower
nonce-IsParam nonce h = quoted-IsParam _ _ refl refl h

challenge-IsParam : (nonce : Bytes) → Avoids is_mark nonce → All IsParam (challenge_params nonce)
unfolding is_space to_lower
challenge-IsParam nonce h =
    let qop =
      quoted-IsParam (text "qop") (text "auth") refl refl (refl, (refl, (refl, (refl, tt)))) in
    (nonce-IsParam nonce h, (algorithm-IsParam, (qop, tt)))

-- What a client reads of the challenge.
abbrev read_params : Bytes → List (Bytes × Bytes)
read_params nonce =
    (text "realm", text "PxClient")
    ∷ (text "nonce", nonce)
    ∷ (text "algorithm", text "MD5")
    ∷ (text "qop", text "auth")
    ∷ []

parse_digest_challenge-challenge_for :
    (nonce : Bytes)
    → Avoids is_mark nonce
    → parse_digest_challenge (challenge_for nonce) ≡ read_params nonce
unfolding parse_digest_challenge trim_prefix strip_prefix insert equal join_params is_space
parse_digest_challenge-challenge_for nonce h =
    let p = quoted (text "realm") (text "PxClient") in
    ap (λ t. parse_params (trim_space t)) (challenge_for-join_params nonce)
    ∙ ap parse_params (trim_space-join_params p (challenge_params nonce) refl refl)
    ∙ parse_params-join_params p (challenge_params nonce) realm-IsParam (challenge-IsParam nonce h)

-- The parameters of an answer behind the first one, which is the user name.
abbrev answer_params : Bytes → Bytes → Bytes → Bytes → List Param
answer_params nonce uri response cnonce =
    quoted (text "realm") (text "PxClient")
    ∷ quoted (text "nonce") nonce
    ∷ quoted (text "uri") uri
    ∷ quoted (text "response") response
    ∷ bare (text "algorithm") (text "MD5")
    ∷ bare (text "qop") (text "auth")
    ∷ bare (text "nc") (text "00000001")
    ∷ quoted (text "cnonce") cnonce
    ∷ []

module _ (codec : Codec) (creds : Credentials) (req : DigestRequest) where
  -- The response of an answer to the challenge.
  abbrev pub response_to : Bytes → Bytes → Bytes
  response_to nonce cnonce =
      digest_response codec creds req (read_params nonce) (text "00000001") cnonce

  abbrev answer_to : Bytes → Bytes → List Param
  answer_to nonce cnonce = answer_params nonce req.uri (response_to nonce cnonce) cnonce

  take_token-answer_to :
      (nonce cnonce : Bytes)
      → Avoids is_mark nonce
      → header_of (take_token codec (digest creds 0) req (challenge_for nonce) cnonce).1
        ≡ some (
            text "Digest "
            ++ join_params
                (prints (quoted (text "username") creds.username ∷ answer_to nonce cnonce)))
  unfolding take_token digest_header param lookup equal join_params format_nc split trim_space
  take_token-answer_to nonce cnonce h =
      ap (λ ps. some (digest_header codec creds req ps (format_nc 1) cnonce))
        (parse_digest_challenge-challenge_for nonce h)

  response_param :
      (nonce cnonce : Bytes)
      → let params =
          insert_all [] (quoted (text "username") creds.username ∷ answer_to nonce cnonce) in
        (param (text "username") params ≡ creds.username)
        × ((param (text "nonce") params ≡ nonce)
            × (param (text "response") params ≡ response_to nonce cnonce))
  unfolding param lookup insert equal
  response_param nonce cnonce = (refl, (refl, refl))

  answer-IsParam :
      (nonce cnonce : Bytes)
      → Avoids is_mark nonce
      → Avoids is_mark req.uri
      → Avoids is_mark (response_to nonce cnonce)
      → Avoids is_mark cnonce
      → All IsParam (answer_to nonce cnonce)
  unfolding is_space to_lower
  answer-IsParam nonce cnonce hn hi hr hc =
      let four : Avoids is_mark (text "auth") = (refl, (refl, (refl, (refl, tt)))) in
      let auth =
        bare-IsParam (text "qop") (text "auth") refl refl four (refl, (refl, (refl, (refl, tt)))) in
      let first =
        bare-IsParam (text "nc") (text "00000001") refl refl
          (refl, (refl, (refl, (refl, (refl, (refl, (refl, (refl, tt))))))))
          (refl, (refl, (refl, (refl, (refl, (refl, (refl, (refl, tt)))))))) in
      let client = quoted-IsParam (text "cnonce") cnonce refl refl hc in
      let uri = quoted-IsParam (text "uri") req.uri refl refl hi in
      let response = quoted-IsParam (text "response") _ refl refl hr in
      (
        realm-IsParam,
        (
          nonce-IsParam nonce hn,
          (uri, (response, (algorithm-IsParam, (auth, (first, (client, tt)))))),
        ),
      )

  -- What the server reads of the answer.
  digest_params-answer_to :
      (nonce cnonce : Bytes)
      → Avoids is_mark creds.username
      → Avoids is_mark nonce
      → Avoids is_mark req.uri
      → Avoids is_mark (response_to nonce cnonce)
      → Avoids is_mark cnonce
      → digest_params (
          text "Digest "
          ++ join_params
              (prints (quoted (text "username") creds.username ∷ answer_to nonce cnonce)))
        ≡ insert_all [] (quoted (text "username") creds.username ∷ answer_to nonce cnonce)
  unfolding digest_params trim_prefix strip_prefix join_params is_space to_lower
  digest_params-answer_to nonce cnonce hu hn hi hr hc =
      let p = quoted (text "username") creds.username in
      let ps = answer_to nonce cnonce in
      let first = quoted-IsParam (text "username") creds.username refl refl hu in
      let rest = answer-IsParam nonce cnonce hn hi hr hc in
      ap parse_params (trim_space-spaced (join_params (prints (p ∷ ps))))
      ∙ ap parse_params (trim_space-join_params p ps refl refl)
      ∙ parse_params-join_params p ps first rest

module _ {N S : Type 0} (env : Env N S) (h : Handler) (req : DigestRequest) (s : State N S) where
  -- The response of an answer is compared with that of verifyDigest's own session.
  same_response-answer_to :
      (creds : Credentials) (header cnonce : Bytes)
      → Avoids is_mark creds.username
      → Avoids is_mark s.digest_nonce
      → Avoids is_mark req.uri
      → Avoids is_mark (response_to env.codec creds req s.digest_nonce cnonce)
      → Avoids is_mark cnonce
      → same_response
          (header_of
            (take_token env.codec (digest creds 0) req (challenge_for s.digest_nonce) cnonce).1)
          (digest_params header)
        ≡ equal
            (response_to env.codec creds req s.digest_nonce cnonce)
            (param (text "response") (digest_params header))
  unfolding same_response
  same_response-answer_to creds header cnonce hu hn hi hr hc =
      let (_, (_, response)) = response_param env.codec creds req s.digest_nonce cnonce in
      ap (λ o. same_response o (digest_params header))
        (take_token-answer_to env.codec creds req s.digest_nonce cnonce hn)
      ∙ ap (λ t. equal t (param (text "response") (digest_params header)))
          (ap (param (text "response"))
              (digest_params-answer_to env.codec creds req s.digest_nonce cnonce hu hn hi hr hc)
            ∙ response)

  -- An answer that passes the checks in front is accepted as its response is the expected one.
  verify_digest-checks :
      (header user : Bytes)
      → is_empty s.digest_nonce ≡ false
      → ltb five_minutes (env.now - s.digest_issued_at) ≡ false
      → param (text "nonce") (digest_params header) ≡ s.digest_nonce
      → param (text "username") (digest_params header) ≡ user
      → is_user h user ≡ true
      → is_empty h.password ≡ false
      → verify_digest env h req s header
        ≡ same_response (expected_answer env h user s.digest_nonce req) (digest_params header)
  unfolding verify_digest
  verify_digest-checks header user issued fresh nonce name known secret =
      simp (issued, fresh, nonce, equal_refl s.digest_nonce, name, known, secret)

  -- While the nonce of the state is there and not older than five minutes, verifyDigest reads the
  -- answer that a digest session with a user that the handler knows and the handler's password, which
  -- is not empty, writes to the challenge with that nonce, and accepts it exactly if its response is
  -- the one for the client nonce that verifyDigest draws itself, whichever client nonce the session drew
  -- and sent; where no comma or quote stands in the user, the nonces, the URI and the hashes of MD5.
  pub verify_digest-take_token :
      (user header cnonce : Bytes)
      → ((message : Bytes) → Avoids is_mark (env.codec.md5_hex message))
      → Avoids is_mark user
      → Avoids is_mark s.digest_nonce
      → Avoids is_mark req.uri
      → Avoids is_mark env.cnonce
      → Avoids is_mark cnonce
      → is_empty s.digest_nonce ≡ false
      → ltb five_minutes (env.now - s.digest_issued_at) ≡ false
      → is_user h user ≡ true
      → is_empty h.password ≡ false
      → header_of
          (take_token env.codec
            (digest (record { username = user; password = h.password }) 0)
            req
            (challenge_for s.digest_nonce)
            cnonce).1
        ≡ some header
      → let creds : Credentials = record { username = user; password = h.password } in
        verify_digest env h req s header
        ≡ equal
            (response_to env.codec creds req s.digest_nonce env.cnonce)
            (response_to env.codec creds req s.digest_nonce cnonce)
  unfolding expected_answer digest_response param lookup equal
  verify_digest-take_token user header cnonce hex hu hn hi he hc issued fresh known secret
        answered =
      let creds : Credentials = record { username = user; password = h.password } in
      let read =
        ap digest_params (
          some-injective _ _
            (sym answered ∙ take_token-answer_to env.codec creds req s.digest_nonce cnonce hn))
        ∙ digest_params-answer_to env.codec creds req s.digest_nonce cnonce hu hn hi (hex _) hc in
      let (name, (nonce, response)) = response_param env.codec creds req s.digest_nonce cnonce in
      verify_digest-checks header user issued fresh (ap (param (text "nonce")) read ∙ nonce)
        (ap (param (text "username")) read ∙ name) known secret
      ∙ same_response-answer_to creds header env.cnonce hu hn hi (hex _) he
      ∙ ap (equal (response_to env.codec creds req s.digest_nonce env.cnonce))
          (ap (param (text "response")) read ∙ response)
