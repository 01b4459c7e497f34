-- ===== src/Auth/Negotiate.antt =====
-- internal/auth/auth.go: the credentials, the name of a user, and the session NEGOTIATE. The SSPI
-- client is a parameter, with `C` the type of its states, and so is what Kerberos answers.
pub mod Sspi
use px_go.Prelude.{
  Bool, true, false, not, ◌&&◌, List, [], ◌∷◌, ◌++◌, Option, none, some, if◌then◌else◌,
}
use px_go.Strings.{
  Bytes, text, is_empty, to_upper, trim_space, contains, cut, has_prefix, trim_prefix,
}
use px_go.Auth.Session.{Credentials, Codec, Token, token, failed, decode_challenge}

abbrev pub or_empty : Option Bytes → Bytes
or_empty none = []
or_empty (some v) = v

-- `CredentialsFromConfig`, for the variable PX_PASSWORD and the user name of the settings.
unfoldable pub credentials_from_config : (Bytes → Option Bytes) → Bytes → Bytes → Credentials
credentials_from_config keyring variable username = record {
  username = username;
  password =
      if is_empty variable && not (is_empty username)
      then or_empty (keyring username)
      else variable;
}

-- `parseUser`: the user, the domain, and whether one is needed.
unfoldable pub parse_user : Bytes → Bytes × (Bytes × Bool)
unfolding cut contains
parse_user username =
    let (before, behind) = cut b'\\' username in
    if contains username (text "\\")
    then (or_empty behind, (before, true))
    else if contains username (text "@")
    then (username, ([], false))
    else (username, ([], true))

-- `NegotiateSession`; `sspi` is `none` where no SSPI client could be made.
pub record NegotiateSession (C : Type 0) : Type 0 where
  pub creds : Credentials
  pub sspi : Option C
  pub done : Bool

-- `next` is the method `Next` of the SSPI client: the output and whether it is complete, or an error.
-- `spnego` is what a Kerberos client for a user, a realm and a password, once it is logged in, puts
-- into the header Authorization of a request.
pub record Negotiators (C : Type 0) : Type 0 where
  pub new_client : Credentials → Bytes → Option C
  pub next : C → Bytes → C × Option (Bytes × Bool)
  pub spnego : Bytes → Bytes → Bytes → Option Bytes

-- The value of the header that a Kerberos client sets.
abbrev spnego_token : Option Bytes → Token
spnego_token none = failed
spnego_token (some header) =
    let value = trim_space (trim_prefix header (text "Authorization")) in
    if has_prefix value (text "Negotiate ") then token value true else failed

abbrev pub sspi_input : Codec → Bytes → Option Bytes
sspi_input codec challenge =
    if is_empty (trim_space challenge) then some [] else decode_challenge codec challenge

module _ {C : Type 0} where
  -- `newNegotiateSession`
  unfoldable pub new_negotiate_session : Negotiators C → Credentials → Bytes → NegotiateSession C
  new_negotiate_session services creds target = record {
    creds = creds;
    sspi = services.new_client creds target;
    done = false;
  }

  abbrev pub after_next :
      Codec → NegotiateSession C → C × Option (Bytes × Bool) → NegotiateSession C × Token
  after_next codec s (client, none) = (record s { sspi = some client }, failed)
  after_next codec s (client, some (out, complete)) = (
    record s { sspi = some client; done = complete },
    token (text "Negotiate " ++ codec.base64 out) complete,
  )

  abbrev pub next_token :
      Codec → Negotiators C → NegotiateSession C → C → Option Bytes → NegotiateSession C × Token
  next_token codec services s client none = (s, failed)
  next_token codec services s client (some input) = after_next codec s (services.next client input)

  -- `buildKrbClient` and what follows it; an empty realm is an error.
  unfoldable pub kerberos_token : Negotiators C → Credentials → Token
  unfolding parse_user to_upper trim_space trim_prefix has_prefix
  kerberos_token services creds =
      let (user, (realm, _)) = parse_user creds.username in
      if is_empty realm
      then failed
      else spnego_token (services.spnego user (to_upper realm) creds.password)

  abbrev pub undone_token :
      Codec → Negotiators C → NegotiateSession C → Bytes → Option C → NegotiateSession C × Token
  undone_token codec services s challenge (some client) =
      next_token codec services s client (sspi_input codec challenge)
  undone_token codec services s challenge none = (s, kerberos_token services s.creds)

  -- `NegotiateSession.Token`
  unfoldable pub negotiate_token :
      Codec → Negotiators C → NegotiateSession C → Bytes → NegotiateSession C × Token
  unfolding kerberos_token decode_challenge
  negotiate_token codec services s challenge =
      if s.done then (s, token [] true) else undone_token codec services s challenge s.sspi
