-- ===== src/ClientAuth.antt =====
-- internal/clientauth: how clients of the proxy authenticate to it. clientauth.go has the handler,
-- the state of a connection and the challenges; the checks of each scheme stand in Verify.antt, and
-- `Authenticate` in Authenticate.antt. The NTLM and SSPI servers, the keyring, the clock and the
-- hash functions are code of other packages: they are the fields of `Env`, and `N` and `S` are the
-- types of the two servers' sessions.
pub mod Verify
pub mod Authenticate
pub mod Methods
pub mod Answers
pub mod Safety
pub mod Sessions
pub mod Connection
pub mod Sspi
pub mod Digest
use px_go.Prelude.{
  ℕ, Bool, true, false, not, ◌&&◌, ◌||◌, List, [], ◌∷◌, ◌++◌, Option, none, some, if◌then◌else◌,
}
use px_go.Strings.{Bytes, text, equal, is_empty, trim_space, to_upper, split, cut}
use px_go.Auth.Session.{Codec, DigestRequest}

-- `State`, one for each connection of a client.
pub record State (N S : Type 0) : Type 0 where
  pub authed : Bool
  pub digest_nonce : Bytes
  pub digest_issued_at : ℕ
  pub ntlm_session : Option N
  pub sspi_server : Option S

-- `&clientauth.State{}`
abbrev pub new_state : {N S : Type 0} → State N S
new_state = record {
  authed = false;
  digest_nonce = [];
  digest_issued_at = 0;
  ntlm_session = none;
  sspi_server = none;
}

pub record Handler : Type 0 where
  pub username : Bytes
  pub password : Bytes
  pub methods : List Bytes
  pub no_sspi : Bool

-- The library code that a request meets, with the clock's readings and the client nonce that the
-- digest check draws. `ntlm_start` is `CreateServerSession`, `SetUserInfo` with a user, a password
-- and a domain, `ProcessNegotiateMessage` and `GenerateChallengeMessage`; `ntlm_finish` is
-- `ParseAuthenticateMessage` and `ProcessAuthenticateMessage`; `sspi_accept` gives the output and
-- the flag `done`, or an error.
pub record Env (N S : Type 0) : Type 0 where
  pub codec : Codec
  pub sha256_hex : Bytes → Bytes
  pub keyring : Bytes → Option Bytes
  pub ntlm_start : Bytes → Bytes → Bytes → Bytes → Option (N × Bytes)
  pub ntlm_finish : N → Bytes → N × Bool
  pub sspi_new : Option S
  pub sspi_accept : S → Bytes → S × Option (Bytes × Bool)
  pub now : ℕ
  pub timestamp : Bytes
  pub unix_time : Bytes
  pub cnonce : Bytes

-- What `Authenticate` reads of a request: the header Proxy-Authorization, the remote address, and
-- what the digest covers.
pub record Request : Type 0 where
  pub authorization : Bytes
  pub remote_addr : Bytes
  pub digest : DigestRequest

abbrev pub with_negotiate : Bool → List Bytes → List Bytes
with_negotiate no_sspi rest = if no_sspi then rest else text "NEGOTIATE" ∷ rest

-- The loop of `expandMethods`
unfoldable pub listed_methods : Bool → List Bytes → List Bytes
listed_methods no_sspi [] = []
listed_methods no_sspi (part ∷ parts) =
    let name = trim_space part in
    let rest = listed_methods no_sspi parts in
    if equal name (text "NEGOTIATE") && no_sspi
    then rest
    else if not (equal name (text "NONE")) && not (is_empty name)
    then name ∷ rest
    else rest

-- The `switch` of `expandMethods`, on the setting in upper case and trimmed.
unfoldable pub methods_of : Bytes → Bool → List Bytes
unfolding listed_methods equal
methods_of raw no_sspi =
    if is_empty raw || equal raw (text "NONE")
    then []
    else if equal raw (text "ANY")
    then with_negotiate no_sspi (text "NTLM" ∷ text "DIGEST" ∷ text "BASIC" ∷ [])
    else if equal raw (text "ANYSAFE")
    then with_negotiate no_sspi (text "NTLM" ∷ text "DIGEST" ∷ [])
    else listed_methods no_sspi (split b',' raw)

unfoldable pub expand_methods : Bytes → Bool → List Bytes
unfolding methods_of
expand_methods raw no_sspi = methods_of (to_upper (trim_space raw)) no_sspi

-- The password of `New`: PX_CLIENT_PASSWORD, or else the keyring's entry.
abbrev stored_password : (Bytes → Option Bytes) → Bytes → Bytes → Bytes
stored_password keyring username [] =
    if is_empty username then [] else (elim (keyring username) [ none ↦ [] | some secret ↦ secret ])
stored_password keyring username (c ∷ s) = c ∷ s

-- `New`, for the variable PX_CLIENT_PASSWORD, the user name, `Auth` and `NoSSPI` of the settings.
unfoldable pub new : (Bytes → Option Bytes) → Bytes → Bytes → Bytes → Bool → Handler
unfolding expand_methods
new keyring variable username auth no_sspi = record {
  username = username;
  password = stored_password keyring username variable;
  methods = expand_methods auth no_sspi;
  no_sspi = no_sspi;
}

abbrev pub enabled : Handler → Bool
enabled h = elim h.methods [ [] ↦ false | _ ∷ _ ↦ true ]

-- `splitUser`: the domain and the user.
unfoldable pub split_user : Bytes → Bytes × Bytes
unfolding cut
split_user username =
    let (before, behind) = cut b'\\' username in
    elim behind [ none ↦ ([], username) | some user ↦ (before, user) ]

-- The challenge of one method, and none for a method that the `switch` does not name.
unfoldable pub challenge_of : Bytes → Bytes → Option Bytes
unfolding equal
challenge_of nonce method =
    if equal method (text "BASIC")
    then some (text "Basic realm=\"PxClient\"")
    else if equal method (text "DIGEST")
    then some (
        text "Digest realm=\"PxClient\", nonce=\""
        ++ (nonce ++ text "\", algorithm=MD5, qop=\"auth\""))
    else if equal method (text "NTLM")
    then some (text "NTLM")
    else if equal method (text "NEGOTIATE")
    then some (text "Negotiate")
    else none

abbrev add_header : Option Bytes → List Bytes → List Bytes
add_header none values = values
add_header (some value) values = value ∷ values

module _ {N S : Type 0} where
  unfoldable pub issue_nonce : Env N S → Bytes → Bytes
  issue_nonce env remote = env.codec.base64 (
      env.unix_time
      ++ (b':' ∷ env.sha256_hex (env.timestamp ++ (b':' ∷ (remote ++ text ":PxClient")))))

  -- The loop of `challenge`: the state, and the values of Proxy-Authenticate.
  unfoldable pub challenge_from : Env N S → Bytes → State N S → List Bytes → State N S × List Bytes
  unfolding issue_nonce challenge_of
  challenge_from env remote s [] = (s, [])
  challenge_from env remote s (method ∷ methods) =
      let nonce = issue_nonce env remote in
      let issued = record s { digest_nonce = nonce; digest_issued_at = env.now } in
      let (after, values) =
        challenge_from env remote (if equal method (text "DIGEST") then issued else s) methods in
      (after, add_header (challenge_of nonce method) values)

  unfoldable pub challenge : Env N S → Handler → Bytes → State N S → State N S × List Bytes
  unfolding challenge_from
  challenge env h remote s = challenge_from env remote s h.methods
