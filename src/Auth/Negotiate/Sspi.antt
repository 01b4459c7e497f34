-- ===== src/Auth/Negotiate/Sspi.antt =====
-- internal/auth/sspi_windows.go: the client that a NEGOTIATE session speaks through, over the
-- functions of Windows in Sspi.antt. `split_host_port` is that of Go's net package, which is `none`
-- for an error.
pub mod Handles
pub mod Identity
pub mod Exchange
use px_go.Prelude.{
  ℕ, ◌%◌, ◌^◌, Bool, true, false, List, [], ◌∷◌, ◌++◌, Option, none, some, ◌==◌, if◌then◌else◌,
  length,
}
use px_go.Strings.{Bytes, text, is_empty}
use px_go.Auth.Session.{Credentials}
use px_go.Auth.Negotiate.{Negotiators, NegotiateSession, parse_user}
use px_go.Sspi.{
  Handle, Wide, uint32, sec_e_ok, sec_i_continue_needed, secpkg_cred_outbound, req_connection,
  max_token_buffer, SecBuffer, sec_buffer, SecWinntAuthIdentity, Reply, Secur32, current,
}

-- `sspiClient`
pub record SspiClient : Type 0 where
  pub cred : Handle
  pub ctx : Handle
  pub target_name : Option Wide
  pub started : Bool

abbrev host_of : Bytes → Option Bytes → Bytes
host_of host none = host
host_of host (some h) = h

-- The name of the service on the host, HTTP/<host>.
unfoldable pub target_name_of : (Bytes → Option Wide) → (Bytes → Option Bytes) → Bytes → Option Wide
target_name_of utf16 split_host_port target =
    if is_empty target
    then none
    else utf16 (text "HTTP/" ++ host_of target (split_host_port target))

-- The fields of `authBuf` for a user, a domain and a password. The lengths are those of the Go
-- strings.
unfoldable pub identity_for :
    (Bytes → Option Wide) → Bytes → Bytes → Bytes → Option SecWinntAuthIdentity
identity_for utf16 user domain password =
    if is_empty user
    then none
    else some (record {
      user = utf16 user;
      user_length = uint32 (length user);
      domain = if is_empty domain then none else utf16 domain;
      domain_length = if is_empty domain then 0 else uint32 (length domain);
      password = utf16 password;
      password_length = uint32 (length password);
      flags = 2;
    })

unfoldable pub identity_of : (Bytes → Option Wide) → Credentials → Option SecWinntAuthIdentity
unfolding identity_for parse_user
identity_of utf16 creds =
    let (user, (domain, _)) = parse_user creds.username in
    if is_empty creds.username then none else identity_for utf16 user domain creds.password

-- The end of `Next`: the client, and the output with the flag that the exchange is complete.
unfoldable pub concluded : SspiClient → Reply → SspiClient × Option (Bytes × Bool)
concluded c r =
    if uint32 r.ret == sec_e_ok
    then (record c { ctx = r.new_ctx; started = true }, some (r.out, true))
    else if uint32 r.ret == sec_i_continue_needed
    then (record c { ctx = r.new_ctx; started = true }, some (r.out, false))
    else (c, none)

module _ {W : Type 0} where
  abbrev pub acquired : Option Wide → W × (ℕ × Handle) → W × Option SspiClient
  acquired target (w, (ret, cred)) = (
    w,
    if uint32 ret == sec_e_ok
        then some (record { cred = cred; ctx = 0; target_name = target; started = false })
        else none,
  )

  -- `newTokenClient` behind the conversion of the package's name.
  unfoldable pub acquire_client :
      Secur32 W
      → (Bytes → Option Bytes)
      → W
      → Option Wide
      → Credentials
      → Bytes
      → W × Option SspiClient
  unfolding target_name_of identity_of
  acquire_client api split_host_port w none creds target = (w, none)
  acquire_client api split_host_port w (some pkg) creds target =
      acquired (target_name_of api.utf16 split_host_port target)
        (api.acquire w pkg secpkg_cred_outbound (identity_of api.utf16 creds))

  -- `newTokenClient`
  unfoldable pub new_token_client :
      Secur32 W → (Bytes → Option Bytes) → W → Bytes → Credentials → Bytes → W × Option SspiClient
  unfolding acquire_client
  new_token_client api split_host_port w pkg creds target =
      acquire_client api split_host_port w (api.utf16 pkg) creds target

  -- `Next`
  unfoldable pub next :
      Secur32 W → W → SspiClient → Bytes → W × (SspiClient × Option (Bytes × Bool))
  unfolding concluded
  next api w c input =
      let (v, r) =
        api.initialize w c.cred (current c.started c.ctx) c.target_name req_connection
          (if is_empty input then none else some (sec_buffer input)) max_token_buffer in
      (v, concluded c r)

  -- `Close`
  unfoldable pub close : Secur32 W → W → SspiClient → W
  close api w c =
      let v = if c.started then api.delete_context w c.ctx else w in api.free_credentials v c.cred

  -- The client that a session begins with.
  abbrev pub first_client : W × Option SspiClient → Option (W × SspiClient)
  first_client (v, none) = none
  first_client (v, some c) = some (v, c)

  -- The client as what a NEGOTIATE session asks for, on a system that is in the state `w`.
  unfoldable pub negotiators :
      Secur32 W
      → (Bytes → Option Bytes)
      → (Bytes → Bytes → Bytes → Option Bytes)
      → W
      → Negotiators (W × SspiClient)
  unfolding new_token_client next
  negotiators api split_host_port spnego w = record {
    new_client = λ creds target.
        first_client (new_token_client api split_host_port w (text "Negotiate") creds target);
    next = λ s input. let (v, (c, out)) = next api s.0 s.1 input in ((v, c), out);
    spnego = spnego;
  }

  -- `NegotiateSession.Close`; without a client nothing is left to free.
  unfoldable pub close_session : Secur32 W → W → NegotiateSession (W × SspiClient) → W
  unfolding close
  close_session api w s = elim s.sspi [ none ↦ w | some (v, c) ↦ close api v c ]
