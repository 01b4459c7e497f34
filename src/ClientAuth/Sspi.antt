-- ===== src/ClientAuth/Sspi.antt =====
-- internal/clientauth/sspi_windows.go: the server of the scheme NEGOTIATE, over the functions of
-- Windows in Sspi.antt, and `CloseState` of clientauth.go.
pub mod Handles
use px_go.Prelude.{ℕ, Bool, true, false, List, [], ◌∷◌, Option, none, some, ◌==◌, if◌then◌else◌}
use px_go.Strings.{Bytes, text, is_empty}
use px_go.ClientAuth.{State}
use px_go.Sspi.{
  Handle, Wide, uint32, sec_e_ok, sec_i_continue_needed, secpkg_cred_inbound, req_connection,
  max_token_buffer, sec_buffer, Reply, Secur32, current,
}

-- `sspiServer`
pub record SspiServer : Type 0 where
  pub cred : Handle
  pub ctx : Handle
  pub started : Bool

-- The end of `Accept`: the server, and the output with the flag `done`. The name of the user is
-- empty in every case.
unfoldable pub concluded : SspiServer → Reply → SspiServer × Option (Bytes × Bool)
concluded s r =
    if uint32 r.ret == sec_e_ok
    then (record s { ctx = r.new_ctx; started = true }, some (r.out, true))
    else if uint32 r.ret == sec_i_continue_needed
    then (record s { ctx = r.new_ctx; started = true }, some (r.out, false))
    else (s, none)

module _ {W : Type 0} where
  abbrev pub acquired : W × (ℕ × Handle) → W × Option SspiServer
  acquired (w, (ret, cred)) = (
    w,
    if uint32 ret == sec_e_ok
        then some (record { cred = cred; ctx = 0; started = false })
        else none,
  )

  unfoldable pub acquire_server : Secur32 W → W → Option Wide → W × Option SspiServer
  acquire_server api w none = (w, none)
  acquire_server api w (some pkg) = acquired (api.acquire w pkg secpkg_cred_inbound none)

  -- `newNegotiateServer`
  unfoldable pub new_negotiate_server : Secur32 W → W → W × Option SspiServer
  unfolding acquire_server
  new_negotiate_server api w = acquire_server api w (api.utf16 (text "Negotiate"))

  -- `Accept`
  unfoldable pub accept :
      Secur32 W → W → SspiServer → Bytes → W × (SspiServer × Option (Bytes × Bool))
  unfolding concluded
  accept api w s input =
      let (v, r) =
        api.accept w s.cred (current s.started s.ctx) (sec_buffer input) req_connection
          max_token_buffer in
      if is_empty input then (w, (s, none)) else (v, concluded s r)

  -- `Close`
  unfoldable pub close : Secur32 W → W → SspiServer → W
  close api w s =
      let v = if s.started then api.delete_context w s.ctx else w in api.free_credentials v s.cred

  -- `CloseState`
  unfoldable pub close_state : {N : Type 0} → Secur32 W → W → State N SspiServer → W
  unfolding close
  close_state api w state = elim state.sspi_server [ none ↦ w | some s ↦ close api w s ]
