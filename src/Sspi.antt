-- ===== src/Sspi.antt =====
-- What internal/auth/sspi_windows.go and internal/clientauth/sspi_windows.go take from Windows: the
-- functions of secur32.dll and the conversion to UTF-16, as parameters over a state `W` of the
-- system, with the constants and the structures that they are called with. A handle is one number.
pub mod Handles
use px_go.Prelude.{ℕ, ◌%◌, ◌^◌, Bool, true, false, List, Option, none, some, ◌==◌, ◌||◌, length}
use px_go.Strings.{Bytes}

abbrev pub Handle : Type 0
Handle = ℕ

-- The units of a text in UTF-16, without the closing zero.
abbrev pub Wide : Type 0
Wide = List ℕ

-- `uint32(n)`
abbrev pub uint32 : ℕ → ℕ
uint32 n = n % 2 ^ 32

abbrev pub sec_e_ok : ℕ
sec_e_ok = 0

abbrev pub sec_i_continue_needed : ℕ
sec_i_continue_needed = 590610

abbrev pub secpkg_cred_inbound : ℕ
secpkg_cred_inbound = 1

abbrev pub secpkg_cred_outbound : ℕ
secpkg_cred_outbound = 2

-- `iscReqConnection` and `ascReqConnection`
abbrev pub req_connection : ℕ
req_connection = 2048

abbrev pub max_token_buffer : ℕ
max_token_buffer = 12288

-- `secBuffer`, with the bytes that `pvBuffer` points to.
pub record SecBuffer : Type 0 where
  pub cb_buffer : ℕ
  pub pv_buffer : Bytes

abbrev pub sec_buffer : Bytes → SecBuffer
sec_buffer s = record { cb_buffer = uint32 (length s); pv_buffer = s }

-- `secWinntAuthIdentity`; `none` is the null pointer.
pub record SecWinntAuthIdentity : Type 0 where
  pub user : Option Wide
  pub user_length : ℕ
  pub domain : Option Wide
  pub domain_length : ℕ
  pub password : Option Wide
  pub password_length : ℕ
  pub flags : ℕ

-- What a call of InitializeSecurityContextW or AcceptSecurityContext leaves: its value, the new
-- context, and the first `cbBuffer` bytes of the output buffer.
pub record Reply : Type 0 where
  pub ret : ℕ
  pub new_ctx : Handle
  pub out : Bytes

-- `acquire` takes the package, the use and the identity, and gives its value and the credentials'
-- handle. `initialize` takes the credentials, the context, the target, the flags, the input and the
-- length of the output buffer; `accept` the same but for the target.
pub record Secur32 (W : Type 0) : Type 0 where
  pub utf16 : Bytes → Option Wide
  pub acquire : W → Wide → ℕ → Option SecWinntAuthIdentity → W × (ℕ × Handle)
  pub initialize : W → Handle → Option Handle → Option Wide → ℕ → Option SecBuffer → ℕ → W × Reply
  pub accept : W → Handle → Option Handle → SecBuffer → ℕ → ℕ → W × Reply
  pub delete_context : W → Handle → W
  pub free_credentials : W → Handle → W

abbrev sec_i_complete_needed : ℕ
sec_i_complete_needed = 590611

abbrev sec_i_complete_and_continue : ℕ
sec_i_complete_and_continue = 590612

-- Whether a value is one of the two successes after which CompleteAuthToken is to be called. The
-- callers take them for failures.
abbrev pub completes : ℕ → Bool
completes ret = uint32 ret == sec_i_complete_needed || uint32 ret == sec_i_complete_and_continue

-- Whether a value is one of the two successes that the callers know.
abbrev pub succeeds : ℕ → Bool
succeeds ret = uint32 ret == sec_e_ok || uint32 ret == sec_i_continue_needed

-- The context argument of a call, `&c.ctx` or 0.
abbrev pub current : Bool → Handle → Option Handle
current true ctx = some ctx
current false ctx = none
