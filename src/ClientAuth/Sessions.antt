-- ===== src/ClientAuth/Sessions.antt =====
-- What the NTLM and SSPI checks of internal/clientauth change in the state of a connection.
use px_go.Prelude.{
  ◌≡◌, inl, inr, refl, Bool, true, false, ◌||◌, Option, none, some, arith, Bool-cases,
}
use px_go.Strings.{Bytes, text, is_empty, has_prefix}
use px_go.ClientAuth.{State, Handler, Env}
use px_go.ClientAuth.Verify.{
  Verdict, ntlm_message, ntlm_started, ntlm_finished, verify_ntlm, sspi_of, sspi_message,
  sspi_answered, verify_negotiate,
}

module _ {N S : Type 0} where
  -- A check changes the servers' sessions only, and reports no error with a header.
  abbrev pub Keeps : State N S → State N S × Verdict → Type 0
  Keeps s (after, v) = (after.authed ≡ s.authed) × (is_empty v.header ≡ false → v.err ≡ false)

  ntlm_started-Keeps :
      (env : Env N S) (s : State N S) (started : Option (N × Bytes))
      → Keeps s (ntlm_started env s started)
  unfolding ntlm_started
  ntlm_started-Keeps env s none = (refl, λ e. cc e)
  ntlm_started-Keeps env s (some (session, message)) = (refl, λ e. refl)

  ntlm_finished-Keeps :
      (env : Env N S) (s : State N S) (session : N) (message : Bytes)
      → Keeps s (ntlm_finished env s session message)
  unfolding ntlm_finished
  ntlm_finished-Keeps env s session message = (refl, λ e. ground arith)

  ntlm_message-Keeps :
      (env : Env N S) (h : Handler) (s : State N S) (session : Option N) (message : Option Bytes)
      → Keeps s (ntlm_message env h s session message)
  unfolding ntlm_message
  ntlm_message-Keeps env h s session none = (refl, λ e. cc e)
  ntlm_message-Keeps env h s none (some message) = ntlm_started-Keeps env s _
  ntlm_message-Keeps env h s (some session) (some message) =
      ntlm_finished-Keeps env s session message

  pub verify_ntlm-Keeps :
      (env : Env N S) (h : Handler) (payload : Bytes) (s : State N S)
      → Keeps s (verify_ntlm env h payload s)
  unfolding verify_ntlm
  verify_ntlm-Keeps env h payload s =
      elim (Bool-cases (is_empty h.username || is_empty h.password)) [
        | inl t ↦ rw t (refl, λ e. cc e)
        | inr t ↦ rw t (ntlm_message-Keeps env h s s.ntlm_session (env.codec.unbase64 payload))
      ]

  sspi_answered-Keeps :
      (env : Env N S) (s : State N S) (server : S) (answer : Option (Bytes × Bool))
      → Keeps s (sspi_answered env s server answer)
  unfolding sspi_answered
  sspi_answered-Keeps env s server none = (refl, λ e. cc e)
  sspi_answered-Keeps env s server (some (out, true)) = (refl, λ e. refl)
  sspi_answered-Keeps env s server (some (out, false)) = (refl, λ e. refl)

  sspi_message-Keeps :
      (env : Env N S) (s : State N S) (server : S) (message : Option Bytes)
      → Keeps s (sspi_message env s server message)
  unfolding sspi_message
  sspi_message-Keeps env s server none = (refl, λ e. cc e)
  sspi_message-Keeps env s server (some message) = sspi_answered-Keeps env s _ _

  negotiate_sspi-Keeps :
      (env : Env N S) (h : Handler) (payload : Bytes) (s : State N S)
      → has_prefix payload (text "TlRMTVNTUA") ≡ false
      → (server : Option S) → sspi_of env s.sspi_server ≡ server
      → Keeps s (verify_negotiate env h payload s)
  unfolding verify_negotiate
  negotiate_sspi-Keeps env h payload s other none e = elim (Bool-cases h.no_sspi) [
    | inl t ↦ rw (other, t) (refl, λ e. cc e)
    | inr t ↦ rw (other, t, e) (refl, λ e. cc e)
  ]
  negotiate_sspi-Keeps env h payload s other (some server) e = elim (Bool-cases h.no_sspi) [
    | inl t ↦ rw (other, t) (refl, λ e. cc e)
    | inr t ↦ rw (other, t, e) (sspi_message-Keeps env s server (env.codec.unbase64 payload))
  ]

  pub verify_negotiate-Keeps :
      (env : Env N S) (h : Handler) (payload : Bytes) (s : State N S)
      → Keeps s (verify_negotiate env h payload s)
  unfolding verify_negotiate
  verify_negotiate-Keeps env h payload s =
      elim (Bool-cases (has_prefix payload (text "TlRMTVNTUA"))) [
        | inl t ↦ rw t (verify_ntlm-Keeps env h payload s)
        | inr t ↦ negotiate_sspi-Keeps env h payload s t _ refl
      ]
