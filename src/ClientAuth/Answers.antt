-- ===== src/ClientAuth/Answers.antt =====
-- The answers that the checks of internal/clientauth accept.
use px_go.Prelude.{
  ◌-◌, ◌≤◌, ◌≡◌, ◌≢◌, ◌↔◌, ◌⊎◌, inl, inr, refl, Bool, true, false, [], ◌∷◌, Option, none, some,
  arith, Bool-cases, Option-cases,
}
use px_go.Strings.{Bytes, text, equal_fold, is_empty, has_prefix}
use px_go.Strings.Laws.{equal_iff}
use px_go.Auth.Session.{param, DigestRequest}
use px_go.ClientAuth.{State, Handler, Env}
use px_go.ClientAuth.Verify.{
  is_user, five_minutes, username_from_basic, basic_user, verify_basic, digest_params,
  expected_answer, same_response, verify_digest, ntlm_message, verify_ntlm, sspi_of, sspi_message,
  sspi_answered, verify_negotiate,
}

pub is_empty_iff : (s : Bytes) → (is_empty s ≡ true) ↔ (s ≡ [])
is_empty_iff [] = ground arith
is_empty_iff (c ∷ s) = ground arith

abbrev or_nil : Option Bytes → Bytes
or_nil none = []
or_nil (some s) = s

-- The user name is the configured one, up to the case of letters, or none is configured.
abbrev pub IsUser : Handler → Bytes → Type 0
IsUser h user = (h.username ≡ []) ⊎ (equal_fold user h.username ≡ true)

is_user-IsUser : (h : Handler) (user : Bytes) → is_user h user ≡ true → IsUser h user
is_user-IsUser h user e = elim (Bool-cases (is_empty h.username)) [
  | inl t ↦ inl ((is_empty_iff h.username).0 t)
  | inr t ↦ inr (ground arith)
]

IsUser-is_user : (h : Handler) (user : Bytes) → IsUser h user → is_user h user ≡ true
IsUser-is_user h user (inl e) = ground (arith, is_empty_iff h.username)
IsUser-is_user h user (inr e) = ground arith

module _ {N S : Type 0} where
  -- The password is that of the user: the configured one, or that of the keyring if no user name
  -- is configured.
  abbrev pub Knows : Env N S → Handler → Bytes → Bytes → Type 0
  Knows env h user pass =
      ((h.username ≢ []) × (equal_fold user h.username ≡ true) × (pass ≡ h.password))
      ⊎ ((h.username ≡ []) × (env.keyring user ≡ some pass))

  -- A user name that is not empty and its password, behind base64.
  abbrev pub BasicAnswer : Env N S → Handler → Bytes → Type 0
  BasicAnswer env h payload =
      (user : Bytes) × (pass : Bytes) × (username_from_basic env payload ≡ some (user, pass))
      × (user ≢ [])
      × Knows env h user pass

  basic_user-Knows :
      (env : Env N S) (h : Handler) (user pass : Bytes)
      → basic_user env h user pass ≡ true
      → (user ≢ []) × Knows env h user pass
  unfolding basic_user
  basic_user-Knows env h user pass e = elim (Bool-cases (is_empty h.username)) [
    | inl t ↦ (
      ground (arith, is_empty_iff user),
      inr (
        (is_empty_iff h.username).0 t,
        ground (arith, is_empty_iff user, equal_iff pass (or_nil (env.keyring user))),
      ),
    )
    | inr t ↦ (
      ground (arith, is_empty_iff user),
      inl (
        ground (arith, is_empty_iff h.username),
        ground (arith, is_empty_iff user),
        ground (arith, is_empty_iff user, equal_iff pass h.password),
      ),
    )
  ]

  Knows-basic_user :
      (env : Env N S) (h : Handler) (user pass : Bytes)
      → user ≢ []
      → Knows env h user pass
      → basic_user env h user pass ≡ true
  unfolding basic_user
  Knows-basic_user env h user pass ne (inl (named, same, is)) =
      ground (arith, is_empty_iff user, is_empty_iff h.username, equal_iff pass h.password)
  Knows-basic_user env h user pass ne (inr (unnamed, held)) =
      ground (arith, is_empty_iff user, is_empty_iff h.username, equal_iff pass pass)

  pub verify_basic_iff :
      (env : Env N S) (h : Handler) (payload : Bytes)
      → (verify_basic env h payload ≡ true) ↔ BasicAnswer env h payload
  unfolding verify_basic
  verify_basic_iff env h payload = (sound, complete)
    where
      sound : verify_basic env h payload ≡ true → BasicAnswer env h payload
      sound e = elim (Option-cases (username_from_basic env payload)) [
        | inl f ↦ absurd (ground arith)
        | inr ((user, pass), f) ↦
            let (ne, knows) = basic_user-Knows env h user pass (ground arith) in
            (user, pass, f, ne, knows)
      ]

      complete : BasicAnswer env h payload → verify_basic env h payload ≡ true
      complete (user, pass, f, ne, knows) =
          rw (f, verify_basic) (Knows-basic_user env h user pass ne knows)

  -- The answer is for the nonce that the state holds, not older than five minutes, and its response
  -- is the one that the server's own session computes from the password.
  abbrev pub DigestAnswer : Env N S → Handler → DigestRequest → State N S → Bytes → Type 0
  DigestAnswer env h req s header =
      let params = digest_params header in
      let user = param (text "username") params in
      (expected : Bytes) × (s.digest_nonce ≢ [])
      × (env.now - s.digest_issued_at ≤ five_minutes)
      × (param (text "nonce") params ≡ s.digest_nonce)
      × IsUser h user
      × (h.password ≢ [])
      × (expected_answer env h user s.digest_nonce req ≡ some expected)
      × (param (text "response") (digest_params expected) ≡ param (text "response") params)

  pub verify_digest_sound :
      (env : Env N S) (h : Handler) (req : DigestRequest) (s : State N S) (header : Bytes)
      → verify_digest env h req s header ≡ true
      → DigestAnswer env h req s header
  unfolding verify_digest same_response
  verify_digest_sound env h req s header e =
      let params = digest_params header in
      let user = param (text "username") params in
      elim (Option-cases (expected_answer env h user s.digest_nonce req)) [
        | inl f ↦ absurd (ground arith)
        | inr (expected, f) ↦ (
          expected,
          ground (arith, is_empty_iff s.digest_nonce),
          ground arith,
          ground (arith, equal_iff (param (text "nonce") params) s.digest_nonce),
          is_user-IsUser h user (ground arith),
          ground (arith, is_empty_iff h.password),
          f,
          ground (
            arith,
            equal_iff (param (text "response") (digest_params expected))
                (param (text "response") params),
          ),
        )
      ]

  pub verify_digest_complete :
      (env : Env N S) (h : Handler) (req : DigestRequest) (s : State N S) (header : Bytes)
      → DigestAnswer env h req s header
      → verify_digest env h req s header ≡ true
  unfolding verify_digest same_response
  verify_digest_complete env h req s header (expected, ne, fresh, nonce, user, named, is, same) =
      let params = digest_params header in
      ground (
        arith,
        is_empty_iff s.digest_nonce,
        is_empty_iff h.password,
        equal_iff (param (text "nonce") params) s.digest_nonce,
        IsUser-is_user h (param (text "username") params) user,
        equal_iff (param (text "response") (digest_params expected))
            (param (text "response") params),
      )

  -- The second message of a handshake that the server's session accepts.
  abbrev pub NtlmAnswer : Env N S → Handler → Bytes → State N S → Type 0
  NtlmAnswer env h payload s =
      (session : N) × (message : Bytes) × (h.username ≢ [])
      × (h.password ≢ [])
      × (s.ntlm_session ≡ some session)
      × (env.codec.unbase64 payload ≡ some message)
      × ((env.ntlm_finish session message).1 ≡ true)

  ntlm_message_sound :
      (env : Env N S) (h : Handler) (s : State N S) (session : Option N) (message : Option Bytes)
      → (ntlm_message env h s session message).1.ok ≡ true
      → (n : N) × (m : Bytes) × (session ≡ some n)
        × (message ≡ some m)
        × ((env.ntlm_finish n m).1 ≡ true)
  unfolding ntlm_message
  ntlm_message_sound env h s session none e = absurd (ground arith)
  ntlm_message_sound env h s none (some message) e = absurd (ground arith)
  ntlm_message_sound env h s (some n) (some m) e = (n, m, refl, refl, ground arith)

  pub verify_ntlm_iff :
      (env : Env N S) (h : Handler) (payload : Bytes) (s : State N S)
      → ((verify_ntlm env h payload s).1.ok ≡ true) ↔ NtlmAnswer env h payload s
  unfolding verify_ntlm
  verify_ntlm_iff env h payload s = (sound, complete)
    where
      sound : (verify_ntlm env h payload s).1.ok ≡ true → NtlmAnswer env h payload s
      sound e =
          let (n, m, held, sent, ok) =
            ntlm_message_sound env h s s.ntlm_session (env.codec.unbase64 payload) (ground arith) in
          (
            n,
            m,
            ground (arith, is_empty_iff h.username),
            ground (arith, is_empty_iff h.password),
            held,
            sent,
            ok,
          )

      complete : NtlmAnswer env h payload s → (verify_ntlm env h payload s).1.ok ≡ true
      complete (n, m, user, pass, held, sent, ok) =
          ground (arith, is_empty_iff h.username, is_empty_iff h.password)

  -- A message that the SSPI server of the connection accepts as the last one.
  abbrev pub SspiAnswer : Env N S → Handler → Bytes → State N S → Type 0
  SspiAnswer env h payload s =
      (server : S) × (message : Bytes) × (out : Bytes) × (h.no_sspi ≡ false)
      × (sspi_of env s.sspi_server ≡ some server)
      × (env.codec.unbase64 payload ≡ some message)
      × ((env.sspi_accept server message).1 ≡ some (out, true))

  -- NTLM messages are told by their first bytes.
  abbrev pub NegotiateAnswer : Env N S → Handler → Bytes → State N S → Type 0
  NegotiateAnswer env h payload s =
      ((has_prefix payload (text "TlRMTVNTUA") ≡ true) × NtlmAnswer env h payload s)
      ⊎ ((has_prefix payload (text "TlRMTVNTUA") ≡ false) × SspiAnswer env h payload s)

  sspi_answered_sound :
      (env : Env N S) (s : State N S) (server : S) (answer : Option (Bytes × Bool))
      → (sspi_answered env s server answer).1.ok ≡ true
      → (out : Bytes) × (answer ≡ some (out, true))
  unfolding sspi_answered
  sspi_answered_sound env s server none e = absurd (cc e)
  sspi_answered_sound env s server (some (out, true)) e = (out, refl)
  sspi_answered_sound env s server (some (out, false)) e = absurd (cc e)

  sspi_message_sound :
      (env : Env N S) (s : State N S) (server : S) (message : Option Bytes)
      → (sspi_message env s server message).1.ok ≡ true
      → (m : Bytes) × (out : Bytes) × (message ≡ some m)
        × ((env.sspi_accept server m).1 ≡ some (out, true))
  unfolding sspi_message
  sspi_message_sound env s server none e = absurd (cc e)
  sspi_message_sound env s server (some m) e =
      let (out, done) = sspi_answered_sound env s _ _ e in (m, out, refl, done)

  verify_sspi_sound :
      (env : Env N S) (h : Handler) (payload : Bytes) (s : State N S)
      → has_prefix payload (text "TlRMTVNTUA") ≡ false
      → (verify_negotiate env h payload s).1.ok ≡ true
      → SspiAnswer env h payload s
  unfolding verify_negotiate
  verify_sspi_sound env h payload s other e = elim (Option-cases (sspi_of env s.sspi_server)) [
    | inl f ↦ absurd (ground arith)
    | inr (server, f) ↦
        let (m, out, sent, done) =
          sspi_message_sound env s server (env.codec.unbase64 payload) (ground arith) in
        (server, m, out, ground arith, f, sent, done)
  ]

  verify_sspi_complete :
      (env : Env N S) (h : Handler) (payload : Bytes) (s : State N S)
      → has_prefix payload (text "TlRMTVNTUA") ≡ false
      → SspiAnswer env h payload s
      → (verify_negotiate env h payload s).1.ok ≡ true
  unfolding verify_negotiate
  verify_sspi_complete env h payload s other (server, m, out, allowed, held, sent, done) =
      rw (other, allowed, held, verify_negotiate) (rw (sent, done, sspi_message) refl)

  pub verify_negotiate_iff :
      (env : Env N S) (h : Handler) (payload : Bytes) (s : State N S)
      → ((verify_negotiate env h payload s).1.ok ≡ true) ↔ NegotiateAnswer env h payload s
  unfolding verify_negotiate
  verify_negotiate_iff env h payload s = (sound, complete)
    where
      sound : (verify_negotiate env h payload s).1.ok ≡ true → NegotiateAnswer env h payload s
      sound e = elim (Bool-cases (has_prefix payload (text "TlRMTVNTUA"))) [
        | inl t ↦ inl (t, (verify_ntlm_iff env h payload s).0 (ground arith))
        | inr t ↦ inr (t, verify_sspi_sound env h payload s t e)
      ]

      complete : NegotiateAnswer env h payload s → (verify_negotiate env h payload s).1.ok ≡ true
      complete (inl (t, a)) = rw t ((verify_ntlm_iff env h payload s).1 a)
      complete (inr (t, a)) = verify_sspi_complete env h payload s t a
