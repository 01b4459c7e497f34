-- ===== src/ClientAuth/Safety.antt =====
-- When internal/clientauth lets a client pass: one request, and the requests of a connection.
use px_go.Prelude.{
  ◌≡◌, ◌≢◌, ◌↔◌, ◌⊎◌, inl, inr, refl, ◌∙◌, Bool, true, false, [], arith, Bool-cases,
}
use px_go.Strings.{Bytes, text, equal, is_empty}
use px_go.Strings.Laws.{equal_iff}
use px_go.ClientAuth.{State, Handler, Env, Request, enabled}
use px_go.ClientAuth.Verify.{Verdict, verify_basic, verify_digest, verify_ntlm, verify_negotiate}
use px_go.ClientAuth.Authenticate.{
  scheme_of, payload_of, refuse, conclude, conclude_pair, authenticate_with, authenticate,
}
use px_go.ClientAuth.Answers.{
  is_empty_iff, BasicAnswer, DigestAnswer, NtlmAnswer, NegotiateAnswer, verify_basic_iff,
  verify_digest_sound, verify_digest_complete, verify_ntlm_iff, verify_negotiate_iff,
}

module _ {N S : Type 0} where
  abbrev pub Answers : Env N S → Handler → Request → State N S → Bytes → Bytes → Type 0
  Answers env h q s scheme payload =
      ((scheme ≡ text "BASIC") × BasicAnswer env h payload)
      ⊎ (((scheme ≡ text "DIGEST") × DigestAnswer env h q.digest s q.authorization)
          ⊎ (((scheme ≡ text "NTLM") × NtlmAnswer env h payload s)
              ⊎ ((scheme ≡ text "NEGOTIATE") × NegotiateAnswer env h payload s)))

  -- The header Proxy-Authorization holds an answer that the check of its scheme accepts.
  abbrev pub Accepts : Env N S → Handler → Request → State N S → Type 0
  Accepts env h q s =
      (q.authorization ≢ [])
      × Answers env h q s (scheme_of q.authorization) (payload_of q.authorization)

  -- The authentication is on, and the connection has not passed it.
  abbrev pub IsChecked : Handler → State N S → Type 0
  IsChecked h s = (enabled h ≡ true) × (s.authed ≡ false)

  refuse-ok :
      (env : Env N S) (h : Handler) (q : Request) (s : State N S) → (refuse env h q s).1.ok ≡ false
  unfolding refuse
  refuse-ok env h q s = refl

  conclude-ok :
      (env : Env N S) (h : Handler) (q : Request) (s : State N S) (ok : Bool)
      → (conclude env h q s ok).1.ok ≡ ok
  unfolding conclude
  conclude-ok env h q s true = refl
  conclude-ok env h q s false = refuse-ok env h q s

  conclude_pair-ok :
      (env : Env N S) (h : Handler) (q : Request) (p : State N S × Verdict)
      → (conclude_pair env h q p).1.ok ≡ p.1.ok
  unfolding conclude_pair
  conclude_pair-ok env h q p = ground (arith, refuse-ok env h q p.0)

  authenticate_with_sound :
      (env : Env N S) (h : Handler) (q : Request) (s : State N S) (scheme payload : Bytes)
      → (authenticate_with env h q s scheme payload).1.ok ≡ true
      → Answers env h q s scheme payload
  unfolding authenticate_with
  authenticate_with_sound env h q s scheme payload e =
      elim (Bool-cases (equal scheme (text "BASIC"))) [
        | inl t ↦ inl (
          (equal_iff scheme (text "BASIC")).0 t,
          (verify_basic_iff env h payload).0
              (ground (arith, conclude-ok env h q s (verify_basic env h payload))),
        )
        | inr not_basic ↦ elim (Bool-cases (equal scheme (text "DIGEST"))) [
          | inl t ↦ inr (
              inl (
                (equal_iff scheme (text "DIGEST")).0 t,
                verify_digest_sound env h q.digest s q.authorization (
                    ground (
                      arith,
                      conclude-ok env h q s (verify_digest env h q.digest s q.authorization),
                    )),
              ))
          | inr not_digest ↦ elim (Bool-cases (equal scheme (text "NTLM"))) [
            | inl t ↦ inr (
                inr (
                  inl (
                    (equal_iff scheme (text "NTLM")).0 t,
                    (verify_ntlm_iff env h payload s).0
                        (ground (arith, conclude_pair-ok env h q (verify_ntlm env h payload s))),
                  )))
            | inr not_ntlm ↦ elim (Bool-cases (equal scheme (text "NEGOTIATE"))) [
              | inl t ↦ inr (
                  inr (
                    inr (
                      (equal_iff scheme (text "NEGOTIATE")).0 t,
                      (verify_negotiate_iff env h payload s).0 (
                          ground
                            (arith, conclude_pair-ok env h q (verify_negotiate env h payload s))),
                    )))
              | inr other ↦ absurd (ground (arith, refuse-ok env h q s))
            ]
          ]
        ]
      ]

  authenticate_with_complete :
      (env : Env N S) (h : Handler) (q : Request) (s : State N S) (scheme payload : Bytes)
      → Answers env h q s scheme payload
      → (authenticate_with env h q s scheme payload).1.ok ≡ true
  unfolding authenticate_with
  authenticate_with_complete env h q s scheme payload (inl (e, a)) =
      rw (e, authenticate_with) (conclude-ok env h q s _ ∙ (verify_basic_iff env h payload).1 a)
  authenticate_with_complete env h q s scheme payload (inr (inl (e, a))) =
      rw (e, authenticate_with)
        (conclude-ok env h q s _ ∙ verify_digest_complete env h q.digest s q.authorization a)
  authenticate_with_complete env h q s scheme payload (inr (inr (inl (e, a)))) =
      rw (e, authenticate_with) (conclude_pair-ok env h q _ ∙ (verify_ntlm_iff env h payload s).1 a)
  authenticate_with_complete env h q s scheme payload (inr (inr (inr (e, a)))) =
      rw (e, authenticate_with)
        (conclude_pair-ok env h q _ ∙ (verify_negotiate_iff env h payload s).1 a)

  pub authenticate-Accepts :
      (env : Env N S) (h : Handler) (q : Request) (s : State N S)
      → IsChecked h s
      → ((authenticate env h q s).1.ok ≡ true) ↔ Accepts env h q s
  unfolding authenticate
  authenticate-Accepts env h q s (on, fresh) = (sound, complete)
    where
      sound : (authenticate env h q s).1.ok ≡ true → Accepts env h q s
      sound e = elim (Bool-cases (is_empty q.authorization)) [
        | inl t ↦ absurd (ground (arith, refuse-ok env h q s))
        | inr t ↦ (
          ground (arith, is_empty_iff q.authorization),
          authenticate_with_sound env h q s _ _ (ground arith),
        )
      ]

      complete : Accepts env h q s → (authenticate env h q s).1.ok ≡ true
      complete (ne, a) = ground (
        arith,
        is_empty_iff q.authorization,
        authenticate_with_complete env h q s (scheme_of q.authorization)
            (payload_of q.authorization) a,
      )
