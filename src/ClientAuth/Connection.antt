-- ===== src/ClientAuth/Connection.antt =====
-- The state that internal/clientauth keeps for a connection.
use px_go.Prelude.{
  ◌≡◌, ◌↔◌, ◌⊎◌, inl, inr, refl, sym, ◌∙◌, Bool, true, false, List, [], ◌∷◌, arith, Bool-cases,
}
use px_go.Strings.{Bytes, is_empty}
use px_go.ClientAuth.{State, Handler, Env, Request, enabled, challenge, challenge_from}
use px_go.ClientAuth.Verify.{Verdict, verify_basic, verify_digest, verify_ntlm, verify_negotiate}
use px_go.ClientAuth.Authenticate.{
  Reply, scheme_of, payload_of, refuse, conclude, conclude_verdict, conclude_pair,
  authenticate_with, authenticate, authenticate_all,
}
use px_go.ClientAuth.Sessions.{Keeps, verify_ntlm-Keeps, verify_negotiate-Keeps}
use px_go.ClientAuth.Safety.{Accepts, IsChecked, authenticate-Accepts}

module _ {N S : Type 0} where
  challenge_from-authed :
      (env : Env N S) (remote : Bytes) (methods : List Bytes) (s : State N S)
      → (challenge_from env remote s methods).0.authed ≡ s.authed
  unfolding challenge_from
  challenge_from-authed env remote [] s = refl
  challenge_from-authed env remote (method ∷ methods) s =
      challenge_from-authed env remote methods _ ∙ ground arith

  -- What a request leaves: it has passed exactly if the reply is good, and there is no error.
  abbrev Marks : State N S × Reply → Type 0
  Marks (after, r) = (after.authed ≡ r.ok) × (r.err ≡ false)

  refuse-Marks :
      (env : Env N S) (h : Handler) (q : Request) (s : State N S)
      → s.authed ≡ false
      → Marks (refuse env h q s)
  unfolding refuse challenge
  refuse-Marks env h q s fresh = (challenge_from-authed env q.remote_addr h.methods s ∙ fresh, refl)

  conclude-Marks :
      (env : Env N S) (h : Handler) (q : Request) (s : State N S) (ok : Bool)
      → s.authed ≡ false
      → Marks (conclude env h q s ok)
  unfolding conclude
  conclude-Marks env h q s true fresh = (refl, refl)
  conclude-Marks env h q s false fresh = refuse-Marks env h q s fresh

  conclude_verdict-Marks :
      (env : Env N S) (h : Handler) (q : Request) (s : State N S) (v : Verdict)
      → s.authed ≡ false
      → (is_empty v.header ≡ false → v.err ≡ false)
      → Marks (conclude_verdict env h q s v)
  unfolding conclude_verdict
  conclude_verdict-Marks env h q s v fresh quiet = elim (Bool-cases v.ok) [
    | inl t ↦ rw t (refl, refl)
    | inr t ↦ elim (Bool-cases (is_empty v.header)) [
      | inl b ↦ rw (t, b) (refuse-Marks env h q s fresh)
      | inr b ↦ rw (t, b) (fresh, quiet b)
    ]
  ]

  conclude_pair-Marks :
      (env : Env N S) (h : Handler) (q : Request) (s : State N S) (p : State N S × Verdict)
      → s.authed ≡ false
      → Keeps s p
      → Marks (conclude_pair env h q p)
  unfolding conclude_pair
  conclude_pair-Marks env h q s p fresh k = conclude_verdict-Marks env h q p.0 p.1 (k.0 ∙ fresh) k.1

  authenticate_with-Marks :
      (env : Env N S) (h : Handler) (q : Request) (s : State N S) (scheme payload : Bytes)
      → s.authed ≡ false
      → Marks (authenticate_with env h q s scheme payload)
  unfolding authenticate_with
  authenticate_with-Marks env h q s scheme payload fresh = ground (
    arith,
    conclude-Marks env h q s (verify_basic env h payload) fresh,
    conclude-Marks env h q s (verify_digest env h q.digest s q.authorization) fresh,
    conclude_pair-Marks env h q s (verify_ntlm env h payload s) fresh
        (verify_ntlm-Keeps env h payload s),
    conclude_pair-Marks env h q s (verify_negotiate env h payload s) fresh
        (verify_negotiate-Keeps env h payload s),
    refuse-Marks env h q s fresh,
  )

  -- With the authentication on and a connection that has not passed it, whatever a request holds: the
  -- connection counts as authenticated
  -- afterwards exactly if the request passes, and no error is ever reported, since the ones of the
  -- NTLM and SSPI servers come without a header and are dropped.
  pub authenticate-authed :
      (env : Env N S) (h : Handler) (q : Request) (s : State N S)
      → IsChecked h s
      → ((authenticate env h q s).0.authed ≡ (authenticate env h q s).1.ok)
        × ((authenticate env h q s).1.err ≡ false)
  unfolding authenticate
  authenticate-authed env h q s (on, fresh) = ground (
    arith,
    refuse-Marks env h q s fresh,
    authenticate_with-Marks env h q s (scheme_of q.authorization) (payload_of q.authorization)
        fresh,
  )

  -- One of the requests holds an answer that is accepted in the state that the ones before it leave.
  abbrev pub SomeAccepted : Handler → List (Env N S × Request) → State N S → Type 0
  SomeAccepted h [] s = ⊥
  SomeAccepted h ((env, q) ∷ qs) s =
      Accepts env h q s ⊎ SomeAccepted h qs (authenticate env h q s).0

  authenticate_passed :
      (env : Env N S) (h : Handler) (q : Request) (s : State N S)
      → s.authed ≡ true
      → (authenticate env h q s).0.authed ≡ true
  unfolding authenticate
  authenticate_passed env h q s passed = rw passed (ground arith)

  authenticate_all_passed :
      (h : Handler) (qs : List (Env N S × Request)) (s : State N S)
      → s.authed ≡ true
      → (authenticate_all h qs s).authed ≡ true
  unfolding authenticate_all
  authenticate_all_passed h [] s passed = passed
  authenticate_all_passed h ((env, q) ∷ qs) s passed =
      authenticate_all_passed h qs (authenticate env h q s).0 (authenticate_passed env h q s passed)

  authenticate-passed_or_Accepts :
      (env : Env N S) (h : Handler) (q : Request) (s : State N S)
      → enabled h ≡ true
      → ((authenticate env h q s).0.authed ≡ true) ↔ ((s.authed ≡ true) ⊎ Accepts env h q s)
  authenticate-passed_or_Accepts env h q s on = elim (Bool-cases s.authed) [
    | inl t ↦ ((λ e. inl t), λ c. authenticate_passed env h q s t)
    | inr f ↦
        let (same, _) = authenticate-authed env h q s (on, f) in
        let (sound, complete) = authenticate-Accepts env h q s (on, f) in
        (
          (λ e. inr (sound (sym same ∙ e))),
          λ c. elim c [ inl t ↦ authenticate_passed env h q s t | inr a ↦ same ∙ complete a ],
        )
  ]

  -- A connection whose authentication is on counts as authenticated after some requests exactly if
  -- it did so before them or one of them held an answer that was accepted when it came: nothing else
  -- sets the mark, and nothing takes it back.
  pub authenticate_all-SomeAccepted :
      (h : Handler) (qs : List (Env N S × Request)) (s : State N S)
      → enabled h ≡ true
      → ((authenticate_all h qs s).authed ≡ true) ↔ ((s.authed ≡ true) ⊎ SomeAccepted h qs s)
  unfolding authenticate_all
  authenticate_all-SomeAccepted h [] s on =
      ((λ e. inl e), λ c. elim c [ inl e ↦ e | inr e ↦ absurd e ])
  authenticate_all-SomeAccepted h ((env, q) ∷ qs) s on =
      let once = authenticate-passed_or_Accepts env h q s on in
      let later = authenticate_all-SomeAccepted h qs (authenticate env h q s).0 on in
      (
        (λ e. elim (later.0 e) [
          | inl a ↦ elim (once.0 a) [ inl x ↦ inl x | inr y ↦ inr (inl y) ]
          | inr l ↦ inr (inr l)
        ]),
        λ c. elim c [
          | inl x ↦ later.1 (inl (once.1 (inl x)))
          | inr d ↦ elim d [ inl y ↦ later.1 (inl (once.1 (inr y))) | inr l ↦ later.1 (inr l) ]
        ],
      )
