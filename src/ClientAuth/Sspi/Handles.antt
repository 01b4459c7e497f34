-- ===== src/ClientAuth/Sspi/Handles.antt =====
-- The handles that the SSPI server of internal/clientauth/sspi_windows.go holds.
use px_go.Prelude.{
  ℕ, ◌≡◌, refl, ◌∙◌, inl, inr, true, false, List, [], ◌∷◌, Option, none, some, ◌==◌, Bool-cases,
  Option-cases, arith,
}
use mathlib.Core.Path.{subst}
use px_go.Strings.{Bytes, text, is_empty}
use px_go.ClientAuth.{State}
use px_go.ClientAuth.Sspi.{
  SspiServer, acquire_server, acquired, new_negotiate_server, concluded, accept, close, close_state,
}
use px_go.Sspi.{
  Handle, uint32, sec_e_ok, sec_i_continue_needed, secpkg_cred_inbound, req_connection,
  max_token_buffer, sec_buffer, Reply, Secur32, succeeds, completes, current,
}
use px_go.Sspi.Handles.{
  Books, after, IsKept, NeverCompletes, held, Holds, after-current, Continues, close-Holds,
}

module _ {W : Type 0} where
  -- The calls of `Accept` on the inputs of a session, whatever they answer.
  unfoldable pub run : Secur32 W → W → SspiServer → List Bytes → W × SspiServer
  unfolding accept
  run api w c [] = (w, c)
  run api w c (input ∷ inputs) = let (v, (d, _)) = accept api w c input in run api v d inputs

concluded-held :
    (c : SspiServer) (r : Reply) (l : List Handle)
    → held (concluded c r).0.started (concluded c r).0.ctx l
      ≡ elim (succeeds r.ret) [ true ↦ r.new_ctx ∷ l | false ↦ held c.started c.ctx l ]
unfolding concluded
concluded-held c r l = elim (Bool-cases (uint32 r.ret == sec_e_ok)) [
  | inl t ↦ rw t refl
  | inr t ↦ elim (Bool-cases (uint32 r.ret == sec_i_continue_needed)) [
    | inl u ↦ rw (t, u) refl
    | inr u ↦ rw (t, u) refl
  ]
]

concluded-cred : (c : SspiServer) (r : Reply) → (concluded c r).0.cred ≡ c.cred
unfolding concluded
concluded-cred c r = elim (Bool-cases (succeeds r.ret)) [
  | inl t ↦ ground arith
  | inr t ↦ ground arith
]

module _ {W : Type 0} (api : Secur32 W) (books : Books W) (kept : IsKept api books)
    (final : NeverCompletes api) where
  abbrev HoldsFor : List Handle → List Handle → W → SspiServer → Type 0
  HoldsFor creds ctxs w c = Holds books creds ctxs w c.cred c.started c.ctx

  concluded-HoldsFor :
      (creds ctxs : List Handle) (w v : W) (c : SspiServer) (r : Reply)
      → HoldsFor creds ctxs w c
      → books.creds v ≡ books.creds w
      → books.ctxs v ≡ after (current c.started c.ctx) r (books.ctxs w)
      → completes r.ret ≡ false
      → Continues (current c.started c.ctx) r
      → HoldsFor creds ctxs v (concluded c r).0
  concluded-HoldsFor creds ctxs w v c r h same opened known goes_on = (
    rw (same, h.0, concluded-cred c r) refl,
    rw (opened, h.1, after-current c.started c.ctx r ctxs known goes_on, concluded-held c r ctxs)
        refl,
  )

  accept-HoldsFor :
      (creds ctxs : List Handle) (w : W) (c : SspiServer) (input : Bytes)
      → HoldsFor creds ctxs w c
      → let (v, (d, _)) = accept api w c input in HoldsFor creds ctxs v d
  unfolding accept
  accept-HoldsFor creds ctxs w c input h =
      let law =
        kept.accepted w c.cred (current c.started c.ctx) (sec_buffer input) req_connection
          max_token_buffer in
      let known =
        final.accepts w c.cred (current c.started c.ctx) (sec_buffer input) req_connection
          max_token_buffer in
      elim (Bool-cases (is_empty input)) [
        | inl t ↦ rw t h
        | inr t ↦ rw t (concluded-HoldsFor creds ctxs w _ c _ h law.0 law.1.0 known law.1.1)
      ]

  run-HoldsFor :
      (creds ctxs : List Handle) (inputs : List Bytes) (w : W) (c : SspiServer)
      → HoldsFor creds ctxs w c
      → let (v, d) = run api w c inputs in HoldsFor creds ctxs v d
  unfolding run
  run-HoldsFor creds ctxs [] w c h = h
  run-HoldsFor creds ctxs (input ∷ inputs) w c h =
      run-HoldsFor creds ctxs inputs _ _ (accept-HoldsFor creds ctxs w c input h)

  close-started :
      (creds ctxs : List Handle) (w : W) (c : SspiServer)
      → HoldsFor creds ctxs w c
      → (books.creds (close api w c) ≡ creds) × (books.ctxs (close api w c) ≡ ctxs)
  unfolding close
  close-started creds ctxs w c h = close-Holds api books kept creds ctxs w c.cred c.started c.ctx h

  -- No client and the open handles as before, or a client that holds new credentials.
  abbrev MadeFrom : W → W × Option SspiServer → Type 0
  MadeFrom w (v, none) = (books.creds v ≡ books.creds w) × (books.ctxs v ≡ books.ctxs w)
  MadeFrom w (v, some c) = HoldsFor (books.creds w) (books.ctxs w) v c

  acquired-MadeFrom :
      (w v : W) (ret : ℕ) (cred : Handle)
      → books.creds v
        ≡ elim (uint32 ret == sec_e_ok) [ true ↦ cred ∷ books.creds w | false ↦ books.creds w ]
      → books.ctxs v ≡ books.ctxs w
      → MadeFrom w (acquired (v, (ret, cred)))
  acquired-MadeFrom w v ret cred more same = elim (Bool-cases (uint32 ret == sec_e_ok)) [
    | inl t ↦ rw t (more ∙ rw t refl, same)
    | inr t ↦ rw t (more ∙ rw t refl, same)
  ]

  new_negotiate_server-MadeFrom : (w : W) → MadeFrom w (new_negotiate_server api w)
  unfolding new_negotiate_server acquire_server
  new_negotiate_server-MadeFrom w = elim (Option-cases (api.utf16 (text "Negotiate"))) [
    | inl e ↦ rw e (refl, refl)
    | inr (wide, e) ↦
        let law = kept.acquired w wide secpkg_cred_inbound none in
        rw e (acquired-MadeFrom w _ _ _ law.0 law.1)
  ]

  -- Where Windows keeps its books as documented and never asks for CompleteAuthToken, CloseState of a connection whose server
  -- newNegotiateServer made, and which answered any inputs with Accept, leaves the handles that were
  -- open before.
  pub close_state-HasNoLeak :
      {N : Type 0} (w v : W) (s : SspiServer) (state : State N SspiServer) (inputs : List Bytes)
      → new_negotiate_server api w ≡ (v, some s)
      → state.sspi_server ≡ some (run api v s inputs).1
      → let u = close_state api (run api v s inputs).0 state in
        (books.creds u ≡ books.creds w) × (books.ctxs u ≡ books.ctxs w)
  unfolding close_state
  close_state-HasNoLeak w v s state inputs made stored =
      let held = subst (MadeFrom w) made (new_negotiate_server-MadeFrom w) in
      rw stored (close-started _ _ _ _ (run-HoldsFor _ _ inputs v s held))
