-- ===== src/Auth/Negotiate/Sspi/Handles.antt =====
-- The handles that the SSPI client of internal/auth/sspi_windows.go holds.
use px_go.Prelude.{
  ℕ, ◌≡◌, refl, ◌∙◌, inl, inr, true, false, List, [], ◌∷◌, Option, none, some, ◌==◌, if◌then◌else◌,
  Bool-cases, Option-cases, arith,
}
use mathlib.Core.Path.{subst}
use px_go.Strings.{Bytes, is_empty}
use px_go.Auth.Session.{Credentials}
use px_go.Auth.Negotiate.Sspi.{
  SspiClient, identity_of, target_name_of, acquire_client, acquired, new_token_client, concluded,
  next, close,
}
use px_go.Sspi.{
  Handle, Wide, uint32, sec_e_ok, sec_i_continue_needed, secpkg_cred_outbound, req_connection,
  max_token_buffer, sec_buffer, Reply, Secur32, succeeds, completes, current,
}
use px_go.Sspi.Handles.{
  Books, after, IsKept, NeverCompletes, held, Holds, after-current, Continues, close-Holds,
}

module _ {W : Type 0} where
  -- The calls of `Next` on the inputs of a session, whatever they answer.
  unfoldable pub run : Secur32 W → W → SspiClient → List Bytes → W × SspiClient
  unfolding next
  run api w c [] = (w, c)
  run api w c (input ∷ inputs) = let (v, (d, _)) = next api w c input in run api v d inputs

concluded-held :
    (c : SspiClient) (r : Reply) (l : List Handle)
    → held (concluded c r).0.started (concluded c r).0.ctx l
      ≡ elim (succeeds r.ret) [ true ↦ r.new_ctx ∷ l | false ↦ held c.started c.ctx l ]
unfolding concluded
concluded-held c r l = elim (Bool-cases (uint32 r.ret == sec_e_ok)) [
  | inl t ↦ rw t refl
  | inr t ↦ elim (Bool-cases (uint32 r.ret == sec_i_continue_needed)) [
    | inl u ↦ rw (t, u) refl
    | inr u ↦ rw (t, u) refl
  ]
]

concluded-cred : (c : SspiClient) (r : Reply) → (concluded c r).0.cred ≡ c.cred
unfolding concluded
concluded-cred c r = elim (Bool-cases (succeeds r.ret)) [
  | inl t ↦ ground arith
  | inr t ↦ ground arith
]

module _ {W : Type 0} (api : Secur32 W) (books : Books W) (kept : IsKept api books)
    (final : NeverCompletes api) where
  abbrev pub HoldsFor : List Handle → List Handle → W → SspiClient → Type 0
  HoldsFor creds ctxs w c = Holds books creds ctxs w c.cred c.started c.ctx

  concluded-HoldsFor :
      (creds ctxs : List Handle) (w v : W) (c : SspiClient) (r : Reply)
      → HoldsFor creds ctxs w c
      → books.creds v ≡ books.creds w
      → books.ctxs v ≡ after (current c.started c.ctx) r (books.ctxs w)
      → completes r.ret ≡ false
      → Continues (current c.started c.ctx) r
      → HoldsFor creds ctxs v (concluded c r).0
  concluded-HoldsFor creds ctxs w v c r h same opened known goes_on = (
    rw (same, h.0, concluded-cred c r) refl,
    rw (opened, h.1, after-current c.started c.ctx r ctxs known goes_on, concluded-held c r ctxs)
        refl,
  )

  pub next-HoldsFor :
      (creds ctxs : List Handle) (w : W) (c : SspiClient) (input : Bytes)
      → HoldsFor creds ctxs w c
      → let (v, (d, _)) = next api w c input in HoldsFor creds ctxs v d
  unfolding next
  next-HoldsFor creds ctxs w c input h =
      let law =
        kept.initialized w c.cred (current c.started c.ctx) c.target_name req_connection
          (if is_empty input then none else some (sec_buffer input)) max_token_buffer in
      let known =
        final.initializes w c.cred (current c.started c.ctx) c.target_name req_connection
          (if is_empty input then none else some (sec_buffer input)) max_token_buffer in
      concluded-HoldsFor creds ctxs w _ c _ h law.0 law.1.0 known law.1.1

  run-HoldsFor :
      (creds ctxs : List Handle) (inputs : List Bytes) (w : W) (c : SspiClient)
      → HoldsFor creds ctxs w c
      → let (v, d) = run api w c inputs in HoldsFor creds ctxs v d
  unfolding run
  run-HoldsFor creds ctxs [] w c h = h
  run-HoldsFor creds ctxs (input ∷ inputs) w c h =
      run-HoldsFor creds ctxs inputs _ _ (next-HoldsFor creds ctxs w c input h)

  pub close-started :
      (creds ctxs : List Handle) (w : W) (c : SspiClient)
      → HoldsFor creds ctxs w c
      → (books.creds (close api w c) ≡ creds) × (books.ctxs (close api w c) ≡ ctxs)
  unfolding close
  close-started creds ctxs w c h = close-Holds api books kept creds ctxs w c.cred c.started c.ctx h

  -- No client and the open handles as before, or a client that holds new credentials.
  abbrev pub MadeFrom : W → W × Option SspiClient → Type 0
  MadeFrom w (v, none) = (books.creds v ≡ books.creds w) × (books.ctxs v ≡ books.ctxs w)
  MadeFrom w (v, some c) = HoldsFor (books.creds w) (books.ctxs w) v c

  acquired-MadeFrom :
      (w : W) (target : Option Wide) (v : W) (ret : ℕ) (cred : Handle)
      → books.creds v
        ≡ elim (uint32 ret == sec_e_ok) [ true ↦ cred ∷ books.creds w | false ↦ books.creds w ]
      → books.ctxs v ≡ books.ctxs w
      → MadeFrom w (acquired target (v, (ret, cred)))
  acquired-MadeFrom w target v ret cred more same = elim (Bool-cases (uint32 ret == sec_e_ok)) [
    | inl t ↦ rw t (more ∙ rw t refl, same)
    | inr t ↦ rw t (more ∙ rw t refl, same)
  ]

  pub new_token_client-MadeFrom :
      (split_host_port : Bytes → Option Bytes) (w : W) (pkg : Bytes) (creds : Credentials)
      (target : Bytes)
      → MadeFrom w (new_token_client api split_host_port w pkg creds target)
  unfolding new_token_client acquire_client
  new_token_client-MadeFrom split_host_port w pkg creds target =
      elim (Option-cases (api.utf16 pkg)) [
        | inl e ↦ rw e (refl, refl)
        | inr (wide, e) ↦
            let law = kept.acquired w wide secpkg_cred_outbound (identity_of api.utf16 creds) in
            rw e (
              acquired-MadeFrom w (target_name_of api.utf16 split_host_port target) _ _ _ law.0
                law.1)
      ]

  -- Where Windows keeps its books as documented and never asks for CompleteAuthToken, a client that newTokenClient made, that answered any
  -- inputs with Next, and that is closed leaves the handles that were open before: it has freed
  -- its own credentials and context, and no others.
  pub run-HasNoLeak :
      (split_host_port : Bytes → Option Bytes) (w v : W) (pkg : Bytes) (creds : Credentials)
      (target : Bytes) (c : SspiClient) (inputs : List Bytes)
      → new_token_client api split_host_port w pkg creds target ≡ (v, some c)
      → let (u, d) = run api v c inputs in
        (books.creds (close api u d) ≡ books.creds w) × (books.ctxs (close api u d) ≡ books.ctxs w)
  run-HasNoLeak split_host_port w v pkg creds target c inputs made =
      let held =
        subst (MadeFrom w) made (new_token_client-MadeFrom split_host_port w pkg creds target) in
      close-started _ _ _ _ (run-HoldsFor _ _ inputs v c held)
