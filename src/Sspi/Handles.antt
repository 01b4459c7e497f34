-- ===== src/Sspi/Handles.antt =====
-- Which handles of Windows are open, and what its documentation says of the calls that open and
-- free them, for the package Negotiate.
use px_go.Prelude.{
  ℕ, ◌≡◌, refl, ap, arith, Bool, true, false, List, ◌∷◌, Option, none, some, ◌==◌, inl, inr,
  Bool-cases, if◌then◌else◌, ◌∙◌, ◌||◌,
}
use px_go.Sspi.{
  Handle, Wide, uint32, sec_e_ok, SecBuffer, SecWinntAuthIdentity, Reply, Secur32, succeeds,
  completes, current,
}

-- The open handles, the latest first.
pub record Books (W : Type 0) : Type 0 where
  pub creds : W → List Handle
  pub ctxs : W → List Handle

-- What a call that takes the context `ctx` does to the contexts: without one it opens one at each
-- of the four documented successes, with one it goes on with it.
abbrev pub after : Option Handle → Reply → List Handle → List Handle
after none r l = elim (succeeds r.ret || completes r.ret) [ true ↦ r.new_ctx ∷ l | false ↦ l ]
after (some c) r l = l

-- A call that goes on with a context and succeeds gives that context.
abbrev pub Continues : Option Handle → Reply → Type 0
Continues none r = Unit
Continues (some c) r = (succeeds r.ret || completes r.ret) ≡ true → r.new_ctx ≡ c

pub record IsKept {W : Type 0} (api : Secur32 W) (books : Books W) : Type 0 where
  pub acquired :
      (w : W) (pkg : Wide) (cred_use : ℕ) (identity : Option SecWinntAuthIdentity)
      → let (v, (ret, handle)) = api.acquire w pkg cred_use identity in
        (books.creds v
          ≡ elim (uint32 ret == sec_e_ok) [ true ↦ handle ∷ books.creds w | false ↦ books.creds w ])
        × (books.ctxs v ≡ books.ctxs w)
  pub initialized :
      (w : W) (cred : Handle) (ctx : Option Handle) (target : Option Wide) (flags : ℕ)
      (input : Option SecBuffer) (size : ℕ)
      → let (v, r) = api.initialize w cred ctx target flags input size in
        (books.creds v ≡ books.creds w)
        × ((books.ctxs v ≡ after ctx r (books.ctxs w)) × Continues ctx r)
  pub accepted :
      (w : W) (cred : Handle) (ctx : Option Handle) (input : SecBuffer) (flags size : ℕ)
      → let (v, r) = api.accept w cred ctx input flags size in
        (books.creds v ≡ books.creds w)
        × ((books.ctxs v ≡ after ctx r (books.ctxs w)) × Continues ctx r)
  pub deleted :
      (w : W) (ctx : Handle) (l : List Handle)
      → books.ctxs w ≡ ctx ∷ l
      → (books.ctxs (api.delete_context w ctx) ≡ l)
        × (books.creds (api.delete_context w ctx) ≡ books.creds w)
  pub freed :
      (w : W) (cred : Handle) (l : List Handle)
      → books.creds w ≡ cred ∷ l
      → (books.creds (api.free_credentials w cred) ≡ l)
        × (books.ctxs (api.free_credentials w cred) ≡ books.ctxs w)

-- No call answers SEC_I_COMPLETE_NEEDED or SEC_I_COMPLETE_AND_CONTINUE. Only the package Digest asks for
-- CompleteAuthToken, and the program names the package Negotiate, which is Kerberos or NTLM.
pub record NeverCompletes {W : Type 0} (api : Secur32 W) : Type 0 where
  pub initializes :
      (w : W) (cred : Handle) (ctx : Option Handle) (target : Option Wide) (flags : ℕ)
      (input : Option SecBuffer) (size : ℕ)
      → completes (api.initialize w cred ctx target flags input size).1.ret ≡ false
  pub accepts :
      (w : W) (cred : Handle) (ctx : Option Handle) (input : SecBuffer) (flags size : ℕ)
      → completes (api.accept w cred ctx input flags size).1.ret ≡ false

-- The contexts with the one that a session holds once it has started.
abbrev pub held : Bool → Handle → List Handle → List Handle
held true ctx l = ctx ∷ l
held false ctx l = l

-- A session has one handle of credentials and, once it has started, one context, above the
-- handles `creds` and `ctxs` of others.
abbrev pub Holds :
    {W : Type 0} → Books W → List Handle → List Handle → W → Handle → Bool → Handle → Type 0
Holds books creds ctxs w cred started ctx =
    (books.creds w ≡ cred ∷ creds) × (books.ctxs w ≡ held started ctx ctxs)

-- Unless it completes, a call with the session's context leaves one context, which is the one it answers if it succeeds
-- and the session's own if it does not.
pub after-current :
    (started : Bool) (ctx : Handle) (r : Reply) (l : List Handle)
    → completes r.ret ≡ false
    → Continues (current started ctx) r
    → after (current started ctx) r (held started ctx l)
      ≡ elim (succeeds r.ret) [ true ↦ r.new_ctx ∷ l | false ↦ held started ctx l ]
after-current true ctx r l f h = elim (Bool-cases (succeeds r.ret)) [
  | inl t ↦ rw (t, h (rw t refl)) refl
  | inr t ↦ rw t refl
]
after-current false ctx r l f h =
    let known : (succeeds r.ret || completes r.ret) ≡ succeeds r.ret = ground (arith, f) in
    ap (λ b. elim b [ true ↦ r.new_ctx ∷ l | false ↦ l ]) known

-- `Close` of both: it deletes the context of a session that has started, and frees the credentials.
pub close-Holds :
    {W : Type 0} (api : Secur32 W) (books : Books W)
    → IsKept api books
    → (creds ctxs : List Handle) (w : W) (cred : Handle) (started : Bool) (ctx : Handle)
    → Holds books creds ctxs w cred started ctx
    → let v = api.free_credentials (if started then api.delete_context w ctx else w) cred in
      (books.creds v ≡ creds) × (books.ctxs v ≡ ctxs)
close-Holds api books kept creds ctxs w cred true ctx h =
    let one = kept.deleted w ctx ctxs h.1 in
    let two = kept.freed (api.delete_context w ctx) cred creds (one.1 ∙ h.0) in
    (two.0, two.1 ∙ one.0)
close-Holds api books kept creds ctxs w cred false ctx h =
    let two = kept.freed w cred creds h.0 in (two.0, two.1 ∙ h.1)
