-- ===== src/Auth/Negotiate/Sspi/Exchange.antt =====
-- A session NEGOTIATE of internal/auth/auth.go that speaks through the SSPI client of
-- internal/auth/sspi_windows.go, from newNegotiateSession to Close.
use mathlib.Core.Path.{subst}
use px_go.Prelude.{
  ◌≡◌, refl, sym, Bool, true, false, List, [], ◌∷◌, Option, none, some, if◌then◌else◌,
}
use px_go.Strings.{Bytes, text}
use px_go.Auth.Session.{Credentials, Codec, Token}
use px_go.Auth.Negotiate.{
  NegotiateSession, Negotiators, new_negotiate_session, negotiate_token, sspi_input, after_next,
  next_token, undone_token,
}
use px_go.Auth.Negotiate.Sspi.{SspiClient, first_client, negotiators, close_session}
use px_go.Auth.Negotiate.Sspi.Handles.{
  HoldsFor, MadeFrom, next-HoldsFor, close-started, new_token_client-MadeFrom,
}
use px_go.Sspi.{Secur32}
use px_go.Sspi.Handles.{Books, IsKept, NeverCompletes}

module _ {C : Type 0} where
  -- The session after the calls of `Token` for some challenges, whatever they answer.
  unfoldable pub exchange :
      Codec → Negotiators C → NegotiateSession C → List Bytes → NegotiateSession C
  unfolding negotiate_token
  exchange codec services s [] = s
  exchange codec services s (challenge ∷ challenges) =
      exchange codec services (negotiate_token codec services s challenge).0 challenges

  after_next-sspi :
      (codec : Codec) (s : NegotiateSession C) (c : C) (out : Option (Bytes × Bool))
      → (after_next codec s (c, out)).0.sspi ≡ some c
  after_next-sspi codec s c none = refl
  after_next-sspi codec s c (some (o, complete)) = refl

module _ {W : Type 0} (api : Secur32 W) (books : Books W) (kept : IsKept api books)
    (final : NeverCompletes api) (codec : Codec) (split_host_port : Bytes → Option Bytes)
    (spnego : Bytes → Bytes → Bytes → Option Bytes) (w : W) where
  abbrev SspiSession : Type 0
  SspiSession = NegotiateSession (W × SspiClient)

  -- The session has no client, or one that holds its own handles only.
  abbrev HoldsOwn : Option (W × SspiClient) → Type 0
  HoldsOwn none = Unit
  HoldsOwn (some (v, c)) = HoldsFor api books kept final (books.creds w) (books.ctxs w) v c

  next_token-HoldsOwn :
      (s : SspiSession) (c : W × SspiClient) (input : Option Bytes)
      → HoldsOwn s.sspi
      → HoldsOwn (some c)
      → HoldsOwn (next_token codec (negotiators api split_host_port spnego w) s c input).0.sspi
  unfolding negotiators
  next_token-HoldsOwn s c none h g = h
  next_token-HoldsOwn s (v, c) (some input) h g =
      subst HoldsOwn (sym (after_next-sspi codec s _ _))
        (next-HoldsFor api books kept final (books.creds w) (books.ctxs w) v c input g)

  undone_token-HoldsOwn :
      (s : SspiSession) (challenge : Bytes) (o : Option (W × SspiClient))
      → s.sspi ≡ o
      → HoldsOwn s.sspi
      → HoldsOwn
          (undone_token codec (negotiators api split_host_port spnego w) s challenge o).0.sspi
  undone_token-HoldsOwn s challenge none e h = h
  undone_token-HoldsOwn s challenge (some c) e h =
      next_token-HoldsOwn s c (sspi_input codec challenge) h (subst HoldsOwn e h)

  if-HoldsOwn :
      (b : Bool) (x y : SspiSession × Token)
      → HoldsOwn x.0.sspi
      → HoldsOwn y.0.sspi
      → HoldsOwn (if b then x else y).0.sspi
  if-HoldsOwn true x y h g = h
  if-HoldsOwn false x y h g = g

  negotiate_token-HoldsOwn :
      (s : SspiSession) (challenge : Bytes)
      → HoldsOwn s.sspi
      → HoldsOwn
          (negotiate_token codec (negotiators api split_host_port spnego w) s challenge).0.sspi
  unfolding negotiate_token
  negotiate_token-HoldsOwn s challenge h =
      if-HoldsOwn s.done _ _ h (undone_token-HoldsOwn s challenge s.sspi refl h)

  exchange-HoldsOwn :
      (challenges : List Bytes) (s : SspiSession)
      → HoldsOwn s.sspi
      → HoldsOwn (exchange codec (negotiators api split_host_port spnego w) s challenges).sspi
  unfolding exchange
  exchange-HoldsOwn [] s h = h
  exchange-HoldsOwn (challenge ∷ challenges) s h =
      exchange-HoldsOwn challenges _ (negotiate_token-HoldsOwn s challenge h)

  first_client-HoldsOwn :
      (r : W × Option SspiClient) → MadeFrom api books kept final w r → HoldsOwn (first_client r)
  first_client-HoldsOwn (v, none) h = tt
  first_client-HoldsOwn (v, some c) h = h

  new_negotiate_session-HoldsOwn :
      (creds : Credentials) (target : Bytes)
      → HoldsOwn
          (new_negotiate_session (negotiators api split_host_port spnego w) creds target).sspi
  unfolding new_negotiate_session negotiators
  new_negotiate_session-HoldsOwn creds target = first_client-HoldsOwn _ (
      new_token_client-MadeFrom api books kept final split_host_port w (text "Negotiate") creds
        target)

  close_session-HoldsOwn :
      (s : SspiSession) (o : Option (W × SspiClient))
      → s.sspi ≡ o
      → HoldsOwn o
      → let u = close_session api w s in
        (books.creds u ≡ books.creds w) × (books.ctxs u ≡ books.ctxs w)
  unfolding close_session
  close_session-HoldsOwn s none e h = rw e (refl, refl)
  close_session-HoldsOwn s (some (v, c)) e h =
      rw e (close-started api books kept final (books.creds w) (books.ctxs w) v c h)

  -- Where Windows keeps its books as documented and no call asks for CompleteAuthToken, which the package
  -- Negotiate does not use, a session NEGOTIATE leaves the handles that were open
  -- before newNegotiateSession when it is closed, whichever challenges Token got and whatever it
  -- answered: the credentials and the context of its SSPI client are freed, and no others.
  pub exchange-HasNoLeak :
      (creds : Credentials) (target : Bytes) (challenges : List Bytes)
      → let services = negotiators api split_host_port spnego w in
        let s = exchange codec services (new_negotiate_session services creds target) challenges in
        let u = close_session api w s in
        (books.creds u ≡ books.creds w) × (books.ctxs u ≡ books.ctxs w)
  exchange-HasNoLeak creds target challenges =
      let services = negotiators api split_host_port spnego w in
      let session = new_negotiate_session services creds target in
      close_session-HoldsOwn (exchange codec services session challenges) _ refl
        (exchange-HoldsOwn challenges session (new_negotiate_session-HoldsOwn creds target))
