-- ===== src/Tests/SspiRuns.antt =====
-- A system with handles that counts them, on which the SSPI client and server run.
use px_go.Prelude.{
  ℕ, suc, ◌≡◌, refl, Bool, true, false, List, [], ◌∷◌, Option, none, some, drop, arith, ltb, ◌&&◌,
  All,
}
use px_go.Strings.{Bytes, text}
use px_go.Auth.Session.{Credentials, Codec, failed}
use px_go.Auth.Negotiate.{new_negotiate_session}
use px_go.Auth.Negotiate.Sspi.Exchange.{exchange, exchange-HasNoLeak}
use px_go.Auth.Negotiate.Sspi.{
  SspiClient, identity_of, new_token_client, close, negotiators, close_session,
}
use px_go.Auth.Negotiate.Sspi.Handles.{run, run-HasNoLeak}
use px_go.Auth.Negotiate.Sspi.Identity.{IsSized, IsAscii, identity_of-IsSized}
use px_go.ClientAuth.{State, new_state}
use px_go.ClientAuth.Sspi.{SspiServer, new_negotiate_server, close_state}
use px_go.ClientAuth.Sspi.Handles as Served
use px_go.Sspi.{
  Handle, Wide, SecWinntAuthIdentity, Reply, Secur32, sec_i_continue_needed, completes,
}
use px_go.Sspi.Handles.{Books, IsKept, NeverCompletes, after, Continues}

record Desk : Type 0 where
  creds : List Handle
  ctxs : List Handle
  fresh : ℕ

abbrev answer : Desk → Option Handle → Desk × Reply
answer w none = (
  record w { ctxs = w.fresh ∷ w.ctxs; fresh = suc w.fresh },
  record { ret = sec_i_continue_needed; new_ctx = w.fresh; out = text "one" },
)
answer w (some c) = (w, record { ret = 0; new_ctx = c; out = text "two" })

abbrev counting : Secur32 Desk
counting = record {
  utf16 = some;
  acquire = λ w pkg cred_use identity.
      (record w { creds = w.fresh ∷ w.creds; fresh = suc w.fresh }, (0, w.fresh));
  initialize = λ w cred ctx target flags input size. answer w ctx;
  accept = λ w cred ctx input flags size. answer w ctx;
  delete_context = λ w ctx. record w { ctxs = drop 1 w.ctxs };
  free_credentials = λ w cred. record w { creds = drop 1 w.creds };
}

abbrev books : Books Desk
books = record { creds = λ w. w.creds; ctxs = λ w. w.ctxs }

answer-Continues :
    (w : Desk) (ctx : Option Handle)
    → let (v, r) = answer w ctx in
      (v.creds ≡ w.creds) × ((v.ctxs ≡ after ctx r w.ctxs) × Continues ctx r)
answer-Continues w none = (refl, (refl, tt))
answer-Continues w (some c) = (refl, (refl, λ e. refl))

counting-IsKept : IsKept counting books
counting-IsKept = record {
  acquired = λ w pkg cred_use identity. (refl, refl);
  initialized = λ w cred ctx target flags input size. answer-Continues w ctx;
  accepted = λ w cred ctx input flags size. answer-Continues w ctx;
  deleted = λ w ctx l e. (rw e refl, refl);
  freed = λ w cred l e. (rw e refl, refl);
}

answer_never_completes : (w : Desk) (ctx : Option Handle) → completes (answer w ctx).1.ret ≡ false
answer_never_completes w none = refl
answer_never_completes w (some c) = refl

counting-NeverCompletes : NeverCompletes counting
counting-NeverCompletes = record {
  initializes = λ w cred ctx target flags input size. answer_never_completes w ctx;
  accepts = λ w cred ctx input flags size. answer_never_completes w ctx;
}

-- A system on which others hold a context and credentials.
abbrev busy : Desk
busy = record { creds = 1 ∷ []; ctxs = 2 ∷ []; fresh = 3 }

abbrev acquired : Desk
acquired = record { creds = 3 ∷ 1 ∷ []; ctxs = 2 ∷ []; fresh = 4 }

abbrev joe : Credentials
joe = record { username = text "CORP\\joe"; password = text "secret" }

abbrev no_port : Bytes → Option Bytes
no_port host = none

abbrev client : SspiClient
client = record { cred = 3; ctx = 0; target_name = some (text "HTTP/proxy"); started = false }

made :
    new_token_client counting no_port busy (text "Negotiate") joe (text "proxy")
    ≡ (acquired, some client)
unfolding new_token_client
made = refl

abbrev inputs : List Bytes
inputs = [] ∷ text "challenge" ∷ []

closed_client_keeps_nothing :
    let (u, d) = run counting acquired client inputs in
    ((close counting u d).creds ≡ 1 ∷ []) × ((close counting u d).ctxs ≡ 2 ∷ [])
closed_client_keeps_nothing =
    run-HasNoLeak counting books counting-IsKept counting-NeverCompletes no_port busy acquired
      (text "Negotiate") joe (text "proxy") client inputs made

-- The same system with a package that asks for CompleteAuthToken in its first answer.
abbrev completing : Secur32 Desk
completing = record counting {
  initialize = λ w cred ctx target flags input size.
      let (v, r) = answer w ctx in (v, record r { ret = 590611 });
}

-- Next takes that answer for a failure, and the new context stays open behind Close.
leaks_a_context :
    let (u, d) = run completing acquired client ([] ∷ []) in
    (close completing u d).ctxs ≡ 4 ∷ 2 ∷ []
unfolding run px_go.Auth.Negotiate.Sspi.next close
leaks_a_context = refl

abbrev codec : Codec
codec = record {
  base64 = λ s. s;
  unbase64 = λ s. some s;
  md5_hex = λ s. s;
  ntlm_negotiate = none;
  ntlm_authenticate = λ challenge creds. none;
  negotiate = λ n challenge. failed;
}

abbrev no_ticket : Bytes → Bytes → Bytes → Option Bytes
no_ticket user realm password = none

exchange-HasNoLeak_example :
    let services = negotiators counting no_port no_ticket busy in
    let s = exchange codec services (new_negotiate_session services joe (text "proxy")) inputs in
    let u = close_session counting busy s in (u.creds ≡ 1 ∷ []) × (u.ctxs ≡ 2 ∷ [])
exchange-HasNoLeak_example =
    exchange-HasNoLeak counting books counting-IsKept counting-NeverCompletes codec no_port
      no_ticket busy joe (text "proxy") inputs

abbrev server : SspiServer
server = record { cred = 3; ctx = 0; started = false }

served : new_negotiate_server counting busy ≡ (acquired, some server)
unfolding new_negotiate_server
served = refl

abbrev tokens : List Bytes
tokens = text "first" ∷ [] ∷ text "second" ∷ []

abbrev connection : State Unit SspiServer
connection = record new_state { sspi_server = some (Served.run counting acquired server tokens).1 }

close_state-HasNoLeak_example :
    let u = close_state counting (Served.run counting acquired server tokens).0 connection in
    (u.creds ≡ 1 ∷ []) × (u.ctxs ≡ 2 ∷ [])
close_state-HasNoLeak_example =
    Served.close_state-HasNoLeak counting books counting-IsKept counting-NeverCompletes busy
      acquired server connection tokens served refl

abbrev identity : SecWinntAuthIdentity
identity = record {
  user = some (text "joe");
  user_length = 3;
  domain = some (text "CORP");
  domain_length = 4;
  password = some (text "secret");
  password_length = 6;
  flags = 2;
}

identified : identity_of some joe ≡ some identity
unfolding identity_of
identified = refl

abbrev all_ascii : Bytes → Bool
all_ascii [] = true
all_ascii (c ∷ s) = ltb 0 c && ltb c 128 && all_ascii s

all_ascii-IsAscii : (s : Bytes) → all_ascii s ≡ true → All IsAscii s
all_ascii-IsAscii [] h = tt
all_ascii-IsAscii (c ∷ s) h = ((ground arith, ground arith), all_ascii-IsAscii s (ground arith))

identity_of-IsSized_example : IsSized identity
identity_of-IsSized_example =
    identity_of-IsSized some (λ s h. refl) joe identity
      (all_ascii-IsAscii joe.username refl, omega arith)
      (all_ascii-IsAscii joe.password refl, omega arith) identified

-- Two bytes of UTF-8, which are one unit of UTF-16.
abbrev muller : Bytes
muller = b'M' ∷ 195 ∷ 188 ∷ text "ller"

abbrev latin : Bytes → Option Wide
latin [] = some []
latin (c ∷ s) = some (b'M' ∷ 252 ∷ text "ller")

-- The length that is handed over for it is one more than its units.
muller_is_too_long :
    identity_of latin (record { username = muller; password = [] })
    ≡ some (record {
      user = some (b'M' ∷ 252 ∷ text "ller");
      user_length = 7;
      domain = none;
      domain_length = 0;
      password = some [];
      password_length = 0;
      flags = 2;
    })
unfolding identity_of
muller_is_too_long = refl
