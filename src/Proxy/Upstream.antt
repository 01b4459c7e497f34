-- ===== src/Proxy/Upstream.antt =====
-- internal/proxy/handler.go: `connectViaProxy` and `roundTripProxy`, the exchanges with one
-- upstream proxy, with their authentication loops. The network is the environment: whether each
-- dial succeeds, and what comes back for each attempt, given the Proxy-Authorization header sent.
-- The TCP connections opened and closed are counted.
pub mod Connections
use px_go.Prelude.{
  ℕ, zero, suc, ◌+◌, Bool, true, false, not, ◌||◌, List, [], ◌∷◌, ◌++◌, Option, none, some, ◌==◌,
  if◌then◌else◌,
}
use px_go.Strings.{Bytes, text, equal_fold}
use px_go.Auth.{choose_scheme, challenge_for_scheme}
use px_go.Auth.Session.{
  Credentials, Codec, Session, Token, token, failed, DigestRequest, scheme_of, new_session,
  take_token,
}

-- What an attempt brings back: the status, the Proxy-Authenticate values and `resp.Close`.
pub data Attempt : Type 0 where
  write_error : Attempt
  read_error : Attempt
  response : ℕ → List Bytes → Bool → Attempt

-- The configuration and the environment of one exchange. `attempts` is asked with the attempt's
-- number and the header sent; `nonces` are the client nonces that a digest session draws.
pub record Exchange : Type 0 where
  pub auth : Bytes
  pub creds : Credentials
  pub codec : Codec
  pub request : DigestRequest
  pub nonces : ℕ → Bytes
  pub dials : ℕ → Bool
  pub attempts : ℕ → Bytes → Attempt

-- Why a challenge gets no answer.
pub data ChallengeError : Type 0 where
  no_scheme no_session no_token : ChallengeError

pub data UpstreamError : Type 0 where
  dial_failed write_failed read_failed exhausted : UpstreamError
  unanswered : ChallengeError → UpstreamError
  refused : ℕ → UpstreamError

pub data Answered : Type 0 where
  answered : Session → Bytes → Answered
  not_answered : ChallengeError → Answered

abbrev from_token : Session × Token → Answered
from_token (s, token header finished) = answered s header
from_token (s, failed) = not_answered no_token

-- The `if session == nil { … } else { … }` of both loops. Only the case with no scheme differs
-- between them, and each of them handles it.
pub answer_challenge : Exchange → ℕ → Option Session → List Bytes → Answered
answer_challenge x n none challenges = elim (choose_scheme x.auth challenges) [
  | none ↦ not_answered no_scheme
  | some (scheme, challenge) ↦ elim (new_session x.creds scheme) [
    | none ↦ not_answered no_session
    | some s ↦ from_token (take_token x.codec s x.request challenge (x.nonces n))
  ]
]
answer_challenge x n (some s) challenges =
    from_token
      (take_token x.codec s x.request (challenge_for_scheme challenges (scheme_of s)) (x.nonces n))

abbrev pub no_auth : Exchange → Bool
no_auth x = equal_fold x.auth (text "NONE")

-- Connections opened and closed so far.
pub record Conns : Type 0 where
  pub opened : ℕ
  pub closed : ℕ

abbrev pub close_one : Conns → Conns
close_one k = record k { closed = k.closed + 1 }

abbrev pub open_one : Conns → Conns
open_one k = record k { opened = k.opened + 1 }

pub data ConnectResult : Type 0 where
  tunnel : ConnectResult
  connect_error : UpstreamError → ConnectResult

-- The rest of a loop: it takes the session, the header and the connections.
abbrev pub ConnectRest : Type 0
ConnectRest = Session → Bytes → Conns → Conns × ConnectResult

pub connect_answered : ConnectRest → Conns → Answered → Conns × ConnectResult
connect_answered again k (answered s next) = again s next k
connect_answered again k (not_answered e) = (k, connect_error (unanswered e))

-- What the loop of `connectViaProxy` does with what came back.
pub connect_attempt :
    Exchange → ConnectRest → ℕ → Option Session → Conns → Attempt → Conns × ConnectResult
unfolding connect_answered
connect_attempt x again n session k write_error = (close_one k, connect_error write_failed)
connect_attempt x again n session k read_error = (close_one k, connect_error read_failed)
connect_attempt x again n session k (response status challenges ends) =
    if status == 200
    then (k, tunnel)
    else if not (status == 407) || no_auth x
    then (close_one k, connect_error (refused status))
    else connect_answered again k (answer_challenge x n session challenges)

-- The rounds left of `for attempt := range 4` in `connectViaProxy`, the number of the attempt, the
-- session and the header.
pub connect_loop : Exchange → ℕ → ℕ → Option Session → Bytes → Conns → Conns × ConnectResult
unfolding connect_attempt answer_challenge
connect_loop x zero n session header k = (close_one k, connect_error exhausted)
connect_loop x (suc left) n session header k =
    connect_attempt x (λ s next k'. connect_loop x left (n + 1) (some s) next k') n session k
      (x.attempts n header)

unfoldable pub connect_via_proxy : Exchange → Conns × ConnectResult
unfolding connect_loop
connect_via_proxy x =
    let k : Conns = record { opened = 0; closed = 0 } in
    if x.dials 0 then connect_loop x 4 0 none [] (open_one k) else (k, connect_error dial_failed)

pub data RoundTrip : Type 0 where
  -- The response's status; its body is still to be read from the connection.
  responds : ℕ → RoundTrip
  round_trip_error : UpstreamError → RoundTrip

-- `closeConn`; the flag is `conn != nil`.
abbrev close_conn : Bool → Conns → Conns
close_conn conn k = if conn then close_one k else k

-- The rest of a loop: it takes the session, the header, `conn != nil` and the connections.
abbrev pub RoundTripRest : Type 0
RoundTripRest = Session → Bytes → Bool → Conns → Conns × RoundTrip

pub round_trip_answered : RoundTripRest → ℕ → Bool → Conns → Answered → Conns × RoundTrip
round_trip_answered again status ends k (answered s next) =
    again s next (not ends) (if ends then close_one k else k)
round_trip_answered again status ends k (not_answered no_scheme) = (close_one k, responds status)
round_trip_answered again status ends k (not_answered e) =
    (close_one k, round_trip_error (unanswered e))

-- What the loop of `roundTripProxy` does with what came back on an open connection. Every return
-- runs the deferred `closeConn`, also that of a response.
pub round_trip_attempt :
    Exchange → RoundTripRest → ℕ → Option Session → Conns → Attempt → Conns × RoundTrip
unfolding round_trip_answered
round_trip_attempt x again n session k write_error = (close_one k, round_trip_error write_failed)
round_trip_attempt x again n session k read_error = (close_one k, round_trip_error read_failed)
round_trip_attempt x again n session k (response status challenges ends) =
    if not (status == 407) || no_auth x
    then (close_one k, responds status)
    else round_trip_answered again status ends k (answer_challenge x n session challenges)

-- The rounds left of `for attempt := range 4` in `roundTripProxy`. The flag is `conn != nil`.
pub round_trip_loop : Exchange → ℕ → ℕ → Option Session → Bytes → Bool → Conns → Conns × RoundTrip
unfolding round_trip_attempt answer_challenge
round_trip_loop x zero n session header conn k = (close_conn conn k, round_trip_error exhausted)
round_trip_loop x (suc left) n session header conn k =
    if conn || x.dials n
    then round_trip_attempt x
        (λ s next conn' k'. round_trip_loop x left (n + 1) (some s) next conn' k') n session
        (if conn then k else open_one k) (x.attempts n header)
    else (k, round_trip_error dial_failed)

unfoldable pub round_trip_proxy : Exchange → Conns × RoundTrip
unfolding round_trip_loop
round_trip_proxy x = round_trip_loop x 4 0 none [] false (record { opened = 0; closed = 0 })
