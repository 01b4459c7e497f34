-- ===== src/Proxy/Upstream/Connections.antt =====
-- The connections that the exchanges of internal/proxy/handler.go leave open.
use px_go.Prelude.{
  ℕ, zero, suc, ◌+◌, ◌≤◌, ◌≡◌, inl, inr, refl, Bool, true, false, [], Option, none, some, arith,
  Bool-cases,
}
use px_go.Strings.{Bytes}
use px_go.Auth.Session.{Session}
use px_go.Proxy.Upstream.{
  Attempt, write_error, read_error, response, Exchange, unanswered, no_scheme, Answered, answered,
  not_answered, answer_challenge, Conns, ConnectResult, tunnel, connect_error, ConnectRest,
  connect_answered, connect_attempt, connect_loop, connect_via_proxy, RoundTrip, RoundTripRest,
  round_trip_answered, round_trip_attempt, round_trip_loop, round_trip_proxy,
}

-- The connections that `connectViaProxy` leaves open: the tunnel, and one that no one closes
-- when the challenge cannot be answered.
abbrev pub left_open : ConnectResult → ℕ
left_open tunnel = 1
left_open (connect_error (unanswered _)) = 1
left_open (connect_error _) = 0

abbrev ConnectCounts : Conns → Conns × ConnectResult → Type 0
ConnectCounts k (after, r) = (after.opened ≡ k.opened) × (after.closed + left_open r ≡ k.closed + 1)

connect_answered-conns :
    (again : ConnectRest)
    → ((s : Session) (h : Bytes) (k : Conns) → ConnectCounts k (again s h k))
    → (k : Conns) (a : Answered) → ConnectCounts k (connect_answered again k a)
unfolding connect_answered
connect_answered-conns again rest k (answered s h) = rest s h k
connect_answered-conns again rest k (not_answered e) = (refl, refl)

connect_attempt-conns :
    (x : Exchange) (again : ConnectRest)
    → ((s : Session) (h : Bytes) (k : Conns) → ConnectCounts k (again s h k))
    → (n : ℕ) (session : Option Session) (k : Conns) (a : Attempt)
    → ConnectCounts k (connect_attempt x again n session k a)
unfolding connect_attempt
connect_attempt-conns x again rest n session k write_error = (refl, omega arith)
connect_attempt-conns x again rest n session k read_error = (refl, omega arith)
connect_attempt-conns x again rest n session k (response status challenges ends) =
    let counted = connect_answered-conns again rest k (answer_challenge x n session challenges) in
    ground arith

connect_loop-conns :
    (x : Exchange) (left n : ℕ) (session : Option Session) (header : Bytes) (k : Conns)
    → ConnectCounts k (connect_loop x left n session header k)
unfolding connect_loop
connect_loop-conns x zero n session header k = (refl, omega arith)
connect_loop-conns x (suc left) n session header k =
    connect_attempt-conns x _ (λ s h k'. connect_loop-conns x left (n + 1) (some s) h k') n session
      k (x.attempts n header)

-- `connectViaProxy` dials once, and every connection that it opens is closed or left open:
-- as the tunnel that it returns or, in the three cases where the challenge cannot be answered
-- (no scheme that both sides accept, no session, no token), by no one.
pub connect_via_proxy-conns :
    (x : Exchange)
    → let (after, r) = connect_via_proxy x in
      (after.opened ≤ 1) × (after.opened ≡ after.closed + left_open r)
unfolding connect_via_proxy
connect_via_proxy-conns x = elim (Bool-cases (x.dials 0)) [
  | inl t ↦
      let (opened, closed) = connect_loop-conns x 4 0 none [] (record { opened = 1; closed = 0 }) in
      rw t (omega arith, omega arith)
  | inr t ↦ rw t (omega arith, omega arith)
]

abbrev count_open : Bool → ℕ
count_open true = 1
count_open false = 0

-- At most `left` connections are opened, and all are closed again.
abbrev RoundTripCounts : ℕ → Bool → Conns → Conns × RoundTrip → Type 0
RoundTripCounts left conn k (after, r) =
    (k.opened + after.closed ≡ k.closed + after.opened + count_open conn)
    × (after.opened ≤ k.opened + left)

round_trip_answered-conns :
    (again : RoundTripRest) (left : ℕ)
    → ((s : Session) (h : Bytes) (c : Bool) (k : Conns) → RoundTripCounts left c k (again s h c k))
    → (status : ℕ) (ends : Bool) (k : Conns) (a : Answered)
    → RoundTripCounts left true k (round_trip_answered again status ends k a)
unfolding round_trip_answered
round_trip_answered-conns again left rest status true k (answered s h) =
    let counted = rest s h false (record k { closed = k.closed + 1 }) in (omega arith, omega arith)
round_trip_answered-conns again left rest status false k (answered s h) =
    let counted = rest s h true k in (omega arith, omega arith)
round_trip_answered-conns again left rest status ends k (not_answered no_scheme) =
    (omega arith, omega arith)
round_trip_answered-conns again left rest status ends k (not_answered e) =
    (omega arith, omega arith)

round_trip_attempt-conns :
    (x : Exchange) (again : RoundTripRest) (left : ℕ)
    → ((s : Session) (h : Bytes) (c : Bool) (k : Conns) → RoundTripCounts left c k (again s h c k))
    → (n : ℕ) (session : Option Session) (k : Conns) (a : Attempt)
    → RoundTripCounts left true k (round_trip_attempt x again n session k a)
unfolding round_trip_attempt
round_trip_attempt-conns x again left rest n session k write_error = (omega arith, omega arith)
round_trip_attempt-conns x again left rest n session k read_error = (omega arith, omega arith)
round_trip_attempt-conns x again left rest n session k (response status challenges ends) =
    let counted =
      round_trip_answered-conns again left rest status ends k
        (answer_challenge x n session challenges) in
    ground arith

round_trip_loop-conns :
    (x : Exchange) (left n : ℕ) (session : Option Session) (header : Bytes) (conn : Bool)
    (k : Conns)
    → RoundTripCounts left conn k (round_trip_loop x left n session header conn k)
unfolding round_trip_loop
round_trip_loop-conns x zero n session header true k = (omega arith, omega arith)
round_trip_loop-conns x zero n session header false k = (omega arith, omega arith)
round_trip_loop-conns x (suc left) n session header true k =
    let counted =
      round_trip_attempt-conns x (λ s h c k'. round_trip_loop x left (n + 1) (some s) h c k') left
        (λ s h c k'. round_trip_loop-conns x left (n + 1) (some s) h c k') n session k
        (x.attempts n header) in
    (omega arith, omega arith)
round_trip_loop-conns x (suc left) n session header false k = elim (Bool-cases (x.dials n)) [
  | inl t ↦
      let counted =
        round_trip_attempt-conns x (λ s h c k'. round_trip_loop x left (n + 1) (some s) h c k') left
          (λ s h c k'. round_trip_loop-conns x left (n + 1) (some s) h c k') n session
          (record k { opened = k.opened + 1 }) (x.attempts n header) in
      rw t (omega arith, omega arith)
  | inr t ↦ rw t (omega arith, omega arith)
]

-- `roundTripProxy` makes at most four connections, and when it returns every one of them is
-- closed, also the one that the body of a returned response is still to be read from.
pub round_trip_proxy-conns :
    (x : Exchange)
    → let (after, r) = round_trip_proxy x in (after.opened ≤ 4) × (after.closed ≡ after.opened)
unfolding round_trip_proxy
round_trip_proxy-conns x =
    let counted = round_trip_loop-conns x 4 0 none [] false (record { opened = 0; closed = 0 }) in
    (omega arith, omega arith)
