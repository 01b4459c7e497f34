-- ===== src/Proxy/Tunnel/Delivery.antt =====
-- internal/proxy/tunnel.go: what a relay delivers, and when it closes a connection.
use px_go.Prelude.{ℕ, ◌≡◌, refl, sym, ap, ◌∙◌, Bool, true, false, [], ◌∷◌, ◌++◌}
use mathlib.Core.List.{append_assoc}
use px_go.Strings.{Bytes}
use px_go.Proxy.Tunnel.{
  Conn, ReadError, no_error, eof, failed, Ending, at_eof, read_failed, write_failed, Pump, reading,
  writing, half_closing, done, after_read, src_after, dst_write, PumpStep, read, write, fail_write,
  half_close, Relay, start_relay, close_conn, RelayStep, step_right, step_left, wait, RelayRun,
  stay, go,
}

-- What a pump that left its loop has delivered of what it read: all of it, or after a failed write a
-- first part.
abbrev pub EndDelivers : Ending → Conn → Conn → Type 0
EndDelivers write_failed dst src = (rest : Bytes) × (dst.sent ++ rest ≡ src.received)
EndDelivers at_eof dst src = dst.sent ≡ src.received
EndDelivers read_failed dst src = dst.sent ≡ src.received

-- What a pump has delivered: what it read, but for the chunk that it is about to write.
abbrev pub Delivers : Pump → Conn → Conn → Type 0
Delivers reading dst src = dst.sent ≡ src.received
Delivers (writing chunk err) dst src = dst.sent ++ chunk ≡ src.received
Delivers (half_closing e) dst src = EndDelivers e dst src
Delivers (done e) dst src = EndDelivers e dst src

after_read-Delivers :
    (err : ReadError) (dst src : Conn)
    → dst.sent ≡ src.received
    → Delivers (after_read err) dst (src_after err src)
after_read-Delivers no_error dst src h = h
after_read-Delivers eof dst src h = h
after_read-Delivers failed dst src h = h

PumpStep-Delivers :
    {n : ℕ} {p q : Pump} {dst dst' src src' : Conn}
    → PumpStep n p dst src q dst' src'
    → Delivers p dst src
    → Delivers q dst' src'
PumpStep-Delivers (read [] err dst src) h = after_read-Delivers err dst src h
PumpStep-Delivers (read (c ∷ chunk) err dst src) h = ap (λ s. s ++ (c ∷ chunk)) h
PumpStep-Delivers (write chunk err dst src o) h =
    after_read-Delivers err (dst_write chunk dst) src h
PumpStep-Delivers (fail_write part rest err dst src o) h =
    (rest, append_assoc dst.sent part rest ∙ h)
PumpStep-Delivers (half_close at_eof dst src) h = h
PumpStep-Delivers (half_close read_failed dst src) h = h
PumpStep-Delivers (half_close write_failed dst src) h = h

-- What a step of a pump leaves alone: what was read from `dst`, what was written to `src`, and
-- whether `dst` is closed.
abbrev Leaves : Conn → Conn → Conn → Conn → Type 0
Leaves dst src dst' src' =
    (dst'.received ≡ dst.received) × (src'.sent ≡ src.sent) × (dst'.closed ≡ dst.closed)

src_after-sent : (err : ReadError) (src : Conn) → (src_after err src).sent ≡ src.sent
src_after-sent no_error src = refl
src_after-sent eof src = refl
src_after-sent failed src = refl

PumpStep-Leaves :
    {n : ℕ} {p q : Pump} {dst dst' src src' : Conn}
    → PumpStep n p dst src q dst' src'
    → Leaves dst src dst' src'
PumpStep-Leaves (read [] err dst src) = (refl, src_after-sent err src, refl)
PumpStep-Leaves (read (c ∷ chunk) err dst src) = (refl, refl, refl)
PumpStep-Leaves (write chunk err dst src o) = (refl, src_after-sent err src, refl)
PumpStep-Leaves (fail_write part rest err dst src o) = (refl, refl, refl)
PumpStep-Leaves (half_close e dst src) = (refl, refl, refl)

EndDelivers-subst :
    (e : Ending) (dst src dst' src' : Conn)
    → dst'.sent ≡ dst.sent
    → src'.received ≡ src.received
    → EndDelivers e dst src
    → EndDelivers e dst' src'
EndDelivers-subst at_eof dst src dst' src' a b h = a ∙ h ∙ sym b
EndDelivers-subst read_failed dst src dst' src' a b h = a ∙ h ∙ sym b
EndDelivers-subst write_failed dst src dst' src' a b (rest, h) =
    (rest, ap (λ s. s ++ rest) a ∙ h ∙ sym b)

Delivers-subst :
    (p : Pump) (dst src dst' src' : Conn)
    → dst'.sent ≡ dst.sent
    → src'.received ≡ src.received
    → Delivers p dst src
    → Delivers p dst' src'
Delivers-subst reading dst src dst' src' a b h = a ∙ h ∙ sym b
Delivers-subst (writing chunk err) dst src dst' src' a b h = ap (λ s. s ++ chunk) a ∙ h ∙ sym b
Delivers-subst (half_closing e) dst src dst' src' a b h =
    EndDelivers-subst e dst src dst' src' a b h
Delivers-subst (done e) dst src dst' src' a b h = EndDelivers-subst e dst src dst' src' a b h

-- Both directions
abbrev pub IsFaithful : Relay → Type 0
IsFaithful r = Delivers r.to_right r.right r.left × Delivers r.to_left r.left r.right

RelayStep-IsFaithful : {n : ℕ} {r s : Relay} → RelayStep n r s → IsFaithful r → IsFaithful s
RelayStep-IsFaithful (step_right n r p dst src d) (a, b) =
    let (received, sent, _) = PumpStep-Leaves d in
    (PumpStep-Delivers d a, Delivers-subst r.to_left r.left r.right src dst sent received b)
RelayStep-IsFaithful (step_left n r p dst src d) (a, b) =
    let (received, sent, _) = PumpStep-Leaves d in
    (Delivers-subst r.to_right r.right r.left src dst sent received a, PumpStep-Delivers d b)
RelayStep-IsFaithful (wait r e f l h o) (a, b) = (
  Delivers-subst r.to_right r.right r.left (close_conn r.right) (close_conn r.left) refl refl a,
  Delivers-subst r.to_left r.left r.right (close_conn r.left) (close_conn r.right) refl refl b,
)

-- In any interleaving of the two pumps, each connection has been sent, in order, what was read from
-- the other one: all of it but for a chunk that is about to be written, and after a failed write a
-- first part of it.
pub RelayRun-IsFaithful : (k m : ℕ) (r : Relay) → RelayRun k m start_relay r → IsFaithful r
RelayRun-IsFaithful k m r (stay s) = (refl, refl)
RelayRun-IsFaithful k m r (go k' m' n s t u run step) =
    RelayStep-IsFaithful step (RelayRun-IsFaithful k' m' t run)

-- The pump met an error of `Read` other than EOF.
abbrev pub has_lost : Pump → Bool
has_lost (half_closing read_failed) = true
has_lost (done read_failed) = true
has_lost _ = false

-- A relay that is not finished has closed exactly the connections whose reading failed.
abbrev pub KeepsOpen : Relay → Type 0
KeepsOpen r =
    r.finished ≡ false
    → (r.left.closed ≡ has_lost r.to_right) × (r.right.closed ≡ has_lost r.to_left)
