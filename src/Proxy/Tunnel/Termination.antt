-- ===== src/Proxy/Tunnel/Termination.antt =====
-- internal/proxy/tunnel.go: how a relay comes to its end.
use px_go.Prelude.{ℕ, ◌+◌, ◌*◌, ◌≤◌, [], ◌∷◌, arith, if◌then◌else◌}
use px_go.Proxy.Tunnel.{
  Conn, ReadError, no_error, eof, failed, Pump, reading, writing, half_closing, done, after_read,
  PumpStep, read, write, fail_write, half_close, Relay, start_relay, RelayStep, step_right,
  step_left, wait, RelayRun, stay, go,
}

-- The steps that a pump still makes if no read goes on.
abbrev left_of_pump : Pump → ℕ
left_of_pump reading = 2
left_of_pump (writing chunk err) = 3
left_of_pump (half_closing e) = 1
left_of_pump (done e) = 0

abbrev left_of : Relay → ℕ
left_of r = left_of_pump r.to_left + (left_of_pump r.to_right + (if r.finished then 0 else 1))

after_read-left : (err : ReadError) → left_of_pump (after_read err) ≤ 2
after_read-left no_error = omega arith
after_read-left eof = omega arith
after_read-left failed = omega arith

PumpStep-left :
    {n : ℕ} {p q : Pump} {dst dst' src src' : Conn}
    → PumpStep n p dst src q dst' src'
    → 1 + left_of_pump q ≤ left_of_pump p + 2 * n
PumpStep-left (read [] no_error dst src) = omega arith
PumpStep-left (read [] eof dst src) = omega arith
PumpStep-left (read [] failed dst src) = omega arith
PumpStep-left (read (c ∷ chunk) err dst src) = omega arith
PumpStep-left (write chunk err dst src o) = omega (arith, after_read-left err)
PumpStep-left (fail_write part rest err dst src o) = omega arith
PumpStep-left (half_close e dst src) = omega arith

RelayStep-left : {n : ℕ} {r s : Relay} → RelayStep n r s → 1 + left_of s ≤ left_of r + 2 * n
RelayStep-left (step_right n r p dst src d) = omega (arith, PumpStep-left d)
RelayStep-left (step_left n r p dst src d) = omega (arith, PumpStep-left d)
RelayStep-left (wait r e f l h o) = ground (arith, o)

RelayRun-left : (k m : ℕ) (r s : Relay) → RelayRun k m r s → k + left_of s ≤ left_of r + 2 * m
RelayRun-left k m r s (stay t) = omega arith
RelayRun-left k m r s (go k' m' n t u v run step) =
    omega (arith, RelayRun-left k' m' r u run, RelayStep-left step)

-- In any interleaving a relay makes at most five steps more than twice the number of its reads that
-- bring a chunk or no error.
pub RelayRun-bounded : (k m : ℕ) (r : Relay) → RelayRun k m start_relay r → k ≤ 5 + 2 * m
RelayRun-bounded k m r run = omega (arith, RelayRun-left k m start_relay r run)
