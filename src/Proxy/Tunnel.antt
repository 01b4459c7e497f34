-- ===== src/Proxy/Tunnel.antt =====
-- internal/proxy/tunnel.go: `Relay`, which copies between two connections with one pump for each
-- direction. The pumps run as threads: a step of the relay is one call of either of them, in any
-- order. The deadlines are part of the environment, since a call that meets one returns an error.
pub mod Delivery
pub mod Termination
use px_go.Prelude.{ℕ, zero, suc, ◌+◌, ◌≡◌, Bool, true, false, List, [], ◌∷◌, ◌++◌}
use px_go.Strings.{Bytes}

-- A connection: what was read from it and written to it since the relay began, whether its write
-- side is shut, and whether it is closed.
pub record Conn : Type 0 where
  pub received : Bytes
  pub sent : Bytes
  pub write_closed : Bool
  pub closed : Bool

-- The error of `Read`
pub data ReadError : Type 0 where
  no_error eof failed : ReadError

-- Why a pump left its loop.
pub data Ending : Type 0 where
  at_eof read_failed write_failed : Ending

-- Where a pump is: before `Read`, before `Write` with what was read, before `closeWrite`, or at its
-- end.
pub data Pump : Type 0 where
  reading : Pump
  writing : Bytes → ReadError → Pump
  half_closing : Ending → Pump
  done : Ending → Pump

-- What a pump does with the error of `Read`, and what becomes of `src`.
abbrev pub after_read : ReadError → Pump
after_read no_error = reading
after_read eof = half_closing at_eof
after_read failed = half_closing read_failed

abbrev pub src_after : ReadError → Conn → Conn
src_after no_error src = src
src_after eof src = src
src_after failed src = record src { closed = true }

-- `Read` returns a chunk and an error: with a chunk that is not empty the pump goes on to `Write`.
abbrev pub pump_read : Bytes → ReadError → Pump
pump_read [] err = after_read err
pump_read (c ∷ chunk) err = writing (c ∷ chunk) err

abbrev pub src_read : Bytes → ReadError → Conn → Conn
src_read [] err src = src_after err src
src_read (c ∷ chunk) err src = record src { received = src.received ++ (c ∷ chunk) }

abbrev pub dst_write : Bytes → Conn → Conn
dst_write chunk dst = record dst { sent = dst.sent ++ chunk }

-- `closeWrite`
abbrev pub close_write : Conn → Conn
close_write dst = record dst { write_closed = true }

-- `Close`
abbrev pub close_conn : Conn → Conn
close_conn c = record c { closed = true }

-- The reads after which a pump may read once more count 1.
abbrev pub goes_on : Bytes → ReadError → ℕ
goes_on [] no_error = 1
goes_on [] eof = 0
goes_on [] failed = 0
goes_on (c ∷ chunk) err = 1

-- One call of `pump`, from its place, `dst` and `src` to those afterwards. A write that fails may have
-- sent a part of the chunk, and none of it to a closed connection.
pub data PumpStep : ℕ → Pump → Conn → Conn → Pump → Conn → Conn → Type 0 where
  read :
      (chunk : Bytes) (err : ReadError) (dst src : Conn)
      → PumpStep
          (goes_on chunk err)
          reading
          dst
          src
          (pump_read chunk err)
          dst
          (src_read chunk err src)
  write :
      (chunk : Bytes) (err : ReadError) (dst src : Conn)
      → dst.closed ≡ false
      → PumpStep 0
          (writing chunk err)
          dst
          src
          (after_read err)
          (dst_write chunk dst)
          (src_after err src)
  fail_write :
      (part rest : Bytes) (err : ReadError) (dst src : Conn)
      → (dst.closed ≡ true → part ≡ [])
      → PumpStep 0
          (writing (part ++ rest) err)
          dst
          src
          (half_closing write_failed)
          (dst_write part dst)
          src
  half_close :
      (e : Ending) (dst src : Conn)
      → PumpStep 0 (half_closing e) dst src (done e) (close_write dst) src

-- The two pumps of a relay: `to_right` copies from `left` to `right`.
pub record Relay : Type 0 where
  pub left : Conn
  pub right : Conn
  pub to_left : Pump
  pub to_right : Pump
  pub finished : Bool

abbrev pub open_conn : Conn
open_conn = record { received = []; sent = []; write_closed = false; closed = false }

abbrev pub start_relay : Relay
start_relay = record {
  left = open_conn;
  right = open_conn;
  to_left = reading;
  to_right = reading;
  finished = false;
}

-- The end of `Relay`, behind `wg.Wait`.
abbrev pub close_both : Relay → Relay
close_both r = record r { left = close_conn r.left; right = close_conn r.right; finished = true }

pub data RelayStep : ℕ → Relay → Relay → Type 0 where
  step_right :
      (n : ℕ) (r : Relay) (p : Pump) (dst src : Conn)
      → PumpStep n r.to_right r.right r.left p dst src
      → RelayStep n r (record r { to_right = p; right = dst; left = src })
  step_left :
      (n : ℕ) (r : Relay) (p : Pump) (dst src : Conn)
      → PumpStep n r.to_left r.left r.right p dst src
      → RelayStep n r (record r { to_left = p; left = dst; right = src })
  wait :
      (r : Relay) (e f : Ending)
      → r.to_left ≡ done e
      → r.to_right ≡ done f
      → r.finished ≡ false
      → RelayStep 0 r (close_both r)

-- Runs, with the numbers of their steps and of the reads that go on.
pub data RelayRun : ℕ → ℕ → Relay → Relay → Type 0 where
  stay : (r : Relay) → RelayRun 0 0 r r
  go :
      (k m n : ℕ) (r s t : Relay)
      → RelayRun k m r s
      → RelayStep n s t
      → RelayRun (suc k) (m + n) r t
