-- ===== src/Tests/TunnelRuns.antt =====
-- Runs of a relay, for internal/proxy/tunnel.go.
use px_go.Prelude.{◌+◌, ◌*◌, ◌≤◌}
use px_go.Strings.{text}
use px_go.Proxy.Tunnel.{
  Relay, no_error, writing, half_closing, write_failed, read, fail_write, RelayRun, start_relay,
  step_right, stay, go,
}
use px_go.Proxy.Tunnel.Delivery.{IsFaithful, RelayRun-IsFaithful}
use px_go.Proxy.Tunnel.Termination.{RelayRun-bounded}

-- A chunk was read from the client, and the write of it failed behind its first byte.
abbrev one_read : Relay
one_read = record start_relay {
  left = record start_relay.left { received = text "ab" };
  to_right = writing (text "ab") no_error;
}

abbrev write_lost : Relay
write_lost = record one_read {
  right = record one_read.right { sent = text "a" };
  to_right = half_closing write_failed;
}

lost_run : RelayRun 2 1 start_relay write_lost
lost_run =
    go 1 1 0 start_relay one_read write_lost
      (go 0 0 1 start_relay start_relay one_read (stay start_relay) (
        step_right 1 start_relay _ _ _
          (read (text "ab") no_error start_relay.right start_relay.left)))
      (step_right 0 one_read _ _ _
        (fail_write (text "a") (text "b") no_error one_read.right one_read.left (λ c. cc c)))

RelayRun-IsFaithful_example : IsFaithful write_lost
RelayRun-IsFaithful_example = RelayRun-IsFaithful 2 1 write_lost lost_run

RelayRun-bounded_example : 2 ≤ 5 + 2 * 1
RelayRun-bounded_example = RelayRun-bounded 2 1 write_lost lost_run
