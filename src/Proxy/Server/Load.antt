-- ===== src/Proxy/Server/Load.antt =====
-- internal/proxy/server.go: many requests at once on the semaphore `sem`. Each request runs as a thread
-- through the events of `serve_http`; taking a slot and the test for a free one are the one `select`.
pub mod Counted
use px_go.Prelude.{
  ℕ, zero, suc, ◌+◌, ◌-◌, ◌≤◌, ◌≡◌, ◌≢◌, refl, sym, ap, ◌∙◌, inl, inr, Bool, true, false, not, ◌&&◌,
  ◌||◌, List, [], ◌∷◌, ◌++◌, Option, none, some, arith, if◌then◌else◌, leb, Bool-cases,
  Option-cases, All, All-append,
}
use mathlib.Core.Path.{subst}
use px_go.Network.{Outcome, value, error, panic, ◌>>=◌}
use px_go.Proxy.Server.{
  Server, Request, Event, acquire, release, close_upstream, established, relay, shut_down,
  nil_pointer, reply, Upstream, opened, failed, nothing, Hijack, unsupported, hijack_failed,
  hijacked, hijack_upstream, connect_upstream, release_sem, handle_connect, handle_quit,
  serve_route, serve_allowed, is_client_allowed, serve_http,
}
use px_go.Proxy.Server.Slots.{slot_after, slot_at_end, serve_http-slot}

-- A request that is served: whether it holds a slot, and what it does next.
pub record Thread : Type 0 where
  pub holds : Bool
  pub todo : List Event

pub record Serving : Type 0 where
  pub server : Server
  pub threads : List Thread

-- The number of slots taken after an event
abbrev pub sem_after : Event → ℕ → ℕ
sem_after acquire n = suc n
sem_after release n = n - 1
sem_after _ n = n

abbrev pub with_sem : ℕ → Server → Server
with_sem n s = record s { sem = n }

-- A request arrives, or a thread does what comes next, or it has ended.
pub data ServingStep : Serving → Serving → Type 0 where
  take_slot :
      (s : Server) (ts : List Thread) (q : Request) (rest : List Event)
      → serve_http s q ≡ value (acquire ∷ rest)
      → ServingStep
          (record { server = s; threads = ts })
          (record {
            server = with_sem (suc s.sem) s;
            threads = record { holds = true; todo = rest } ∷ ts;
          })
  take_none :
      (s : Server) (ts : List Thread) (q : Request) (events : List Event)
      → serve_http s q ≡ value events
      → ((rest : List Event) → events ≢ acquire ∷ rest)
      → ServingStep
          (record { server = s; threads = ts })
          (record { server = s; threads = record { holds = false; todo = events } ∷ ts })
  advance :
      (s : Server) (us ts : List Thread) (held next : Bool) (e : Event) (rest : List Event)
      → slot_after held e ≡ some next
      → ServingStep
          (record { server = s; threads = us ++ (record { holds = held; todo = e ∷ rest } ∷ ts) })
          (record {
            server = with_sem (sem_after e s.sem) s;
            threads = us ++ (record { holds = next; todo = rest } ∷ ts);
          })
  leave :
      (s : Server) (us ts : List Thread) (held : Bool)
      → ServingStep
          (record { server = s; threads = us ++ (record { holds = held; todo = [] } ∷ ts) })
          (record { server = s; threads = us ++ ts })

-- What a server reaches from one without requests.
pub data Reaches (s : Server) : Serving → Type 0 where
  idle : s.sem ≡ 0 → Reaches s (record { server = s; threads = [] })
  step : (v w : Serving) → Reaches s v → ServingStep v w → Reaches s w
